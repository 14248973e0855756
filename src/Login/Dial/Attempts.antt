-- ===== src/Login/Dial/Attempts.antt =====
-- The attempts of `dial`: which one gives the client, the pauses between them, and the proxies.
use kimi_ssh.Base.{
  ℕ, zero, suc, ◌+◌, ◌*◌, Bool, true, not, ◌&&◌, ◌≡◌, refl, ◌∙◌, inl, inr, Option, none, some, List,
  [], ◌∷◌, ◌++◌, if◌then◌else◌, any, arith, Bool-cases,
}
use mathlib.Core.List.{map}
use kimi_ssh.Base.Text.{same_text}
use kimi_ssh.Config.Settings.{SshConfig}
use kimi_ssh.Connection.{second}
use kimi_ssh.Login.Auth.{AuthMethod}
use kimi_ssh.Login.Dial.{
  dial_attempts, Handshake, completed, rejected, silent, Network, after_spawn, open_client,
  started_proxy, dial_loop,
}
use kimi_ssh.Login.Proxy.{ProxyConn, proxy_conn}
use kimi_ssh.Login.Target.{Endpoint}

-- How many of the proxies run.
abbrev pub running : List ProxyConn → ℕ
running [] = 0
running (c ∷ cs) = (if c.is_running then 1 else 0) + running cs

abbrev pub is_proxied : SshConfig → Bool
is_proxied config = not (same_text config.proxy_command [])

-- The numbers in front of the first that passes the test.
abbrev pub until : (ℕ → Bool) → List ℕ → List ℕ
until p [] = []
until p (k ∷ ks) = if p k then [] else k ∷ until p ks

-- The numbers of the attempts that are left.
abbrev attempts : ℕ → ℕ → List ℕ
attempts zero k = []
attempts (suc left) k = k ∷ attempts left (k + 1)

running-append : (cs ds : List ProxyConn) → running (cs ++ ds) ≡ running cs + running ds
running-append [] ds = omega arith
running-append (c ∷ cs) ds = omega (arith, running-append cs ds)

after_spawn-running :
    (h : Handshake) (o : Option ProxyConn)
    → ((c : ProxyConn) → o ≡ some c → c.is_running ≡ true)
    → running (started_proxy (after_spawn h o).proxy) ≡ (if (after_spawn h o).client then 1 else 0)
after_spawn-running h none r = refl
after_spawn-running completed (some c) r = rw (r c refl) refl
after_spawn-running rejected (some c) r = refl
after_spawn-running silent (some c) r = refl

module _ (net : Network) (config : SshConfig) (dst : Endpoint) (methods : List AuthMethod) where
  -- Whether an attempt gives a client.
  abbrev pub opens : ℕ → Bool
  opens k = (open_client net k config dst methods).client

  spawned-is_running :
      (k : ℕ) (c : ProxyConn)
      → proxy_conn (net.spawn k) config.proxy_command config dst ≡ some c
      → c.is_running ≡ true
  spawned-is_running k c e = ground arith

  open_client-running :
      (k : ℕ)
      → running (started_proxy (open_client net k config dst methods).proxy)
        ≡ (if opens k && is_proxied config then 1 else 0)
  unfolding open_client
  open_client-running k = elim (Bool-cases (same_text config.proxy_command [])) [
    | inl e ↦ rw (e, open_client) (ground arith)
    | inr e ↦
        rw (e, open_client)
          (after_spawn-running (net.handshake k methods)
              (proxy_conn (net.spawn k) config.proxy_command config dst)
              (λ c p. spawned-is_running k c p)
            ∙ ground arith)
  ]

  dial_loop-client :
      (left k : ℕ) → (dial_loop net config dst methods left k).client ≡ any opens (attempts left k)
  unfolding dial_loop
  dial_loop-client zero k = refl
  dial_loop-client (suc left) k = ground (arith, dial_loop-client left (k + 1))

  dial_loop-running :
      (left k : ℕ)
      → running (dial_loop net config dst methods left k).proxies
        ≡ (if (dial_loop net config dst methods left k).client && is_proxied config then 1 else 0)
  unfolding dial_loop
  dial_loop-running zero k = refl
  dial_loop-running (suc left) k = elim (Bool-cases (opens k)) [
    | inl e ↦ rw (e, dial_loop) (open_client-running k ∙ rw e refl)
    | inr e ↦
        rw (e, dial_loop)
          (running-append (started_proxy (open_client net k config dst methods).proxy)
              (dial_loop net config dst methods left (k + 1)).proxies
            ∙ rw (open_client-running k, e) (ground (arith, dial_loop-running left (k + 1))))
  ]

  dial_loop-pauses :
      (dial_loop net config dst methods dial_attempts 1).pauses
      ≡ map (λ k. k * k * second) (until opens (1 ∷ 2 ∷ []))
  unfolding dial_loop
  dial_loop-pauses = elim (Bool-cases (opens 1)) [
    | inl a ↦ rw a refl
    | inr a ↦ elim (Bool-cases (opens 2)) [
      | inl b ↦ rw (a, b) refl
      | inr b ↦ elim (Bool-cases (opens 3)) [
        | inl c ↦ rw (a, b, c) refl
        | inr c ↦ rw (a, b, c) refl
      ]
    ]
  ]

  -- There is a client exactly if one of the attempts 1, 2 and 3 gives one. There is a pause of one
  -- second after a failed first attempt and of four seconds after a failed second one, and none
  -- else. Of the proxies that were started at most one still runs: the one that carries the
  -- client.
  pub dial_loop_lem :
      let d = dial_loop net config dst methods dial_attempts 1 in
      (d.client ≡ any opens (1 ∷ 2 ∷ 3 ∷ []))
      × (d.pauses ≡ map (λ k. k * k * second) (until opens (1 ∷ 2 ∷ [])))
      × (running d.proxies ≡ (if d.client && is_proxied config then 1 else 0))
  dial_loop_lem =
      (dial_loop-client dial_attempts 1, dial_loop-pauses, dial_loop-running dial_attempts 1)
