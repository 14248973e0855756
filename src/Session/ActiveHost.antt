-- ===== src/Session/ActiveHost.antt =====
-- What the active host can be.
use kimi_ssh.Base.{
  Bool, true, false, ◌≡◌, ◌≢◌, refl, sym, ◌∙◌, ◌⊎◌, inl, inr, Option, none, some, List, [], ◌∷◌,
  arith, Bool-cases,
}
use kimi_ssh.Base.Sort.{text_le, text_le_refl, IsLeast, IsSorted, sort_texts, sort_texts-IsSorted}
use kimi_ssh.Base.Text.{Text, same_text, same_text_iff, same_text_self}
use kimi_ssh.Config.Settings.{SshConfig}
use kimi_ssh.Config.Resolve.{has_key}
use kimi_ssh.Connection.{
  Manager, is_active, active_connections, disconnect, connect_begin, begin_with, config_for,
}
use kimi_ssh.Connection.Steps.{disconnect-IsWellFormed, connect_publish-IsWellFormed}
use kimi_ssh.Connection.WellFormed.{IsWellFormed}
use kimi_ssh.Connection.Effects.{
  active_connections_lem, is_active-connect_publish, disconnect_lem, has_key-sort_texts,
}
use kimi_ssh.Session.{
  Session, SessionError, dialed, connect_with, first_or_empty, pick_active, get_active_host, Dial,
  manager_connect, activate, target_of, connect_target, session_connect, session_disconnect,
}

-- A replacement is the least of the hosts that are connected, or none if there is none.
abbrev pub Picks : Manager → Text → Type 0
Picks m host =
    ((host ≡ []) × ((j : Text) → is_active m j ≡ false))
    ⊎ ((is_active m host ≡ true) × ((j : Text) → is_active m j ≡ true → text_le host j ≡ true))

IsLeast-has_key :
    (x : Text) (ys : List Text) (j : Text) → IsLeast x ys → has_key ys j ≡ true → text_le x j ≡ true
IsLeast-has_key x [] j h k = ground arith
IsLeast-has_key x (y ∷ ys) j h k = ground (arith, same_text_iff y j, IsLeast-has_key x ys j h.1)

first_Picks :
    (m : Manager) (hosts : List Text)
    → IsSorted hosts
    → ((j : Text) → has_key hosts j ≡ is_active m j)
    → Picks m (first_or_empty hosts)
first_Picks m [] h k = inl (refl, λ j. sym (k j))
first_Picks m (x ∷ xs) h k = inr (
  sym (k x) ∙ rw same_text_self,
  λ j a. elim (Bool-cases (same_text x j)) [
    | inl e ↦ rw (← (same_text_iff x j).0 e) (text_le_refl x)
    | inr e ↦ IsLeast-has_key x xs j h.0 (ground (arith, k j))
  ],
)

pick_active-Picks : (m : Manager) → IsWellFormed m → Picks m (pick_active (active_connections m))
unfolding pick_active
pick_active-Picks m w =
    let (sorted, members) = active_connections_lem m w in
    first_Picks m (sort_texts (active_connections m)) (sort_texts-IsSorted (active_connections m))
      (λ j. has_key-sort_texts (active_connections m) j ∙ members j)

-- `GetActiveHost` returns the host it leaves recorded; a recorded host that is connected is kept,
-- and one that is lost gives way to the least connected host, or to none.
abbrev pub Reports : Session → Session × Text → Type 0
Reports s (t, host) =
    (t.manager ≡ s.manager)
    × (t.active_host ≡ host)
    × (((host ≡ s.active_host) × ((host ≡ []) ⊎ (is_active s.manager host ≡ true)))
        ⊎ ((is_active s.manager s.active_host ≡ false) × Picks s.manager host))

-- `GetActiveHost` returns the host it leaves recorded, and leaves the connections alone; a
-- recorded host that is connected is kept, and one that is lost gives way to the least connected
-- host, or to none.
pub get_active_host-Reports : (s : Session) → IsWellFormed s.manager → Reports s (get_active_host s)
unfolding get_active_host
get_active_host-Reports s w = elim (Bool-cases (same_text s.active_host [])) [
  | inl e ↦
      rw (e, get_active_host) (refl, refl, inl (refl, inl ((same_text_iff s.active_host []).0 e)))
  | inr e ↦ elim (Bool-cases (is_active s.manager s.active_host)) [
    | inl a ↦ rw (e, get_active_host, a) (refl, refl, inl (refl, inr a))
    | inr a ↦ rw (e, get_active_host, a) (refl, refl, inr (refl, pick_active-Picks s.manager w))
  ]
]

-- After `Disconnect` the host is not connected and the manager is well formed. The active host is
-- another one only if it was the host that went away, and then it is the least of the hosts that
-- are left, or empty if there is none.
pub session_disconnect_lem :
    (s : Session) (host : Text)
    → IsWellFormed s.manager
    → let t = (session_disconnect s host).0 in
      IsWellFormed t.manager
      × (is_active t.manager host ≡ false)
      × (((s.active_host ≡ host) × Picks t.manager t.active_host)
          ⊎ ((s.active_host ≢ host) × (t.active_host ≡ s.active_host)))
unfolding session_disconnect
session_disconnect_lem s host w = (
  gone,
  (disconnect_lem s.manager host w host).0 ∙ rw same_text_self,
  elim (Bool-cases (same_text s.active_host host)) [
    | inl e ↦ rw e (inl ((same_text_iff s.active_host host).0 e, pick_active-Picks _ gone))
    | inr e ↦ rw e (inr (λ p. ground (arith, same_text_iff s.active_host host), refl))
  ],
)
  where
    gone : IsWellFormed (disconnect s.manager host).0
    gone = disconnect-IsWellFormed s.manager host w

-- What other calls do while one call dials keeps the manager well formed.
abbrev pub IsTame : Dial → Type 0
IsTame dial =
    (m : Manager) (host : Text) (config : SshConfig)
    → IsWellFormed m
    → IsWellFormed (dial.reach m host config).0

module _ (dial : Dial) (m : Manager) (host : Text) (tame : IsTame dial) (w : IsWellFormed m) where
  -- Well formed, and connected if there was no error.
  abbrev Connects : Manager × Option SessionError → Type 0
  Connects (n, e) = IsWellFormed n × (e ≡ none → is_active n host ≡ true)

  dialed-Connects :
      (config : SshConfig) (d : Manager × Bool) → IsWellFormed d.0 → Connects (dialed host config d)
  dialed-Connects config (n, false) v = (v, λ p. ground arith)
  dialed-Connects config (n, true) v = (
    connect_publish-IsWellFormed n host config v,
    λ _. is_active-connect_publish n host v config host ∙ rw same_text_self,
  )

  begun-Connects :
      (b : Bool) (o : Option SshConfig)
      → is_active m host ≡ b
      → Connects (connect_with dial m host (begin_with b o))
  begun-Connects b none h = (w, λ p. ground arith)
  begun-Connects true (some config) h = (w, λ _. h)
  begun-Connects false (some config) h =
      dialed-Connects config (dial.reach m host config) (tame m host config w)

  manager_connect-Connects : Connects (manager_connect dial m host)
  unfolding manager_connect connect_begin
  manager_connect-Connects = begun-Connects (is_active m host) (config_for m host) refl

-- Every session that `Connect` leaves is well formed; after a success the active host is the one that
-- was asked for, or the active one if none was named, and it is connected; after an error the active
-- host is what other calls have made of it.
abbrev pub ConnectResult : Dial → Session → Text → Session × Option SessionError → Type 0
ConnectResult dial s target (t, none) =
    IsWellFormed t.manager
    × (t.active_host ≡ target)
    × (target ≢ [])
    × (is_active t.manager target ≡ true)
ConnectResult dial s target (t, some e) =
    IsWellFormed t.manager
    × ((t.active_host ≡ dial.others s.active_host)
        ⊎ ((target ≡ []) × (t.active_host ≡ s.active_host)))

activate-ConnectResult :
    (dial : Dial) (s : Session) (target : Text) (m : Manager) (e : Option SessionError)
    → target ≢ []
    → IsWellFormed m
    → (e ≡ none → is_active m target ≡ true)
    → ConnectResult dial s target (activate dial s target (m, e))
activate-ConnectResult dial s target m none n w h = (w, refl, n, h refl)
activate-ConnectResult dial s target m (some e) n w h = (w, inl refl)

connect_target-ConnectResult :
    (dial : Dial) (s : Session) (target : Text)
    → IsTame dial
    → IsWellFormed s.manager
    → ConnectResult dial s target (connect_target dial (s, target))
connect_target-ConnectResult dial s target tame w = elim (Bool-cases (same_text target [])) [
  | inl e ↦ rw e (w, inr ((same_text_iff target []).0 e, refl))
  | inr e ↦ rw e (
      activate-ConnectResult dial s target (manager_connect dial s.manager target).0
        (manager_connect dial s.manager target).1 (λ p. ground (arith, same_text_iff target []))
        (manager_connect-Connects dial s.manager target tame w).0
        (manager_connect-Connects dial s.manager target tame w).1)
]

pub target_of-IsWellFormed :
    (s : Session) (host : Text) → IsWellFormed s.manager → IsWellFormed (target_of s host).0.manager
unfolding target_of
target_of-IsWellFormed s host w = elim (Bool-cases (same_text host [])) [
  | inl e ↦ rw (e, target_of) (rw (get_active_host-Reports s w).0 w)
  | inr e ↦ rw (e, target_of) w
]

pub session_connect-ConnectResult :
    (dial : Dial) (s : Session) (host : Text)
    → IsTame dial
    → IsWellFormed s.manager
    → ConnectResult dial (target_of s host).0 (target_of s host).1 (session_connect dial s host)
unfolding session_connect
session_connect-ConnectResult dial s host tame w =
    connect_target-ConnectResult dial (target_of s host).0 (target_of s host).1 tame
      (target_of-IsWellFormed s host w)
