-- ===== src/Login/HostKey/Appended.antt =====
-- Which lines a callback appends to the user's file.
use kimi_ssh.Base.{
  ℕ, ◌+◌, ◌≤◌, ◌<◌, true, false, ◌&&◌, ◌≡◌, ◌⊎◌, refl, inl, inr, List, [], ◌∷◌, ◌++◌, if◌then◌else◌,
  Bool-cases, arith,
}
use kimi_ssh.Base.Text.{Text, same_text, same_text_iff, same_text_self}
use kimi_ssh.Config.Resolve.{has_key}
use kimi_ssh.Login.HostKey.{
  Verdict, recorded, unrecorded, mismatched, KnownHosts, Trust, Callback, no_files, unreadable,
  strict, trusting, trust_key, judge, check_trusting, check_host_key, check_all, check_dials,
}

-- How often a host stands in the list with a key.
abbrev pub times : List (Text × Text) → Text → Text → ℕ
times [] host key = 0
times ((h, k) ∷ rest) host key =
    (if same_text h host && same_text k key then 1 else 0) + times rest host key

times-append :
    (xs : List (Text × Text)) (h k host key : Text)
    → times (xs ++ (h, k) ∷ []) host key
      ≡ times xs host key + (if same_text h host && same_text k key then 1 else 0)
times-append [] h k host key = omega arith
times-append ((a, b) ∷ xs) h k host key = omega (arith, times-append xs h k host key)

zero_of : (n : ℕ) → ¬ (0 < n) → n ≡ 0
zero_of n h = ground arith

same_pair :
    (host key h x : Text) → (same_text host h && same_text key x) ≡ true → (host ≡ h) × (key ≡ x)
same_pair host key h x e = ground (arith, same_text_iff host h, same_text_iff key x)

module _ (k : KnownHosts) where
  -- What was appended is trusted or was read from the files, and stands there once.
  record IsOnce (t : Trust) : Type 0 where
    once : (host key : Text) → times t.appended host key ≤ 1
    known :
        (host key : Text)
        → 0 < times t.appended host key
        → (has_key t.trusted (trust_key k host key) ≡ true) ⊎ (k.verify host key ≡ recorded)

  -- The trust after a key was recorded.
  abbrev added : Trust → Text → Text → Trust
  added t host key = record {
    trusted = trust_key k host key ∷ t.trusted;
    appended = t.appended ++ (host, key) ∷ [];
  }

  added-IsOnce :
      (t : Trust) (host key : Text)
      → has_key t.trusted (trust_key k host key) ≡ false
      → k.verify host key ≡ unrecorded
      → IsOnce t
      → IsOnce (added t host key)
  added-IsOnce t host key new v w = record {
    once = λ h x. elim (Bool-cases (same_text host h && same_text key x)) [
      | inl same ↦
          let p = same_pair host key h x same in
          rw (← p.0, ← p.1)
            (ground (
              arith,
              times-append t.appended host key host key,
              absent,
              same_text_self host,
              same_text_self key,
            ))
      | inr other ↦ ground (arith, times-append t.appended host key h x, w.once h x, other)
    ];
    known = λ h x m. elim (Bool-cases (same_text host h && same_text key x)) [
      | inl same ↦
          let p = same_pair host key h x same in
          inl (rw (← p.0, ← p.1) (ground (arith, same_text_self (trust_key k host key))))
      | inr other ↦
          let old : 0 < times t.appended h x =
            ground (arith, times-append t.appended host key h x, m, other) in
          elim (w.known h x old) [
            | inl trusted ↦ inl (ground (arith, trusted))
            | inr read ↦ inr read
          ]
    ];
  }
    where
      absent : times t.appended host key ≡ 0
      absent = zero_of (times t.appended host key) (λ m. elim (w.known host key m) [
        | inl trusted ↦ ground (arith, trusted, new)
        | inr read ↦ ground (arith, read, v)
      ])

  judge-IsOnce :
      (t : Trust) (host key : Text) (v : Verdict)
      → has_key t.trusted (trust_key k host key) ≡ false
      → k.verify host key ≡ v
      → IsOnce t
      → IsOnce (judge k t host key v).0
  judge-IsOnce t host key recorded new e w = w
  judge-IsOnce t host key mismatched new e w = w
  judge-IsOnce t host key unrecorded new e w = elim (Bool-cases (k.can_record host key)) [
    | inl c ↦ rw c (added-IsOnce t host key new e w)
    | inr c ↦ rw c w
  ]

  check_host_key-IsOnce :
      (c : Callback) (t : Trust) (host key : Text)
      → IsOnce t
      → IsOnce (check_host_key c k t host key).0
  unfolding check_host_key check_trusting
  check_host_key-IsOnce no_files t host key w = w
  check_host_key-IsOnce unreadable t host key w = w
  check_host_key-IsOnce strict t host key w = w
  check_host_key-IsOnce trusting t host key w =
      elim (Bool-cases (has_key t.trusted (trust_key k host key))) [
        | inl e ↦ rw e w
        | inr e ↦ rw e (judge-IsOnce t host key (k.verify host key) e refl w)
      ]

  check_all-IsOnce :
      (c : Callback) (checks : List (Text × Text)) (t : Trust)
      → IsOnce t
      → IsOnce (check_all c k t checks)
  unfolding check_all
  check_all-IsOnce c [] t w = w
  check_all-IsOnce c ((host, key) ∷ rest) t w =
      check_all-IsOnce c rest (check_host_key c k t host key).0
        (check_host_key-IsOnce c t host key w)

-- The user's file is among those that are read, and what stands in it is recorded.
abbrev pub ReadsBack : (List (Text × Text) → KnownHosts) → Type 0
ReadsBack read =
    (appended : List (Text × Text)) (host key : Text)
    → 0 < times appended host key
    → (read appended).verify host key ≡ recorded

module _ (read : List (Text × Text) → KnownHosts) (back : ReadsBack read) where
  check_dials-appended :
      (dials : List (Callback × List (Text × Text))) (appended : List (Text × Text))
      → ((host key : Text) → times appended host key ≤ 1)
      → (host key : Text) → times (check_dials read appended dials) host key ≤ 1
  unfolding check_dials
  check_dials-appended [] appended w = w
  check_dials-appended ((c, checks) ∷ rest) appended w =
      check_dials-appended rest _
        (check_all-IsOnce (read appended) c checks (record { trusted = []; appended = appended })
          (record { once = w; known = λ h x m. inr (back appended h x m) })).once

  -- Over one dial after another, each with a callback of its own that has trusted nothing yet and
  -- with the files as the earlier ones have left them, no pair of a host and a key is appended to
  -- the user's known_hosts file twice; as long as that file is among those that are read, and what
  -- stands in it counts as recorded.
  pub check_dials-times :
      (dials : List (Callback × List (Text × Text))) (host key : Text)
      → times (check_dials read [] dials) host key ≤ 1
  check_dials-times dials = check_dials-appended dials [] (λ h x. omega arith)
