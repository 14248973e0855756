-- ===== src/Login/HostKey/Safety.antt =====
-- The function that `hostKeyCallback` returns, on a key that the files contradict.
use kimi_ssh.Base.{
  true, false, ◌≡◌, ◌≢◌, refl, sym, ◌∙◌, inl, inr, List, [], ◌∷◌, ◌++◌, Bool-cases, All, arith,
}
use kimi_ssh.Base.Text.{Text, same_text, same_text_iff}
use kimi_ssh.Config.Resolve.{has_key}
use kimi_ssh.Login.HostKey.{
  Verdict, recorded, unrecorded, mismatched, KnownHosts, Trust, no_trust, Callback, no_files,
  unreadable, strict, trusting, trust_key, judge, check_trusting, check_host_key, check_all,
}

abbrev LacksSpace : Text → Type 0
LacksSpace = All (λ c. c ≢ b' ')

not_in_lacking : (h f : Text) (g : Text) → LacksSpace g → g ≡ h ++ b' ' ∷ f → ⊥
not_in_lacking [] f [] l e = ground arith
not_in_lacking [] f (c ∷ g) l e = l.0 (ground arith)
not_in_lacking (d ∷ h) f [] l e = ground arith
not_in_lacking (d ∷ h) f (c ∷ g) l e = not_in_lacking h f g l.1 (ground arith)

-- The last blank separates the host and the fingerprint.
split_inj :
    (h j f g : Text)
    → LacksSpace f
    → LacksSpace g
    → h ++ b' ' ∷ f ≡ j ++ b' ' ∷ g
    → (h ≡ j) × (f ≡ g)
split_inj [] [] f g lf lg e = (refl, ground arith)
split_inj [] (d ∷ j) f g lf lg e = absurd (not_in_lacking j g f lf (ground arith))
split_inj (c ∷ h) [] f g lf lg e = absurd (not_in_lacking h f g lg (ground arith))
split_inj (c ∷ h) (d ∷ j) f g lf lg e =
    let r = split_inj h j f g lf lg (ground arith) in (ground (arith, r.0), r.1)

-- Fingerprints are base64 texts, which hold no blank, and no two keys share one.
pub record IsFingerprint (fingerprint : Text → Text) : Type 0 where
  pub lacks_space : (key : Text) → LacksSpace (fingerprint key)
  pub injective : (key other : Text) → fingerprint key ≡ fingerprint other → key ≡ other

module _ (k : KnownHosts) (fp : IsFingerprint k.fingerprint) where
  -- What is trusted stands for a host that the files do not know.
  abbrev IsFair : List Text → Type 0
  IsFair = All (λ x.
      (host : Text) × (key : Text) × (x ≡ trust_key k host key) × (k.verify host key ≡ unrecorded))

  trusted_unrecorded :
      (xs : List Text) (host key : Text)
      → IsFair xs
      → has_key xs (trust_key k host key) ≡ true
      → k.verify host key ≡ unrecorded
  trusted_unrecorded [] host key fair h = ground arith
  trusted_unrecorded (x ∷ xs) host key fair h =
      elim (Bool-cases (same_text x (trust_key k host key))) [
        | inl e ↦
            let (j, other, p, v) = fair.0 in
            let same =
              split_inj host j (k.fingerprint key) (k.fingerprint other) (fp.lacks_space key)
                (fp.lacks_space other) (sym ((same_text_iff x (trust_key k host key)).0 e) ∙ p) in
            rw (same.0, fp.injective key other same.1) v
        | inr e ↦ trusted_unrecorded xs host key fair.1 (rw e at h)
      ]

  judge-IsFair :
      (t : Trust) (host key : Text) (v : Verdict)
      → k.verify host key ≡ v
      → IsFair t.trusted
      → IsFair (judge k t host key v).0.trusted
  judge-IsFair t host key recorded e fair = fair
  judge-IsFair t host key mismatched e fair = fair
  judge-IsFair t host key unrecorded e fair = elim (Bool-cases (k.can_record host key)) [
    | inl c ↦ rw c ((host, key, refl, e), fair)
    | inr c ↦ rw c fair
  ]

  check_host_key-IsFair :
      (c : Callback) (t : Trust) (host key : Text)
      → IsFair t.trusted
      → IsFair (check_host_key c k t host key).0.trusted
  unfolding check_host_key check_trusting
  check_host_key-IsFair no_files t host key fair = fair
  check_host_key-IsFair unreadable t host key fair = fair
  check_host_key-IsFair strict t host key fair = fair
  check_host_key-IsFair trusting t host key fair =
      elim (Bool-cases (has_key t.trusted (trust_key k host key))) [
        | inl e ↦ rw e fair
        | inr e ↦ rw e (judge-IsFair t host key (k.verify host key) refl fair)
      ]

  check_all-IsFair :
      (c : Callback) (earlier : List (Text × Text)) (t : Trust)
      → IsFair t.trusted
      → IsFair (check_all c k t earlier).trusted
  unfolding check_all
  check_all-IsFair c [] t fair = fair
  check_all-IsFair c ((host, key) ∷ rest) t fair =
      check_all-IsFair c rest (check_host_key c k t host key).0
        (check_host_key-IsFair c t host key fair)

  judge_refuses :
      (t : Trust) (host key : Text) (v : Verdict)
      → v ≡ mismatched
      → (judge k t host key v).1 ≡ false
  judge_refuses t host key v e = rw e refl

  -- A key that the files contradict is refused, whichever callback is in use and whatever hosts
  -- and keys were checked, and trusted, before, if fingerprints hold no blank and no two keys
  -- share one.
  pub check_host_key_mismatched :
      (c : Callback) (earlier : List (Text × Text)) (host key : Text)
      → k.verify host key ≡ mismatched
      → (check_host_key c k (check_all c k no_trust earlier) host key).1 ≡ false
  unfolding check_host_key check_trusting
  check_host_key_mismatched no_files earlier host key e = refl
  check_host_key_mismatched unreadable earlier host key e = refl
  check_host_key_mismatched strict earlier host key e = rw e refl
  check_host_key_mismatched trusting earlier host key e =
      let t = check_all trusting k no_trust earlier in
      elim (Bool-cases (has_key t.trusted (trust_key k host key))) [
        | inl h ↦
            let u =
              trusted_unrecorded t.trusted host key (check_all-IsFair trusting earlier no_trust tt)
                h in
            absurd (ground (arith, u, e))
        | inr h ↦ rw h (judge_refuses t host key (k.verify host key) e)
      ]
