-- ===== src/Login/Auth/Prompt/Once.antt =====
-- All answers of one login carry one password, which is looked up once.
use kimi_ssh.Base.{
  ℕ, Bool, true, false, not, zero, suc, ◌≤◌, ◌≡◌, refl, sym, ap, ◌∙◌, inl, inr, Option, none, some,
  List, [], ◌∷◌, if◌then◌else◌, ◌==◌, ==_iff, All, length, arith, Bool-cases,
}
use mathlib.Core.Path.{subst}
use kimi_ssh.Base.Text.{Text, same_text}
use kimi_ssh.Login.Auth.{Machine, askpass_program, lookup_password}
use kimi_ssh.Login.Auth.Prompt.{
  Prompt, new_prompt, load, Question, for_password, questions, Reply, secret, answers, no_password,
  repeated, password_reply, keyboard_reply, ask, ask_all,
}

-- A reply that fits its question and carries the password `r`, or the error if there is none.
abbrev pub IsReply : Option Text → Question × Reply → Type 0
IsReply r (for_password, secret value) = r ≡ some value
IsReply r (for_password, answers values) = ⊥
IsReply r (for_password, no_password source) = r ≡ none
IsReply r (questions n, secret value) = ⊥
IsReply r (questions n, answers values) = (length values ≡ n) × All (λ value. r ≡ some value) values
IsReply r (questions n, no_password source) = r ≡ none

repeated_lem :
    (n : ℕ) (value : Text)
    → (length (repeated n value) ≡ n) × All (λ v. some value ≡ some v) (repeated n value)
repeated_lem zero value = (refl, tt)
repeated_lem (suc n) value = (ap suc (repeated_lem n value).0, (refl, (repeated_lem n value).1))

password_reply-IsReply :
    (e : Machine) (r : Option Text) → IsReply r (for_password, password_reply e r)
password_reply-IsReply e none = refl
password_reply-IsReply e (some value) = refl

keyboard_reply-IsReply :
    (e : Machine) (n : ℕ) (r : Option Text) → IsReply r (questions n, keyboard_reply e n r)
keyboard_reply-IsReply e n none = refl
keyboard_reply-IsReply e n (some value) = repeated_lem n value

-- Once a password is loaded, it answers everything.
loaded-IsReply :
    (e : Machine) (user host : Text) (p : Prompt) (q : Question) (r : Option Text)
    → p.loaded ≡ some r
    → ((ask e user host p q).0 ≡ p) × IsReply r (q, (ask e user host p q).1)
unfolding ask load
loaded-IsReply e user host p for_password r h = rw h (refl, password_reply-IsReply e r)
loaded-IsReply e user host p (questions n) r h = elim (Bool-cases (n == 0)) [
  | inl z ↦ rw z (refl, (sym ((==_iff n 0).0 z), tt))
  | inr z ↦ rw (z, h) (refl, keyboard_reply-IsReply e n r)
]

ask_all_loaded :
    (user host : Text) (p : Prompt) (qs : List (Machine × Question)) (r : Option Text)
    → p.loaded ≡ some r
    → ((ask_all user host p qs).0 ≡ p) × All (IsReply r) (ask_all user host p qs).1
unfolding ask_all
ask_all_loaded user host p [] r h = (refl, tt)
ask_all_loaded user host p ((e, q) ∷ rest) r h =
    let first = loaded-IsReply e user host p q r h in
    let later = ask_all_loaded user host p rest r h in rw first.0 (later.0, (first.1, later.1))

-- The launches of one lookup.
launched : (e : Machine) → (if same_text (askpass_program e) [] then 0 else 1) ≤ 1
launched e = ground arith

abbrev pub needs_password : Question → Bool
needs_password for_password = true
needs_password (questions n) = not (n == 0)

-- The password that is looked up, if there is one, on the machine as it is when a question first
-- needs it.
abbrev pub first_lookup : Text → Text → List (Machine × Question) → Option Text
first_lookup user host [] = none
first_lookup user host ((e, q) ∷ rest) =
    if needs_password q then lookup_password e user host else first_lookup user host rest

-- A question that needs no password changes nothing; one that does loads it.
idle-IsReply :
    (e : Machine) (user host : Text) (p : Prompt) (q : Question) (r : Option Text)
    → needs_password q ≡ false
    → ((ask e user host p q).0 ≡ p) × IsReply r (q, (ask e user host p q).1)
unfolding ask load
idle-IsReply e user host p for_password r h = absurd (ground (arith, h))
idle-IsReply e user host p (questions n) r h =
    let z : (n == 0) ≡ true = ground (arith, h) in rw z (refl, (sym ((==_iff n 0).0 z), tt))

loading-IsReply :
    (e : Machine) (user host : Text) (q : Question)
    → needs_password q ≡ true
    → let a = ask e user host new_prompt q in
      (a.0.loaded ≡ some (lookup_password e user host))
      × IsReply (lookup_password e user host) (q, a.1)
      × (a.0.launches ≤ 1)
unfolding ask load
loading-IsReply e user host for_password h =
    (refl, password_reply-IsReply e (lookup_password e user host), omega (arith, launched e))
loading-IsReply e user host (questions n) h =
    let z : (n == 0) ≡ false = ground (arith, h) in
    rw z (refl, keyboard_reply-IsReply e n (lookup_password e user host), omega (arith, launched e))

abbrev asked : List (Machine × Question) → List Question
asked [] = []
asked ((e, q) ∷ rest) = q ∷ asked rest

abbrev answered : List (Question × Reply) → List Question
answered [] = []
answered ((q, a) ∷ rest) = q ∷ answered rest

ask_all-answered :
    (user host : Text) (p : Prompt) (qs : List (Machine × Question))
    → answered (ask_all user host p qs).1 ≡ asked qs
unfolding ask_all
ask_all-answered user host p [] = refl
ask_all-answered user host p ((e, q) ∷ rest) =
    ap (λ xs. q ∷ xs) (ask_all-answered user host (ask e user host p q).0 rest)

-- At most one launch, a reply to each question in order, and each with the password `r`.
abbrev pub IsOnce :
    Option Text → List (Machine × Question) → Prompt × List (Question × Reply) → Type 0
IsOnce r qs (p, replies) =
    (p.launches ≤ 1) × (answered replies ≡ asked qs) × All (IsReply r) replies

first_lookup_now :
    (user host : Text) (e : Machine) (q : Question) (rest : List (Machine × Question))
    → needs_password q ≡ true
    → first_lookup user host ((e, q) ∷ rest) ≡ lookup_password e user host
first_lookup_now user host e q rest h = rw h refl

first_lookup_later :
    (user host : Text) (e : Machine) (q : Question) (rest : List (Machine × Question))
    → needs_password q ≡ false
    → first_lookup user host ((e, q) ∷ rest) ≡ first_lookup user host rest
first_lookup_later user host e q rest h = rw h refl

replies-IsOnce :
    (user host : Text) (qs : List (Machine × Question)) (r : Option Text)
    → first_lookup user host qs ≡ r
    → ((ask_all user host new_prompt qs).0.launches ≤ 1)
      × All (IsReply r) (ask_all user host new_prompt qs).1
unfolding ask_all
replies-IsOnce user host [] r p = (omega arith, tt)
replies-IsOnce user host ((e, q) ∷ rest) r p = elim (Bool-cases (needs_password q)) [
  | inr h ↦
      let ih =
        replies-IsOnce user host rest r (sym (first_lookup_later user host e q rest h) ∙ p) in
      let first = idle-IsReply e user host new_prompt q r h in rw first.0 (ih.0, (first.1, ih.1))
  | inl h ↦
      let (l, fits, few) = loading-IsReply e user host q h in
      let same : lookup_password e user host ≡ r =
        sym (first_lookup_now user host e q rest h) ∙ p in
      let later =
        ask_all_loaded user host (ask e user host new_prompt q).0 rest r (l ∙ ap some same) in
      (
        omega (arith, ap (λ x. x.launches) later.0, few),
        (subst (λ x. IsReply x (q, (ask e user host new_prompt q).1)) same fits, later.1),
      )
]

-- However often a server asks for the password or puts questions, the askpass program is launched
-- at most once, and every question gets a reply, in order: each reply carries what
-- `lookupPassword` gives on the machine as it is when a question first needs a password, one copy
-- for every question of the server, or the error that there is none.
pub ask_all-IsOnce :
    (user host : Text) (qs : List (Machine × Question))
    → IsOnce (first_lookup user host qs) qs (ask_all user host new_prompt qs)
ask_all-IsOnce user host qs =
    let r = replies-IsOnce user host qs (first_lookup user host qs) refl in
    (r.0, ask_all-answered user host new_prompt qs, r.1)
