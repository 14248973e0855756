-- ===== src/Config/Glob/Meaning.antt =====
-- What `globMatch` of internal/ssh/config.go answers.
use kimi_ssh.Base.{
  ℕ, zero, suc, ◌+◌, ◌-◌, ◌*◌, ◌≤◌, ◌<◌, Bool, true, false, ◌≡◌, ◌↔◌, refl, ◌∙◌, inl, inr, Option,
  none, some, [], ◌∷◌, arith, ◌==◌, length, get_elem?, get_elem?-lt, Bool-cases, Option-cases,
}
use kimi_ssh.Base.Text.{Text, codes, to_lower, lower_byte}
use kimi_ssh.Config.Glob.{
  Cursor, fits, again, mismatch, backtrack, round_at, glob_loop, start, glob_fuel, glob_run,
  glob_match,
}
use kimi_ssh.Config.Glob.Matches.{Matches}
use kimi_ssh.Config.Glob.Correct.{LacksStar, Answers, run-Answers}

to_lower-LacksStar : (s : Text) → LacksStar s → LacksStar (to_lower s)
unfolding to_lower
to_lower-LacksStar [] h = tt
to_lower-LacksStar (c ∷ s) h = (λ e. h.0 (ground arith), to_lower-LacksStar s h.1)

Answers-iff :
    {G : Type 0} (r : Option Bool) → Answers G r → (elim r [ some b ↦ b | none ↦ false ] ≡ true) ↔ G
Answers-iff none h = absurd h
Answers-iff (some true) h = (λ _. h, λ _. refl)
Answers-iff (some false) h = (λ e. ground arith, λ g. absurd (h g))

-- `glob_match` answers true exactly when the alias matches the pattern, case aside, for every
-- alias that holds no `*` itself.
pub glob_match-Matches :
    (pattern al : Text)
    → LacksStar al
    → (glob_match pattern al ≡ true) ↔ Matches (to_lower pattern) (to_lower al)
unfolding glob_match
glob_match-Matches pattern al h =
    Answers-iff (glob_run (to_lower pattern) (to_lower al))
      (run-Answers (to_lower pattern) (to_lower al) (to_lower-LacksStar al h))

-- The numbers that bound the loop: `k` is what the saved star may still swallow.
record Budget (pat al : Text) (f k : ℕ) (s : Cursor) : Type 0 where
  in_pattern : s.p ≤ length pat
  order : s.resume ≤ s.a
  room : length al ≤ s.resume + k
  fuel : k * (length pat + 1) + (length pat - s.p) < f
  star_in_pattern : (st : ℕ) → s.star ≡ some st → st < length pat

module _ (pat al : Text) where
  abbrev Ends : Option Bool → Type 0
  Ends r = (b : Bool) × (r ≡ some b)

  abbrev Rounds : ℕ → Type 0
  Rounds f = (k : ℕ) (s : Cursor) → Budget pat al f k s → Ends (glob_loop f pat al s)

  backtrack-Ends :
      {f c : ℕ} (k : ℕ) (s : Cursor) (o : Option ℕ)
      → Rounds f
      → s.star ≡ o
      → Budget pat al (suc f) k s
      → get_elem? al s.a ≡ some c
      → Ends
          (elim (backtrack o s.resume) [ again t ↦ glob_loop f pat al t | mismatch ↦ some false ])
  backtrack-Ends k s none ih e i ea = (false, refl)
  backtrack-Ends zero s (some st) ih e i ea = absurd (omega (arith, get_elem?-lt al s.a ea))
  backtrack-Ends (suc k) s (some st) ih e i ea = ih k _ (record {
    in_pattern = omega (arith, i.star_in_pattern st e);
    order = omega arith;
    room = omega arith;
    fuel = omega (arith, i.star_in_pattern st e);
    star_in_pattern = λ j h. i.star_in_pattern j (e ∙ h);
  })

  round-Ends :
      {f c : ℕ} (k : ℕ) (s : Cursor) (o : Option ℕ)
      → Rounds f
      → Budget pat al (suc f) k s
      → get_elem? pat s.p ≡ o
      → get_elem? al s.a ≡ some c
      → Ends (elim (round_at o c s) [ again t ↦ glob_loop f pat al t | mismatch ↦ some false ])
  round-Ends k s none ih i ep ea = backtrack-Ends k s s.star ih refl i ea
  round-Ends {f} {c} k s (some x) ih i ep ea = elim (Bool-cases (fits x c)) [
    | inl h ↦
        rw (h, round_at)
          (ih k _ (record {
            in_pattern = omega (arith, get_elem?-lt pat s.p ep);
            order = omega arith;
            room = omega arith;
            fuel = omega (arith, get_elem?-lt pat s.p ep);
            star_in_pattern = i.star_in_pattern;
          }))
    | inr n ↦ elim (Bool-cases (x == b'*')) [
      | inl h ↦
          rw (n, h, round_at)
            (ih k _ (record {
              in_pattern = omega (arith, get_elem?-lt pat s.p ep);
              order = omega arith;
              room = omega arith;
              fuel = omega (arith, get_elem?-lt pat s.p ep);
              star_in_pattern = λ st e. ground (arith, get_elem?-lt pat s.p ep);
            }))
      | inr h ↦ rw (n, h, round_at) (backtrack-Ends k s s.star ih refl i ea)
    ]
  ]

  loop-Ends : (f : ℕ) → Rounds f
  unfolding glob_loop
  loop-Ends zero k s i = absurd (omega arith)
  loop-Ends (suc f) k s i = elim (Option-cases (get_elem? al s.a)) [
    | inl e ↦ rw (e, glob_loop) (_, refl)
    | inr (c, e) ↦ rw (e, glob_loop) (round-Ends k s (get_elem? pat s.p) (loop-Ends f) i refl e)
  ]

-- The loop ends within its fuel for every pattern and every alias.
pub glob_run_total : (pat al : Text) → (b : Bool) × (glob_run pat al ≡ some b)
unfolding glob_run
glob_run_total pat al = loop-Ends pat al (glob_fuel pat al) (length al) start (record {
  in_pattern = omega arith;
  order = omega arith;
  room = omega arith;
  fuel = omega arith;
  star_in_pattern = λ st e. ground arith;
})

two_rounds : (c : ℕ) (s : Text) → glob_run (codes "*") (b'*' ∷ c ∷ s) ≡ some false
unfolding glob_run
two_rounds c s =
    let e : glob_fuel (codes "*") (b'*' ∷ c ∷ s) ≡ suc (suc (length s * 2 + 5)) = omega arith in
    rw e

lower_star : (c : ℕ) (s : Text) → to_lower (b'*' ∷ c ∷ s) ≡ b'*' ∷ lower_byte c ∷ to_lower s
unfolding to_lower
lower_star c s = refl

lower_pattern : to_lower (codes "*") ≡ codes "*"
unfolding to_lower
lower_pattern = refl

glob_match_lem :
    (pattern al : Text)
    → glob_match pattern al
      ≡ elim (glob_run (to_lower pattern) (to_lower al)) [ some b ↦ b | none ↦ false ]
unfolding glob_match
glob_match_lem pattern al = refl

-- The pattern `*` fails on an alias that begins with `*` and goes on: the star of the pattern is
-- taken for the byte of the alias.
pub glob_match_star_alias : (c : ℕ) (s : Text) → glob_match (codes "*") (b'*' ∷ c ∷ s) ≡ false
glob_match_star_alias c s =
    rw (
      glob_match_lem (codes "*"),
      lower_star,
      lower_pattern,
      two_rounds (lower_byte c) (to_lower s),
    )
