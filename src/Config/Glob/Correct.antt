-- ===== src/Config/Glob/Correct.antt =====
-- The loop of `globMatch` against the relation `Matches`.
use kimi_ssh.Base.{
  ℕ, zero, suc, ◌+◌, ◌-◌, ◌*◌, ◌≤◌, ◌<◌, Bool, true, false, ◌≡◌, ◌≢◌, ◌↔◌, refl, inl, inr, Option,
  none, some, [], ◌∷◌, arith, ◌==◌, ==_iff, length, drop, get_elem?, drop-get_elem?, get_elem?-lt,
  get_elem?_in_range, drop_out_of_range, drop_all, le_of_out_of_range, All, get_elem?-All,
  Bool-cases, Option-cases,
}
use kimi_ssh.Base.Text.{Text}
use kimi_ssh.Config.Glob.{
  Cursor, fits, again, mismatch, backtrack, round_at, skip_stars, glob_loop, start, glob_fuel,
  glob_run,
}
use kimi_ssh.Config.Glob.Matches.{
  Matches, done, byte, leave, grow, byte_inv, end_inv, must_grow, merge_stars, past_byte,
}

abbrev pub LacksStar : Text → Type 0
LacksStar = All (λ c. c ≢ b'*')

-- The second loop and the final comparison: what is left of the pattern matches the empty text.
skip_stars_iff :
    (f : ℕ) (pat : Text) (p : ℕ)
    → length pat ≤ p + f
    → p ≤ length pat
    → ((skip_stars f pat p == length pat) ≡ true) ↔ Matches (drop p pat) []
unfolding skip_stars
skip_stars_iff zero pat p h k = rw (drop_all pat p (omega arith)) (λ _. done, λ _. ground arith)
skip_stars_iff (suc f) pat p h k = elim (Option-cases (get_elem? pat p)) [
  | inl e ↦
      rw (e, skip_stars, drop_out_of_range pat p e)
        (λ _. done, λ _. ground (arith, le_of_out_of_range pat p e))
  | inr (x, e) ↦ elim (Bool-cases (x == b'*')) [
    | inl s ↦
        let ih = skip_stars_iff f pat (p + 1) (omega arith) (omega (arith, get_elem?-lt pat p e)) in
        rw (e, skip_stars, drop-get_elem? pat p e, s)
          (λ t. leave ((==_iff x b'*').0 s) (ih.0 t), λ d. ih.1 (end_inv d).1)
    | inr n ↦
        rw (e, skip_stars, drop-get_elem? pat p e, n)
          (λ t. ground (arith, get_elem?-lt pat p e), λ d. ground (arith, end_inv d))
  ]
]

-- The run ended with an answer, and the answer is right about `G`.
abbrev pub Answers : Type 0 → Option Bool → Type 0
Answers G none = ⊥
Answers G (some true) = G
Answers G (some false) = ¬ G

Answers-of_iff : {G : Type 0} (b : Bool) → (b ≡ true) ↔ G → Answers G (some b)
Answers-of_iff true e = e.0 refl
Answers-of_iff false e = λ g. ground (arith, e.1 g)

-- `G` is the question asked at the start.
module _ (G : Type 0) (pat al : Text) where
  -- What the saved star means, at the cursors; if there is none, nothing was ever skipped.
  abbrev Saved : Option ℕ → ℕ → ℕ → ℕ → Type 0
  Saved none r p a = G → Matches (drop p pat) (drop a al)
  Saved (some st) r p a =
      (get_elem? pat st ≡ some b'*')
      × (G → Matches (drop st pat) (drop r al))
      × (Matches (drop st pat) (drop r al) → G)
      × (Matches (drop (st + 1) pat) (drop r al) → Matches (drop p pat) (drop a al))

  Saved-move :
      (o : Option ℕ) (r p a p' a' : ℕ)
      → (Matches (drop p pat) (drop a al) → Matches (drop p' pat) (drop a' al))
      → Saved o r p a
      → Saved o r p' a'
  Saved-move none _ _ _ _ _ f h = λ g. f (h g)
  Saved-move (some st) _ _ _ _ _ f (e, to, from, down) = (e, to, from, λ d. f (down d))

  -- `k` bounds the bytes that the saved star may still swallow.
  record Inv (f k : ℕ) (s : Cursor) : Type 0 where
    now : Matches (drop s.p pat) (drop s.a al) → G
    later : G → Matches (b'*' ∷ drop s.p pat) (drop s.a al)
    saved : Saved s.star s.resume s.p s.a
    in_pattern : s.p ≤ length pat
    order : s.resume ≤ s.a
    room : length al ≤ s.resume + k
    fuel : k * (length pat + 1) + (length pat - s.p) < f

  -- A byte of the pattern and a byte of the alias that fit.
  Inv-fits :
      {f k x c : ℕ} (s : Cursor)
      → Inv (suc f) k s
      → get_elem? pat s.p ≡ some x
      → get_elem? al s.a ≡ some c
      → c ≢ b'*'
      → fits x c ≡ true
      → Inv f k (record s { p = s.p + 1; a = s.a + 1 })
  Inv-fits {k} {x} {c} s i ep ea nc h = record {
    now = λ d. i.now (rw (drop-get_elem? pat s.p ep, drop-get_elem? al s.a ea) (byte nx h d));
    later = λ g. past_byte (drop (s.a + 1) al) refl nx (aligned (i.later g));
    saved = Saved-move s.star s.resume _ _ _ _ (λ d. (byte_inv nx (at_bytes d)).1) i.saved;
    in_pattern = omega (arith, get_elem?-lt pat s.p ep);
    order = omega arith;
    room = i.room;
    fuel = omega (arith, get_elem?-lt pat s.p ep);
  }
    where
      nx : x ≢ b'*'
      nx e = ground arith

      at_bytes :
          Matches (drop s.p pat) (drop s.a al)
          → Matches (x ∷ drop (s.p + 1) pat) (c ∷ drop (s.a + 1) al)
      at_bytes d = rw (drop-get_elem? pat s.p ep, drop-get_elem? al s.a ea) at d

      aligned :
          Matches (b'*' ∷ drop s.p pat) (drop s.a al)
          → Matches (b'*' ∷ x ∷ drop (s.p + 1) pat) (c ∷ drop (s.a + 1) al)
      aligned d = rw (drop-get_elem? pat s.p ep, drop-get_elem? al s.a ea) at d

  -- A star of the pattern becomes the saved one.
  Inv-star :
      {f k x : ℕ} (s : Cursor)
      → Inv (suc f) k s
      → get_elem? pat s.p ≡ some x
      → x ≡ b'*'
      → Inv f k (record s { star = some s.p; resume = s.a; p = s.p + 1 })
  Inv-star {x} s i ep e = record {
    now = λ d. i.now (rw (drop-get_elem? pat s.p ep) (leave e d));
    later = λ g. rw e at (merged g);
    saved = (rw e at ep, λ g. rw (drop-get_elem? pat s.p ep) (merged g), i.now, λ d. d);
    in_pattern = omega (arith, get_elem?-lt pat s.p ep);
    order = omega arith;
    room = omega arith;
    fuel = omega (arith, get_elem?-lt pat s.p ep);
  }
    where
      merged : G → Matches (x ∷ drop (s.p + 1) pat) (drop s.a al)
      merged g = merge_stars refl e (rw (drop-get_elem? pat s.p ep) at (i.later g))

  -- After a mismatch the saved star has to swallow one more byte.
  module _ {f c st : ℕ} (s : Cursor) (no_match : ¬ Matches (drop s.p pat) (drop s.a al)) where
    Inv-backtrack :
        (k : ℕ)
        → Inv (suc f) k s
        → Saved (some st) s.resume s.p s.a
        → get_elem? al s.a ≡ some c
        → Inv f
            (k - 1)
            (record { p = st + 1; a = s.resume + 1; star = some st; resume = s.resume + 1 })
    Inv-backtrack zero i _ ea = absurd (omega (arith, get_elem?-lt al s.a ea))
    Inv-backtrack (suc k) i (es, to, from, down) ea =
        let (y, er) = get_elem?_in_range al s.resume (omega (arith, get_elem?-lt al s.a ea)) in
        let at_star : Matches (drop st pat) (drop s.resume al)
            → Matches (b'*' ∷ drop (st + 1) pat) (y ∷ drop (s.resume + 1) al) =
          λ d. rw (drop-get_elem? pat st es, drop-get_elem? al s.resume er) at d in
        let back : Matches (b'*' ∷ drop (st + 1) pat) (drop (s.resume + 1) al) → G =
          λ d. from (rw (drop-get_elem? pat st es, drop-get_elem? al s.resume er) (grow refl d)) in
        let grown : G → Matches (b'*' ∷ drop (st + 1) pat) (drop (s.resume + 1) al) = λ g.
          must_grow refl (at_star (to g))
            (λ d. no_match (down (rw (drop-get_elem? al s.resume er) d))) in
        let less : suc k - 1 ≡ k = omega arith in
        rw less (record {
          now = λ d. back (leave refl d);
          later = grown;
          saved = (
            es,
            λ g. rw (drop-get_elem? pat st es) (grown g),
            λ d. back (rw (drop-get_elem? pat st es) at d),
            λ d. d,
          );
          in_pattern = omega (arith, get_elem?-lt pat st es);
          order = omega arith;
          room = omega arith;
          fuel = omega (arith, get_elem?-lt pat st es);
        })

  abbrev Rounds : ℕ → Type 0
  Rounds f = (k : ℕ) (s : Cursor) → Inv f k s → Answers G (glob_loop f pat al s)

  -- The round that ends in a mismatch, with or without a star to go back to.
  backtrack-Answers :
      {f c : ℕ} (k : ℕ) (s : Cursor) (o : Option ℕ)
      → Rounds f
      → Inv (suc f) k s
      → Saved o s.resume s.p s.a
      → get_elem? al s.a ≡ some c
      → ¬ Matches (drop s.p pat) (drop s.a al)
      → Answers G
          (elim (backtrack o s.resume) [ again t ↦ glob_loop f pat al t | mismatch ↦ some false ])
  backtrack-Answers k s none ih i h ea no_match = λ g. no_match (h g)
  backtrack-Answers k s (some st) ih i h ea no_match =
      ih (k - 1) _ (Inv-backtrack s no_match k i h ea)

  -- A round at a byte of the alias, with a byte of the pattern or none.
  round-Answers :
      {f c : ℕ} (k : ℕ) (s : Cursor) (o : Option ℕ)
      → Rounds f
      → Inv (suc f) k s
      → get_elem? pat s.p ≡ o
      → get_elem? al s.a ≡ some c
      → c ≢ b'*'
      → Answers G (elim (round_at o c s) [ again t ↦ glob_loop f pat al t | mismatch ↦ some false ])
  round-Answers k s none ih i ep ea nc =
      backtrack-Answers k s s.star ih i i.saved ea
        λ d. elim (rw (drop_out_of_range pat s.p ep, drop-get_elem? al s.a ea) at d) [ ]
  round-Answers {f} {c} k s (some x) ih i ep ea nc = elim (Bool-cases (fits x c)) [
    | inl h ↦ rw (h, round_at) (ih k _ (Inv-fits s i ep ea nc h))
    | inr n ↦ elim (Bool-cases (x == b'*')) [
      | inl h ↦ rw (n, h, round_at) (ih k _ (Inv-star s i ep ((==_iff x b'*').0 h)))
      | inr h ↦ rw (n, h, round_at) (backtrack-Answers k s s.star ih i i.saved ea (misfit n h))
    ]
  ]
    where
      misfit : fits x c ≡ false → (x == b'*') ≡ false → ¬ Matches (drop s.p pat) (drop s.a al)
      misfit n h d = ground (
        arith,
        byte_inv (λ e. ground arith)
            (rw (drop-get_elem? pat s.p ep, drop-get_elem? al s.a ea) at d),
      )

  loop-Answers : LacksStar al → (f : ℕ) → Rounds f
  unfolding glob_loop
  loop-Answers lacks zero k s i = absurd (omega arith)
  loop-Answers lacks (suc f) k s i = elim (Option-cases (get_elem? al s.a)) [
    | inl e ↦
        rw (e, glob_loop)
          (Answers-of_iff _ (
            λ t. i.now (
                rw (drop_out_of_range al s.a e)
                  ((skip_stars_iff (length pat) pat s.p (omega arith) i.in_pattern).0 t)),
            λ g.
                (skip_stars_iff (length pat) pat s.p (omega arith) i.in_pattern).1
                  (end_inv (rw (drop_out_of_range al s.a e) at (i.later g))).1,
          ))
    | inr (c, e) ↦
        rw (e, glob_loop)
          (round-Answers k s (get_elem? pat s.p) (loop-Answers lacks f) i refl e
            (get_elem?-All (λ c. c ≢ b'*') al s.a lacks e))
  ]

-- Within its fuel the loop ends with the right answer.
pub run-Answers : (pat al : Text) → LacksStar al → Answers (Matches pat al) (glob_run pat al)
unfolding glob_run
run-Answers pat al lacks =
    loop-Answers (Matches pat al) pat al lacks (glob_fuel pat al) (length al) start (record {
      now = λ d. d;
      later = λ g. leave refl g;
      saved = λ g. g;
      in_pattern = omega arith;
      order = omega arith;
      room = omega arith;
      fuel = omega arith;
    })
