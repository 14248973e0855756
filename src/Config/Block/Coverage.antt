-- ===== src/Config/Block/Coverage.antt =====
-- Which aliases a `Host` line covers, and which patterns name one alias.
use kimi_ssh.Base.{
  Bool, true, false, ◌||◌, ◌&&◌, not, ◌≡◌, ◌≢◌, inl, inr, some, List, [], ◌∷◌, arith, any,
  Bool-cases,
}
use kimi_ssh.Base.Text.{Text, codes, same_text, same_text_iff, trim_prefix, contains_any}
use kimi_ssh.Config.Glob.{glob_match}
use kimi_ssh.Config.Glob.Correct.{LacksStar}
use kimi_ssh.Config.Block.{HostBlock, is_negated, applies_loop, applies_to, literal_alias}

-- A pattern that names the alias, and one that rules it out.
abbrev pub names : Text → Text → Bool
names al pattern = not (is_negated pattern) && glob_match pattern al

abbrev pub excludes : Text → Text → Bool
excludes al pattern = is_negated pattern && glob_match (trim_prefix pattern (codes "!")) al

applies_loop_lem :
    (al : Text) (matched : Bool) (ps : List Text)
    → applies_loop al matched ps ≡ ((matched || any (names al) ps) && not (any (excludes al) ps))
unfolding applies_loop
applies_loop_lem al matched [] = ground arith
applies_loop_lem al matched (p ∷ ps) =
    ground (arith, applies_loop_lem al matched ps, applies_loop_lem al true ps)

-- A block applies to an alias exactly when some pattern without `!` matches it and no pattern
-- behind a `!` does, wherever on the line the patterns stand.
pub applies_to_lem :
    (b : HostBlock) (al : Text)
    → applies_to b al ≡ (any (names al) b.patterns && not (any (excludes al) b.patterns))
unfolding applies_to
applies_to_lem b al = applies_loop_lem al false b.patterns

LacksStar-of_plain : (s : Text) → contains_any s (codes "*?") ≡ false → LacksStar s
unfolding contains_any
LacksStar-of_plain [] h = tt
LacksStar-of_plain (c ∷ s) h = (λ e. ground arith, LacksStar-of_plain s (ground arith))

-- The alias of a literal pattern is the pattern itself: it is not empty, is not negated, and holds
-- no `*`, so that a match against it is decided rightly.
pub literal_alias-LacksStar :
    (pattern al : Text)
    → literal_alias pattern ≡ some al
    → (al ≡ pattern) × LacksStar al × (al ≢ []) × (is_negated al ≡ false)
unfolding literal_alias
literal_alias-LacksStar pattern al h = elim (Bool-cases (same_text pattern [])) [
  | inl e ↦ ground arith
  | inr ne ↦ elim (Bool-cases (is_negated pattern)) [
    | inl e ↦ ground arith
    | inr plain ↦ elim (Bool-cases (contains_any pattern (codes "*?"))) [
      | inl e ↦ ground arith
      | inr lacks ↦
          let e : al ≡ pattern = ground arith in
          (
            e,
            rw e (LacksStar-of_plain pattern lacks),
            λ z. ground (arith, same_text_iff pattern []),
            rw e plain,
          )
    ]
  ]
]
