-- ===== src/Config/Block.antt =====
-- `setting`, `hostBlock`, `appliesTo` and `literalAlias` of internal/ssh/config.go.
pub mod Coverage
use kimi_ssh.Base.{ℕ, Bool, true, false, ◌||◌, Option, none, some, List, [], ◌∷◌, if◌then◌else◌}
use kimi_ssh.Base.Text.{Text, codes, same_text, has_prefix, trim_prefix, contains_any}
use kimi_ssh.Config.Glob.{glob_match}

pub record Setting : Type 0 where
  pub keyword : Text
  pub value : Text

pub record HostBlock : Type 0 where
  pub patterns : List Text
  pub directives : List Setting

abbrev pub is_negated : Text → Bool
is_negated pattern = has_prefix pattern (codes "!")

-- The loop of `appliesTo`, at the value that `matched` has.
unfoldable pub applies_loop : Text → Bool → List Text → Bool
applies_loop al matched [] = matched
applies_loop al matched (pattern ∷ rest) = elim (is_negated pattern) [
  | true ↦ elim (glob_match (trim_prefix pattern (codes "!")) al) [
    | true ↦ false
    | false ↦ applies_loop al matched rest
  ]
  | false ↦ applies_loop al (if glob_match pattern al then true else matched) rest
]

unfoldable pub applies_to : HostBlock → Text → Bool
unfolding applies_loop
applies_to b al = applies_loop al false b.patterns

unfoldable pub literal_alias : Text → Option Text
literal_alias pattern =
    if same_text pattern [] || is_negated pattern
    then none
    else if contains_any pattern (codes "*?")
    then none
    else some pattern
