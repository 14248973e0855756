-- ===== src/Config/Directive.antt =====
-- `splitDirective` of internal/ssh/config.go.
pub mod RoundTrip
use kimi_ssh.Base.{Bool, true, false, Option, none, some, List, [], ◌∷◌, if◌then◌else◌}
use kimi_ssh.Base.Text.{Text, codes, has_prefix, to_lower, join}
use kimi_ssh.Base.Text.Fields.{fields}
use kimi_ssh.Config.Block.{Setting}

abbrev pub is_comment : Text → Bool
is_comment token = has_prefix token (codes "#")

-- `fields[:end]`: the tokens in front of the first that begins a comment.
unfoldable pub until_comment : List Text → List Text
until_comment [] = []
until_comment (token ∷ rest) = if is_comment token then [] else token ∷ until_comment rest

-- A keyword and at least one token of a value, or nothing.
abbrev pub directive_of : List Text → Option Setting
directive_of [] = none
directive_of (token ∷ []) = none
directive_of (token ∷ first ∷ rest) =
    some (record { keyword = to_lower token; value = join (first ∷ rest) (codes " ") })

unfoldable pub split_directive : Text → Option Setting
unfolding until_comment fields to_lower join has_prefix
split_directive line = directive_of (until_comment (fields line))
