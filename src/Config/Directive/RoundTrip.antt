-- ===== src/Config/Directive/RoundTrip.antt =====
-- `splitDirective` on a line that was written from its tokens.
use kimi_ssh.Base.{true, false, ◌≡◌, refl, ap, ◌∙◌, some, List, [], ◌∷◌, ◌++◌, All, All-append}
use kimi_ssh.Base.Text.{Text, codes, to_lower, join}
use kimi_ssh.Base.Text.Fields.{fields, is_space, fields-join, IsWord, IsBlank}
use kimi_ssh.Config.Directive.{is_comment, until_comment, directive_of, split_directive}

-- No tokens, or tokens of which the first begins a comment.
abbrev pub IsComment : List Text → Type 0
IsComment [] = Unit
IsComment (token ∷ rest) = is_comment token ≡ true

until_comment-append :
    (ts cs : List Text)
    → All (λ t. is_comment t ≡ false) ts
    → IsComment cs
    → until_comment (ts ++ cs) ≡ ts
unfolding until_comment
until_comment-append [] [] h k = refl
until_comment-append [] (c ∷ cs) h k = rw k
until_comment-append (t ∷ ts) cs h k = rw h.0 (ap (◌∷◌ t) (until_comment-append ts cs h.1 k))

split_directive_lem :
    (line : Text) → split_directive line ≡ directive_of (until_comment (fields line))
unfolding split_directive
split_directive_lem line = refl

-- A line of an indent, a keyword, a value of one or more words and perhaps a comment, a blank
-- between them, gives back the keyword in lower case and the value, and drops the comment.
pub split_directive_line :
    (indent keyword first : Text) (rest comment : List Text)
    → IsBlank indent
    → All IsWord (keyword ∷ first ∷ rest)
    → All (λ t. is_comment t ≡ false) (keyword ∷ first ∷ rest)
    → All IsWord comment
    → IsComment comment
    → split_directive (indent ++ join ((keyword ∷ first ∷ rest) ++ comment) (codes " "))
      ≡ some (record { keyword = to_lower keyword; value = join (first ∷ rest) (codes " ") })
split_directive_line indent keyword first rest comment hi hw hc hcw hcc =
    split_directive_lem _
    ∙ ap (λ ts. directive_of (until_comment ts)) words
    ∙ ap directive_of (until_comment-append (keyword ∷ first ∷ rest) comment hc hcc)
  where
    words :
        fields (indent ++ join ((keyword ∷ first ∷ rest) ++ comment) (codes " "))
        ≡ (keyword ∷ first ∷ rest) ++ comment
    words =
        fields-join indent b' ' ((keyword ∷ first ∷ rest) ++ comment) hi (unfold is_space in refl)
          (All-append IsWord (keyword ∷ first ∷ rest) comment hw hcw)
