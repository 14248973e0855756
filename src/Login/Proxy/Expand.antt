-- ===== src/Login/Proxy/Expand.antt =====
-- The replacer against the parts that a command is written from.
use kimi_ssh.Base.{ℕ, ◌≡◌, ◌≢◌, refl, ap, ◌∙◌, none, List, [], ◌∷◌, ◌++◌, All, arith}
use kimi_ssh.Base.Text.{Text}
use kimi_ssh.Login.Proxy.{Values, value_of, expand}

-- A byte other than `%`, or one of the four verbs.
pub data Piece : Type 0 where
  byte : ℕ → Piece
  verb_h verb_n verb_p verb_r : Piece

abbrev pub spell : List Piece → Text
spell [] = []
spell (byte c ∷ ps) = c ∷ spell ps
spell (verb_h ∷ ps) = b'%' ∷ b'h' ∷ spell ps
spell (verb_n ∷ ps) = b'%' ∷ b'n' ∷ spell ps
spell (verb_p ∷ ps) = b'%' ∷ b'p' ∷ spell ps
spell (verb_r ∷ ps) = b'%' ∷ b'r' ∷ spell ps

abbrev pub mean : Values → List Piece → Text
mean v [] = []
mean v (byte c ∷ ps) = c ∷ mean v ps
mean v (verb_h ∷ ps) = v.hostname ++ mean v ps
mean v (verb_n ∷ ps) = v.hostname ++ mean v ps
mean v (verb_p ∷ ps) = v.port ++ mean v ps
mean v (verb_r ∷ ps) = v.user ++ mean v ps

abbrev pub IsPlain : Piece → Type 0
IsPlain (byte c) = c ≢ b'%'
IsPlain _ = Unit

plain_value : (v : Values) (c d : ℕ) → c ≢ b'%' → value_of v c d ≡ none
plain_value v c d n = ground arith

expand_plain : (v : Values) (c : ℕ) (s : Text) → c ≢ b'%' → expand v (c ∷ s) ≡ c ∷ expand v s
unfolding expand
expand_plain v c [] n = refl
expand_plain v c (d ∷ s) n = rw (plain_value v c d n, expand) refl

-- A proxy command that is spelled from bytes other than `%` and the four verbs expands to these
-- bytes, with each verb replaced by its value, the hostname for `%n` too, and with nothing
-- replaced inside of a value.
pub expand-spell : (v : Values) (ps : List Piece) → All IsPlain ps → expand v (spell ps) ≡ mean v ps
unfolding expand
expand-spell v [] h = refl
expand-spell v (byte c ∷ ps) h =
    expand_plain v c (spell ps) h.0 ∙ ap (λ s. c ∷ s) (expand-spell v ps h.1)
expand-spell v (verb_h ∷ ps) h = ap (λ s. v.hostname ++ s) (expand-spell v ps h.1)
expand-spell v (verb_n ∷ ps) h = ap (λ s. v.hostname ++ s) (expand-spell v ps h.1)
expand-spell v (verb_p ∷ ps) h = ap (λ s. v.port ++ s) (expand-spell v ps h.1)
expand-spell v (verb_r ∷ ps) h = ap (λ s. v.user ++ s) (expand-spell v ps h.1)
