-- ===== src/Exec/Quote/Shell.antt =====
-- How a POSIX shell takes a line apart into words: blanks between words, a backslash before one byte,
-- and single quotes, within which every byte stands for itself. On any other byte that a shell might
-- read in a way of its own (expansions, operators, comments) the reader gives up.
use kimi_ssh.Base.{ℕ, Bool, ◌||◌, Option, none, some, List, [], ◌∷◌, ◌++◌, ◌==◌, if◌then◌else◌, any}
use kimi_ssh.Base.Text.{Text, codes, apostrophe}

-- Between words, in a word, within single quotes, or behind a backslash.
pub data Mode : Type 0 where
  gap : Mode
  word quoted escaped : Text → Mode

pub data Next : Type 0 where
  go : Mode → Next
  end_word : Text → Next
  give_up : Next

abbrev pub is_blank : ℕ → Bool
is_blank c = c == 32 || c == 9

abbrev pub is_special : ℕ → Bool
is_special c = c == 10 || any (λ b. c == b) (codes "$`\"*?[]#~&;|<>(){}!")

abbrev pub word_byte : Text → ℕ → Next
word_byte cur c =
    if c == apostrophe
    then go (quoted cur)
    else if c == 92
    then go (escaped cur)
    else if is_special c
    then give_up
    else go (word (cur ++ c ∷ []))

abbrev pub next : Mode → ℕ → Next
next gap c = if is_blank c then go gap else word_byte [] c
next (word cur) c = if is_blank c then end_word cur else word_byte cur c
next (quoted cur) c = if c == apostrophe then go (word cur) else go (quoted (cur ++ c ∷ []))
next (escaped cur) c = if c == 10 then go (word cur) else go (word (cur ++ c ∷ []))

abbrev pub finish : Mode → Option (List Text)
finish gap = some []
finish (word cur) = some (cur ∷ [])
finish _ = none

abbrev pub add_word : Text → Option (List Text) → Option (List Text)
add_word w none = none
add_word w (some ws) = some (w ∷ ws)

unfoldable pub words_from : Mode → Text → Option (List Text)
words_from m [] = finish m
words_from m (c ∷ s) = elim (next m c) [
  | go n ↦ words_from n s
  | end_word w ↦ add_word w (words_from gap s)
  | give_up ↦ none
]

-- The words of a line, or nothing where the reader gave up or a quote stayed open.
unfoldable pub shell_words : Text → Option (List Text)
unfolding words_from
shell_words = words_from gap
