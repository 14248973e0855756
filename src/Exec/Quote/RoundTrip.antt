-- ===== src/Exec/Quote/RoundTrip.antt =====
-- What the remote shell reads out of a wrapped command.
use kimi_ssh.Base.{
  ℕ, true, ◌≡◌, ◌≢◌, refl, ap, ◌∙◌, inl, inr, some, [], ◌∷◌, ◌++◌, append_assoc, append-nil, arith,
  ◌==◌, ==_iff, All, Bool-cases,
}
use kimi_ssh.Base.Text.{Text, codes, apostrophe}
use kimi_ssh.Base.Decimal.{show_nat, show_nat-All, show_nat-ne-nil, is_digit}
use kimi_ssh.Base.Int.{ℤ}
use kimi_ssh.Exec.Deadline.{timeout_seconds}
use kimi_ssh.Exec.Quote.{escape_quotes, shell_quote, wrap_command}
use kimi_ssh.Exec.Quote.Shell.{gap, word, quoted, go, next, add_word, words_from, shell_words}

-- Within quotes, an escaped text is read as the text itself.
words_from_escaped :
    (text cur rest : Text)
    → words_from (quoted cur) (escape_quotes text ++ apostrophe ∷ rest)
      ≡ words_from (word (cur ++ text)) rest
unfolding escape_quotes words_from
words_from_escaped [] cur rest = rw append-nil
words_from_escaped (c ∷ text) cur rest = elim (Bool-cases (c == apostrophe)) [
  | inl e ↦
      rw (e, (==_iff c apostrophe).0 e)
        (words_from_escaped text (cur ++ apostrophe ∷ []) rest
          ∙ ap (λ w. words_from (word w) rest) (append_assoc cur (apostrophe ∷ []) text))
  | inr e ↦
      rw (e, words_from, e)
        (words_from_escaped text (cur ++ c ∷ []) rest
          ∙ ap (λ w. words_from (word w) rest) (append_assoc cur (c ∷ []) text))
]

-- A quoted text is one word, and the word is the text, whatever bytes it holds.
pub shell_words-shell_quote : (text : Text) → shell_words (shell_quote text) ≡ some (text ∷ [])
unfolding shell_words shell_quote
shell_words-shell_quote text = words_from_escaped text [] []

quoted_word : (text : Text) → words_from gap (shell_quote text) ≡ some (text ∷ [])
quoted_word text = unfold shell_words in shell_words-shell_quote text

digit_in_word :
    (c : ℕ) (cur : Text) → is_digit c ≡ true → next (word cur) c ≡ go (word (cur ++ c ∷ []))
unfolding is_digit
digit_in_word c cur h = ground arith

digit_in_gap : (c : ℕ) → is_digit c ≡ true → next gap c ≡ go (word (c ∷ []))
unfolding is_digit
digit_in_gap c h = ground arith

words_from_digits :
    (w cur rest : Text)
    → All (λ c. is_digit c ≡ true) w
    → words_from (word cur) (w ++ 32 ∷ rest) ≡ add_word (cur ++ w) (words_from gap rest)
unfolding words_from
words_from_digits [] cur rest h = rw append-nil
words_from_digits (c ∷ w) cur rest h =
    rw (words_from, digit_in_word c cur h.0)
      (words_from_digits w (cur ++ c ∷ []) rest h.1
        ∙ ap (λ v. add_word v (words_from gap rest)) (append_assoc cur (c ∷ []) w))

-- A decimal and the blank behind it.
words_from_number :
    (w rest : Text)
    → w ≢ []
    → All (λ c. is_digit c ≡ true) w
    → words_from gap (w ++ 32 ∷ rest) ≡ add_word w (words_from gap rest)
words_from_number [] rest n h = absurd (n refl)
words_from_number (c ∷ w) rest n h =
    unfold words_from in rw (words_from, digit_in_gap c h.0) (words_from_digits w (c ∷ []) rest h.1)

show_nat_five : show_nat 5 ≡ codes "5"
unfolding show_nat
show_nat_five = refl

wrap_command_lem :
    (command : Text) (timeout : ℤ)
    → wrap_command command timeout
      ≡ codes "timeout -k 5 "
        ++ (show_nat (timeout_seconds timeout) ++ 32 ∷ (codes "sh -c " ++ shell_quote command))
unfolding wrap_command
wrap_command_lem command timeout = rw show_nat_five

head_words :
    (rest : Text)
    → words_from gap (codes "timeout -k 5 " ++ rest)
      ≡ add_word
          (codes "timeout")
          (add_word (codes "-k") (add_word (codes "5") (words_from gap rest)))
unfolding words_from
head_words rest = refl

tail_words :
    (command : Text)
    → words_from gap (codes "sh -c " ++ shell_quote command)
      ≡ some (codes "sh" ∷ codes "-c" ∷ command ∷ [])
tail_words command =
    unfold words_from in
    ap (λ o. add_word (codes "sh") (add_word (codes "-c") o)) (quoted_word command)

-- The remote shell runs `timeout` with exactly these arguments: the kill-after time, the rounded
-- deadline, and `sh -c` with the command as it was given, whatever bytes it holds.
pub shell_words-wrap_command :
    (command : Text) (timeout : ℤ)
    → shell_words (wrap_command command timeout)
      ≡ some (
          codes "timeout"
          ∷ codes "-k"
          ∷ codes "5"
          ∷ show_nat (timeout_seconds timeout)
          ∷ codes "sh"
          ∷ codes "-c"
          ∷ command
          ∷ [])
unfolding shell_words
shell_words-wrap_command command timeout =
    ap (words_from gap) (wrap_command_lem command timeout)
    ∙ head_words
        (show_nat (timeout_seconds timeout) ++ 32 ∷ (codes "sh -c " ++ shell_quote command))
    ∙ ap (λ o. add_word (codes "timeout") (add_word (codes "-k") (add_word (codes "5") o)))
        (words_from_number (show_nat (timeout_seconds timeout))
            (codes "sh -c " ++ shell_quote command) (show_nat-ne-nil (timeout_seconds timeout))
            (show_nat-All (timeout_seconds timeout))
          ∙ ap (add_word (show_nat (timeout_seconds timeout))) (tail_words command))
