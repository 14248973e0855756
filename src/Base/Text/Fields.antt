-- ===== src/Base/Text/Fields.antt =====
-- `strings.Fields` on ASCII text, and its inverse on words without blanks.
use Prim.Native.Nat.{ℕ}
use mathlib.Core.Path.{◌≡◌, refl, ap}
use mathlib.Core.Logic.{◌≢◌}
use mathlib.Core.Bool.{Bool, true, false, ◌&&◌, ◌||◌}
use mathlib.Core.List.{List, [], ◌∷◌, ◌++◌, append_assoc, append-nil}
use kimi_ssh.Base.Tests.{leb, ◌==◌, if◌then◌else◌}
use kimi_ssh.Base.Lists.{All}
use kimi_ssh.Base.Text.{Text, join}

-- Tab, line feed, vertical tab, form feed, carriage return and space.
unfoldable pub is_space : ℕ → Bool
is_space c = c == 32 || leb 9 c && leb c 13

-- The word that is being read, if it is not empty.
abbrev flush : Text → List Text
flush [] = []
flush (c ∷ cur) = (c ∷ cur) ∷ []

scan : Text → Text → List Text
scan cur [] = flush cur
scan cur (c ∷ s) = elim (is_space c) [
  | true ↦ flush cur ++ scan [] s
  | false ↦ scan (cur ++ c ∷ []) s
]

-- `strings.Fields`
unfoldable pub fields : Text → List Text
unfolding scan is_space
fields = scan []

-- `strings.TrimSpace`: what stands from the first byte that is no blank to the last.
unfoldable pub trim_left : Text → Text
unfolding is_space
trim_left [] = []
trim_left (c ∷ s) = if is_space c then trim_left s else c ∷ s

drop_blank_end : Text → Text
drop_blank_end [] = []
drop_blank_end (c ∷ s) = elim (drop_blank_end s) [
  | [] ↦ (if is_space c then [] else c ∷ [])
  | d ∷ r ↦ c ∷ d ∷ r
]

unfoldable pub trim_space : Text → Text
unfolding trim_left drop_blank_end is_space
trim_space s = drop_blank_end (trim_left s)

abbrev pub IsWord : Text → Type 0
IsWord w = (w ≢ []) × All (λ c. is_space c ≡ false) w

abbrev pub IsBlank : Text → Type 0
IsBlank = All (λ c. is_space c ≡ true)

-- Reading on in the middle of a word.
scan-append :
    (w cur rest : Text)
    → All (λ c. is_space c ≡ false) w
    → scan cur (w ++ rest) ≡ scan (cur ++ w) rest
unfolding scan
scan-append [] cur rest h = rw append-nil
scan-append (c ∷ w) cur rest h =
    rw (h.0, scan) (rw (scan-append w (cur ++ c ∷ []) rest h.1, append_assoc))

-- A word and the blank behind it.
scan_word :
    (w : Text) (c : ℕ) (rest : Text)
    → IsWord w
    → is_space c ≡ true
    → scan [] (w ++ c ∷ rest) ≡ w ∷ scan [] rest
scan_word [] c rest h b = absurd (h.0 refl)
scan_word (x ∷ w) c rest h b =
    rw (scan-append (x ∷ w) [] (c ∷ rest) h.1) (unfold scan in rw (b, scan))

scan_last : (w : Text) → IsWord w → scan [] w ≡ w ∷ []
scan_last [] h = absurd (h.0 refl)
scan_last (x ∷ w) h =
    rw (← append-nil (x ∷ w)) (rw (scan-append (x ∷ w) [] [] h.1) (unfold scan in rw append-nil))

scan_blanks : (b s : Text) → IsBlank b → scan [] (b ++ s) ≡ scan [] s
unfolding scan
scan_blanks [] s h = refl
scan_blanks (c ∷ b) s h = rw (h.0, scan) (scan_blanks b s h.1)

scan-join :
    (c : ℕ) (ws : List Text) → is_space c ≡ true → All IsWord ws → scan [] (join ws (c ∷ [])) ≡ ws
unfolding join
scan-join c [] hc h = unfold scan in refl
scan-join c (w ∷ []) hc h = scan_last w h.0
scan-join c (w ∷ v ∷ ws) hc h =
    rw (scan_word w c (join (v ∷ ws) (c ∷ [])) h.0 hc) (ap (◌∷◌ w) (scan-join c (v ∷ ws) hc h.1))

-- Words behind any indent, joined by one blank byte, are the fields of the text.
pub fields-join :
    (indent : Text) (c : ℕ) (ws : List Text)
    → IsBlank indent
    → is_space c ≡ true
    → All IsWord ws
    → fields (indent ++ join ws (c ∷ [])) ≡ ws
unfolding fields
fields-join indent c ws hi hc hw = rw (scan_blanks indent _ hi) (scan-join c ws hc hw)
