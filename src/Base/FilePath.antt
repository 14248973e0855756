-- ===== src/Base/FilePath.antt =====
-- What the program uses of the package `path/filepath`, on Unix: Clean, Join and IsAbs.
use Prim.Native.Nat.{ℕ}
use mathlib.Core.Bool.{Bool, true, false, ◌||◌, ◌&&◌, not}
use mathlib.Core.List.{List, [], ◌∷◌, ◌++◌, reverse, append-nil, append_assoc}
use mathlib.Core.Path.{◌≡◌}
use mathlib.Core.Logic.{◌≢◌}
use native.Mathlib.Omega.{arith}
use kimi_ssh.Base.Lists.{All}
use kimi_ssh.Base.Tests.{◌==◌, if◌then◌else◌}
use kimi_ssh.Base.Text.{Text, codes, same_text, has_prefix, join}

-- `strings.Split` by one byte: never the empty list.
cut : ℕ → Text → Text → List Text
cut sep cur [] = cur ∷ []
cut sep cur (c ∷ s) = elim (c == sep) [
  | true ↦ cur ∷ cut sep [] s
  | false ↦ cut sep (cur ++ c ∷ []) s
]

unfoldable pub split : Text → ℕ → List Text
unfolding cut
split s sep = cut sep [] s

cut-Lacks : (sep : ℕ) (cur s : Text) → All (λ c. c ≢ sep) s → cut sep cur s ≡ (cur ++ s) ∷ []
unfolding cut
cut-Lacks sep cur [] h = rw append-nil
cut-Lacks sep cur (c ∷ s) h =
    ground (arith, cut-Lacks sep (cur ++ c ∷ []) s h.1, append_assoc cur (c ∷ []) s, h.0)

-- A text without the separator is one part.
pub split-Lacks : (s : Text) (sep : ℕ) → All (λ c. c ≢ sep) s → split s sep ≡ s ∷ []
unfolding split
split-Lacks s sep h = cut-Lacks sep [] s h

unfoldable pub is_abs : Text → Bool
unfolding has_prefix
is_abs path = has_prefix path (codes "/")

-- The components kept so far, the last one first; `..` takes the last one back where it can.
clean_step : Bool → List Text → Text → List Text
clean_step rooted [] part =
    if same_text part [] || same_text part (codes ".") || rooted && same_text part (codes "..")
    then []
    else part ∷ []
clean_step rooted (last ∷ kept) part =
    if same_text part [] || same_text part (codes ".")
    then last ∷ kept
    else if same_text part (codes "..") && not (same_text last (codes ".."))
    then kept
    else part ∷ last ∷ kept

clean_parts : Bool → List Text → List Text → List Text
clean_parts rooted kept [] = reverse kept
clean_parts rooted kept (part ∷ parts) = clean_parts rooted (clean_step rooted kept part) parts

-- `filepath.Clean`
unfoldable pub clean : Text → Text
unfolding split is_abs clean_parts clean_step join same_text
clean path =
    let out =
      (if is_abs path then codes "/" else [])
      ++ join (clean_parts (is_abs path) [] (split path b'/')) (codes "/") in
    if same_text out [] then codes "." else out

-- `filepath.Join`
unfoldable pub path_join : List Text → Text
unfolding clean
path_join [] = []
path_join ([] ∷ parts) = path_join parts
path_join ((c ∷ s) ∷ parts) = clean (join ((c ∷ s) ∷ parts) (codes "/"))
