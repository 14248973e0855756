-- ===== src/Base/Text.antt =====
-- Go strings as lists of bytes, and what the program uses of the package `strings` on ASCII text.
pub mod Fields
use Prim.Native.Nat.{ℕ, zero, suc, ◌+◌, ◌-◌, ◌<◌, ◌≤◌}
use Prim.Native.Char.{code}
use Prim.Native.String.{String}
use mathlib.Core.Path.{◌≡◌, refl, ap, ap₂}
use mathlib.Core.Logic.{◌↔◌, ◌≢◌}
use mathlib.Core.Bool.{Bool, true, false, ◌&&◌, ◌||◌}
use mathlib.Core.List.{List, [], ◌∷◌, ◌++◌, map}
use native.Mathlib.Omega.{arith}
use kimi_ssh.Base.Tests.{ltb, leb, ◌==◌, ==_iff, if◌then◌else◌}
use kimi_ssh.Base.Lists.{length, drop, any}

abbrev pub Text : Type 0
Text = List ℕ

-- The code points of a literal: its bytes, as all of them are ASCII.
abbrev pub codes : String → Text
codes String.[] = []
codes (String.◌∷◌ c s) = code c ∷ codes s

abbrev pub apostrophe : ℕ
apostrophe = 39

unfoldable pub same_text : Text → Text → Bool
same_text [] [] = true
same_text (a ∷ s) (b ∷ t) = a == b && same_text s t
same_text _ _ = false

-- `strings.HasPrefix`, the prefix last.
unfoldable pub has_prefix : Text → Text → Bool
has_prefix s [] = true
has_prefix [] (b ∷ t) = false
has_prefix (a ∷ s) (b ∷ t) = a == b && has_prefix s t

-- `strings.HasSuffix`, the suffix last.
unfoldable pub has_suffix : Text → Text → Bool
unfolding same_text
has_suffix [] t = same_text [] t
has_suffix (a ∷ s) t = same_text (a ∷ s) t || has_suffix s t

-- `strings.Contains`, the part last.
unfoldable pub contains : Text → Text → Bool
unfolding has_prefix
contains [] t = has_prefix [] t
contains (a ∷ s) t = has_prefix (a ∷ s) t || contains s t

-- `strings.TrimPrefix`
unfoldable pub trim_prefix : Text → Text → Text
unfolding has_prefix
trim_prefix s t = if has_prefix s t then drop (length t) s else s

unfoldable pub lower_byte : ℕ → ℕ
lower_byte c = if leb b'A' c && leb c b'Z' then c + 32 else c

-- `strings.ToLower`
unfoldable pub to_lower : Text → Text
unfolding lower_byte
to_lower = map lower_byte

-- `strings.EqualFold`
unfoldable pub equal_fold : Text → Text → Bool
unfolding same_text to_lower
equal_fold s t = same_text (to_lower s) (to_lower t)

-- `strings.ContainsAny`, the set of bytes last.
unfoldable pub contains_any : Text → Text → Bool
contains_any s set = any (λ c. any (λ b. c == b) set) s

-- `strings.Join`
unfoldable pub join : List Text → Text → Text
join [] sep = []
join (p ∷ []) sep = p
join (p ∷ q ∷ ps) sep = p ++ (sep ++ join (q ∷ ps) sep)

pub same_text_iff : (s t : Text) → (same_text s t ≡ true) ↔ (s ≡ t)
unfolding same_text
same_text_iff [] [] = (λ h. refl, λ h. refl)
same_text_iff [] (b ∷ t) = (λ h. cc, λ h. cc)
same_text_iff (a ∷ s) [] = (λ h. cc, λ h. cc)
same_text_iff (a ∷ s) (b ∷ t) = ground (arith, same_text_iff s t)

pub same_text_self : (s : Text) → same_text s s ≡ true
same_text_self s = (same_text_iff s s).1 refl

pub lower_byte_idem : (c : ℕ) → lower_byte (lower_byte c) ≡ lower_byte c
unfolding lower_byte
lower_byte_idem c = ground arith

pub to_lower_idem : (s : Text) → to_lower (to_lower s) ≡ to_lower s
unfolding to_lower
to_lower_idem [] = refl
to_lower_idem (c ∷ s) = ap₂ ◌∷◌ (lower_byte_idem c) (to_lower_idem s)

pub length-to_lower : (s : Text) → length (to_lower s) ≡ length s
unfolding to_lower
length-to_lower [] = refl
length-to_lower (c ∷ s) = ap suc (length-to_lower s)

pub equal_fold_iff : (s t : Text) → (equal_fold s t ≡ true) ↔ (to_lower s ≡ to_lower t)
unfolding equal_fold
equal_fold_iff s t = same_text_iff (to_lower s) (to_lower t)

pub equal_fold_self : (s : Text) → equal_fold s s ≡ true
equal_fold_self s = (equal_fold_iff s s).1 refl

pub equal_fold_lem : (s t : Text) → equal_fold s t ≡ same_text (to_lower s) (to_lower t)
unfolding equal_fold
equal_fold_lem s t = refl
