-- ===== src/Base/Remove.antt =====
-- Taking one element out of a list by its position, and membership of a number.
use Prim.Native.Nat.{ℕ, zero, suc, ◌+◌}
use mathlib.Core.Path.{◌≡◌}
use mathlib.Core.Bool.{Bool, true}
use mathlib.Core.List.{List, [], ◌∷◌}
use mathlib.Core.Option.{some}
use native.Mathlib.Omega.{arith}
use kimi_ssh.Base.Tests.{◌==◌}
use kimi_ssh.Base.Lists.{length, get_elem?, any, All}

module _ {ℓ} {A : Type ℓ} where
  -- Out of range nothing is taken out.
  abbrev pub remove_at : ℕ → List A → List A
  remove_at i [] = []
  remove_at zero (x ∷ xs) = xs
  remove_at (suc i) (x ∷ xs) = x ∷ remove_at i xs

  pub length-remove_at :
      (i : ℕ) (xs : List A) {x : A}
      → get_elem? xs i ≡ some x
      → length (remove_at i xs) + 1 ≡ length xs
  length-remove_at i [] h = ground arith
  length-remove_at zero (y ∷ xs) h = omega arith
  length-remove_at (suc i) (y ∷ xs) h = omega (arith, length-remove_at i xs h)

module _ {ℓ κ} {A : Type ℓ} (P : A → Type κ) where
  pub remove_at-All : (i : ℕ) (xs : List A) → All P xs → All P (remove_at i xs)
  remove_at-All i [] h = tt
  remove_at-All zero (y ∷ xs) h = h.1
  remove_at-All (suc i) (y ∷ xs) h = (h.0, remove_at-All i xs h.1)

abbrev pub has_id : List ℕ → ℕ → Bool
has_id ids k = any (λ i. i == k) ids

-- A number that is in the list is the one that is taken out, or still there.
pub has_id-remove_at :
    (i k id : ℕ) (ids : List ℕ)
    → get_elem? ids i ≡ some id
    → has_id ids k ≡ true
    → has_id (id ∷ remove_at i ids) k ≡ true
has_id-remove_at i k id [] h m = ground arith
has_id-remove_at zero k id (x ∷ ids) h m = ground arith
has_id-remove_at (suc i) k id (x ∷ ids) h m = ground (arith, has_id-remove_at i k id ids h)
