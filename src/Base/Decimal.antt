-- ===== src/Base/Decimal.antt =====
-- `strconv.Atoi` and `strconv.ParseInt(s, 10, 64)`: an optional sign, digits, and the range of `int64`.
use Prim.Native.Nat.{ℕ, zero, suc, ◌+◌, ◌-◌, ◌*◌, ◌/◌, ◌%◌, ◌^◌}
use mathlib.Core.Bool.{Bool, true, ◌&&◌}
use mathlib.Core.Option.{Option, none, some}
use mathlib.Core.List.{[], ◌∷◌, ◌++◌, concat-ne-nil}
use mathlib.Core.Path.{◌≡◌}
use mathlib.Core.Logic.{inl, inr, ◌≢◌}
use native.Mathlib.Omega.{arith}
use kimi_ssh.Base.Lists.{All, All-append}
use kimi_ssh.Base.Tests.{ltb, leb, ◌==◌, if◌then◌else◌, Bool-cases}
use kimi_ssh.Base.Text.{Text}
use kimi_ssh.Base.Int.{ℤ, pos, negsuc}

unfoldable pub is_digit : ℕ → Bool
is_digit c = leb b'0' c && leb c b'9'

digits_from : ℕ → Text → Option ℕ
digits_from n [] = some n
digits_from n (c ∷ s) =
    let rest = digits_from (n * 10 + (c - b'0')) s in if is_digit c then rest else none

digits : Text → Option ℕ
digits [] = none
digits (c ∷ s) = digits_from 0 (c ∷ s)

positive : Option ℕ → Option ℤ
positive none = none
positive (some n) = if ltb n (2 ^ 63) then some (pos n) else none

negative : Option ℕ → Option ℤ
negative none = none
negative (some n) =
    if n == 0 then some (pos 0) else if leb n (2 ^ 63) then some (negsuc (n - 1)) else none

unfoldable pub parse_int : Text → Option ℤ
unfolding is_digit digits_from digits positive negative
parse_int [] = none
parse_int (c ∷ s) =
    if c == b'-'
    then negative (digits s)
    else if c == b'+'
    then positive (digits s)
    else positive (digits (c ∷ s))

show_digits : ℕ → ℕ → Text
show_digits zero n = []
show_digits (suc f) n =
    let front = show_digits f (n / 10) in
    if ltb n 10 then (n + b'0') ∷ [] else front ++ (n % 10 + b'0') ∷ []

-- `%d` of a number below 10^20, so of every `int64` that is not negative.
unfoldable pub show_nat : ℕ → Text
unfolding show_digits
show_nat n = show_digits 20 n

show_digits-All : (f n : ℕ) → All (λ c. is_digit c ≡ true) (show_digits f n)
unfolding show_digits is_digit
show_digits-All zero n = tt
show_digits-All (suc f) n = elim (Bool-cases (ltb n 10)) [
  | inl e ↦ rw e (ground arith, tt)
  | inr e ↦ rw e (
      All-append (λ c. is_digit c ≡ true) (show_digits f (n / 10)) _ (show_digits-All f (n / 10))
        (ground arith, tt))
]

pub show_nat-All : (n : ℕ) → All (λ c. is_digit c ≡ true) (show_nat n)
show_nat-All n = unfold show_nat in show_digits-All 20 n

pub show_nat-ne-nil : (n : ℕ) → show_nat n ≢ []
unfolding show_nat
show_nat-ne-nil n = elim (Bool-cases (ltb n 10)) [
  | inl e ↦ rw e (λ p. ground arith)
  | inr e ↦ rw e (concat-ne-nil (n % 10 + b'0') (show_digits 19 (n / 10)))
]
