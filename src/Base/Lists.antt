-- ===== src/Base/Lists.antt =====
-- Lists measured and indexed by native numbers, and predicates on their members.
use Prim.Native.Nat.{ℕ, zero, suc, ◌+◌, ◌<◌, ◌≤◌, min}
use mathlib.Core.Path.{◌≡◌, refl, ap}
use mathlib.Core.Logic.{◌≢◌, ◌⊎◌, inl, inr}
use mathlib.Core.Bool.{Bool, false, ◌||◌}
use mathlib.Core.List.{List, [], ◌∷◌, ◌++◌}
use mathlib.Core.Option.{Option, none, some}
use native.Mathlib.Omega.{arith}
use native.Mathlib.Numerals.{add-one}
use mathlib.Core.Option.{some-injective}
use mathlib.Core.Path.{subst}

module _ {ℓ} {A : Type ℓ} where
  abbrev pub length : List A → ℕ
  length [] = 0
  length (x ∷ xs) = suc (length xs)

  abbrev pub get_elem? : List A → ℕ → Option A
  get_elem? [] i = none
  get_elem? (x ∷ xs) zero = some x
  get_elem? (x ∷ xs) (suc i) = get_elem? xs i

  abbrev pub take : ℕ → List A → List A
  take zero xs = []
  take (suc n) [] = []
  take (suc n) (x ∷ xs) = x ∷ take n xs

  abbrev pub drop : ℕ → List A → List A
  drop zero xs = xs
  drop (suc n) [] = []
  drop (suc n) (x ∷ xs) = drop n xs

  pub length-append : (xs ys : List A) → length (xs ++ ys) ≡ length xs + length ys
  length-append [] ys = omega arith
  length-append (x ∷ xs) ys = omega (arith, length-append xs ys)

  pub length-take : (n : ℕ) (xs : List A) → length (take n xs) ≡ min n (length xs)
  length-take zero xs = omega arith
  length-take (suc n) [] = omega arith
  length-take (suc n) (x ∷ xs) = omega (arith, length-take n xs)

  drop-get_elem?-suc :
      (xs : List A) (i : ℕ) {x : A} → get_elem? xs i ≡ some x → drop i xs ≡ x ∷ drop (suc i) xs
  drop-get_elem?-suc [] i h = ground arith
  drop-get_elem?-suc (y ∷ xs) zero h = ground arith
  drop-get_elem?-suc (y ∷ xs) (suc i) h = drop-get_elem?-suc xs i h

  -- An index in range names the head of what is left from there.
  pub drop-get_elem? :
      (xs : List A) (i : ℕ) {x : A} → get_elem? xs i ≡ some x → drop i xs ≡ x ∷ drop (i + 1) xs
  drop-get_elem? xs i h = rw add-one (drop-get_elem?-suc xs i h)

  pub get_elem?-lt : (xs : List A) (i : ℕ) {x : A} → get_elem? xs i ≡ some x → i < length xs
  get_elem?-lt [] i h = ground arith
  get_elem?-lt (y ∷ xs) zero h = omega arith
  get_elem?-lt (y ∷ xs) (suc i) h = omega (arith, get_elem?-lt xs i h)

  pub get_elem?_in_range :
      (xs : List A) (i : ℕ) → i < length xs → (x : A) × (get_elem? xs i ≡ some x)
  get_elem?_in_range [] i h = absurd (omega arith)
  get_elem?_in_range (y ∷ xs) zero h = (y, refl)
  get_elem?_in_range (y ∷ xs) (suc i) h = get_elem?_in_range xs i (omega arith)

  pub drop_out_of_range : (xs : List A) (i : ℕ) → get_elem? xs i ≡ none → drop i xs ≡ []
  drop_out_of_range [] zero h = refl
  drop_out_of_range [] (suc i) h = refl
  drop_out_of_range (y ∷ xs) zero h = ground arith
  drop_out_of_range (y ∷ xs) (suc i) h = drop_out_of_range xs i h

  pub drop_all : (xs : List A) (i : ℕ) → length xs ≤ i → drop i xs ≡ []
  drop_all [] zero h = refl
  drop_all [] (suc i) h = refl
  drop_all (y ∷ xs) zero h = absurd (omega arith)
  drop_all (y ∷ xs) (suc i) h = drop_all xs i (omega arith)

  pub le_of_out_of_range : (xs : List A) (i : ℕ) → get_elem? xs i ≡ none → length xs ≤ i
  le_of_out_of_range [] i h = omega arith
  le_of_out_of_range (y ∷ xs) zero h = ground arith
  le_of_out_of_range (y ∷ xs) (suc i) h = omega (arith, le_of_out_of_range xs i h)

module _ {ℓ κ} {A : Type ℓ} (P : A → Type κ) where
  abbrev pub All : List A → Type κ
  All [] = Unit
  All (x ∷ xs) = P x × All xs

  pub All-append : (xs ys : List A) → All xs → All ys → All (xs ++ ys)
  All-append [] ys hx hy = hy
  All-append (x ∷ xs) ys hx hy = (hx.0, All-append xs ys hx.1 hy)

  pub get_elem?-All : (xs : List A) (i : ℕ) {x : A} → All xs → get_elem? xs i ≡ some x → P x
  get_elem?-All [] i h e = ground arith
  get_elem?-All (y ∷ xs) zero h e = subst P (some-injective y _ e) h.0
  get_elem?-All (y ∷ xs) (suc i) h e = get_elem?-All xs i h.1 e

module _ {ℓ} {A : Type ℓ} where
  abbrev pub any : (A → Bool) → List A → Bool
  any p [] = false
  any p (x ∷ xs) = p x || any p xs

  pub any-append : (p : A → Bool) (xs ys : List A) → any p (xs ++ ys) ≡ (any p xs || any p ys)
  any-append p [] ys = refl
  any-append p (x ∷ xs) ys = ground (arith, any-append p xs ys)

module _ {ℓ} {A : Type ℓ} where
  -- A write through an index; out of range it changes nothing.
  abbrev pub modify : (A → A) → ℕ → List A → List A
  modify f i [] = []
  modify f zero (x ∷ xs) = f x ∷ xs
  modify f (suc i) (x ∷ xs) = x ∷ modify f i xs

  pub length-modify : (f : A → A) (i : ℕ) (xs : List A) → length (modify f i xs) ≡ length xs
  length-modify f i [] = refl
  length-modify f zero (x ∷ xs) = refl
  length-modify f (suc i) (x ∷ xs) = ap suc (length-modify f i xs)

  pub get_elem?-modify_self :
      (f : A → A) (i : ℕ) (xs : List A) {x : A}
      → get_elem? xs i ≡ some x
      → get_elem? (modify f i xs) i ≡ some (f x)
  get_elem?-modify_self f i [] h = ground arith
  get_elem?-modify_self f zero (y ∷ xs) h = ground arith
  get_elem?-modify_self f (suc i) (y ∷ xs) h = get_elem?-modify_self f i xs h

  pub get_elem?-modify_ne :
      (f : A → A) (i j : ℕ) (xs : List A) → i ≢ j → get_elem? (modify f i xs) j ≡ get_elem? xs j
  get_elem?-modify_ne f i j [] h = refl
  get_elem?-modify_ne f zero zero (x ∷ xs) h = absurd (h refl)
  get_elem?-modify_ne f zero (suc j) (x ∷ xs) h = refl
  get_elem?-modify_ne f (suc i) zero (x ∷ xs) h = refl
  get_elem?-modify_ne f (suc i) (suc j) (x ∷ xs) h =
      get_elem?-modify_ne f i j xs (λ e. h (ap suc e))

  pub get_elem?-append_old :
      (xs ys : List A) (i : ℕ) → i < length xs → get_elem? (xs ++ ys) i ≡ get_elem? xs i
  get_elem?-append_old [] ys i h = absurd (omega arith)
  get_elem?-append_old (x ∷ xs) ys zero h = refl
  get_elem?-append_old (x ∷ xs) ys (suc i) h = get_elem?-append_old xs ys i (omega arith)

  pub get_elem?-append_new : (xs : List A) (x : A) → get_elem? (xs ++ x ∷ []) (length xs) ≡ some x
  get_elem?-append_new [] x = refl
  get_elem?-append_new (y ∷ xs) x = get_elem?-append_new xs x

  -- Where an element of a list that grew by one stands.
  pub get_elem?-append_cases :
      (xs : List A) (y x : A) (i : ℕ)
      → get_elem? (xs ++ y ∷ []) i ≡ some x
      → (get_elem? xs i ≡ some x) ⊎ ((i ≡ length xs) × (y ≡ x))
  get_elem?-append_cases [] y x zero h = inr (refl, ground arith)
  get_elem?-append_cases [] y x (suc i) h = ground arith
  get_elem?-append_cases (z ∷ xs) y x zero h = inl h
  get_elem?-append_cases (z ∷ xs) y x (suc i) h = elim (get_elem?-append_cases xs y x i h) [
    | inl e ↦ inl e
    | inr (e, f) ↦ inr (ap suc e, f)
  ]

  -- An element of a list after one of them was written.
  pub get_elem?-modify_old :
      (f : A → A) (i j : ℕ) (xs : List A) (x : A)
      → get_elem? (modify f i xs) j ≡ some x
      → (y : A) × (get_elem? xs j ≡ some y) × (((i ≡ j) × (f y ≡ x)) ⊎ (y ≡ x))
  get_elem?-modify_old f i j [] x h = ground arith
  get_elem?-modify_old f zero zero (y ∷ xs) x h = (y, refl, inl (refl, ground arith))
  get_elem?-modify_old f zero (suc j) (y ∷ xs) x h = (x, h, inr refl)
  get_elem?-modify_old f (suc i) zero (y ∷ xs) x h = (x, h, inr refl)
  get_elem?-modify_old f (suc i) (suc j) (y ∷ xs) x h =
      let (z, p, q) = get_elem?-modify_old f i j xs x h in
      (z, p, elim q [ inl (e, r) ↦ inl (ap suc e, r) | inr r ↦ inr r ])

  pub get_elem?-modify_cases :
      (f : A → A) (i j : ℕ) (xs : List A) (x : A)
      → get_elem? (modify f i xs) j ≡ some x
      → ((i ≡ j) × (y : A) × (f y ≡ x)) ⊎ ((i ≢ j) × (get_elem? xs j ≡ some x))
  get_elem?-modify_cases f i j [] x h = ground arith
  get_elem?-modify_cases f zero zero (y ∷ xs) x h = inl (refl, y, ground arith)
  get_elem?-modify_cases f zero (suc j) (y ∷ xs) x h = inr (λ e. ground arith, h)
  get_elem?-modify_cases f (suc i) zero (y ∷ xs) x h = inr (λ e. ground arith, h)
  get_elem?-modify_cases f (suc i) (suc j) (y ∷ xs) x h =
      elim (get_elem?-modify_cases f i j xs x h) [
        | inl (e, z, p) ↦ inl (ap suc e, z, p)
        | inr (n, p) ↦ inr (λ e. n (omega arith), p)
      ]
