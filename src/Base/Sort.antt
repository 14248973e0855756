-- ===== src/Base/Sort.antt =====
-- `sort.Strings`: texts in the order of their bytes. Any correct sort gives the same list, since texts
-- that are equal in this order are equal; insertion is the one written here.
use mathlib.Core.Path.{◌≡◌, refl}
use mathlib.Core.Logic.{inl, inr}
use mathlib.Core.Bool.{Bool, true, false, ◌&&◌, ◌||◌}
use mathlib.Core.List.{List, [], ◌∷◌, Perm}
use mathlib.Core.List.Perm
use native.Mathlib.Omega.{arith}
use kimi_ssh.Base.Tests.{ltb, ◌==◌, if◌then◌else◌, Bool-cases}
use kimi_ssh.Base.Text.{Text}

-- `s <= t`
unfoldable pub text_le : Text → Text → Bool
text_le [] t = true
text_le (a ∷ s) [] = false
text_le (a ∷ s) (b ∷ t) = ltb a b || a == b && text_le s t

unfoldable pub insert_sorted : Text → List Text → List Text
unfolding text_le
insert_sorted x [] = x ∷ []
insert_sorted x (y ∷ ys) = if text_le x y then x ∷ y ∷ ys else y ∷ insert_sorted x ys

unfoldable pub sort_texts : List Text → List Text
unfolding insert_sorted
sort_texts [] = []
sort_texts (x ∷ xs) = insert_sorted x (sort_texts xs)

pub text_le_total : (s t : Text) → text_le s t ≡ false → text_le t s ≡ true
unfolding text_le
text_le_total [] t h = ground arith
text_le_total (a ∷ s) [] h = refl
text_le_total (a ∷ s) (b ∷ t) h = ground (arith, text_le_total s t)

pub text_le_trans : (s t u : Text) → text_le s t ≡ true → text_le t u ≡ true → text_le s u ≡ true
unfolding text_le
text_le_trans [] t u h k = refl
text_le_trans (a ∷ s) [] u h k = ground arith
text_le_trans (a ∷ s) (b ∷ t) [] h k = ground arith
text_le_trans (a ∷ s) (b ∷ t) (c ∷ u) h k = ground (arith, text_le_trans s t u)

pub text_le_refl : (s : Text) → text_le s s ≡ true
unfolding text_le
text_le_refl [] = refl
text_le_refl (a ∷ s) = ground (arith, text_le_refl s)

-- Below everything in the list.
abbrev pub IsLeast : Text → List Text → Type 0
IsLeast x [] = Unit
IsLeast x (y ∷ ys) = (text_le x y ≡ true) × IsLeast x ys

abbrev pub IsSorted : List Text → Type 0
IsSorted [] = Unit
IsSorted (x ∷ xs) = IsLeast x xs × IsSorted xs

IsLeast-trans : (x y : Text) (zs : List Text) → text_le x y ≡ true → IsLeast y zs → IsLeast x zs
IsLeast-trans x y [] h k = tt
IsLeast-trans x y (z ∷ zs) h k = (text_le_trans x y z h k.0, IsLeast-trans x y zs h k.1)

IsLeast-insert :
    (x y : Text) (ys : List Text)
    → text_le x y ≡ true
    → IsLeast x ys
    → IsLeast x (insert_sorted y ys)
unfolding insert_sorted
IsLeast-insert x y [] h k = (h, tt)
IsLeast-insert x y (z ∷ zs) h k = elim (Bool-cases (text_le y z)) [
  | inl e ↦ rw e (h, k)
  | inr e ↦ rw e (k.0, IsLeast-insert x y zs h k.1)
]

insert-IsSorted : (x : Text) (ys : List Text) → IsSorted ys → IsSorted (insert_sorted x ys)
unfolding insert_sorted
insert-IsSorted x [] h = (tt, tt)
insert-IsSorted x (y ∷ ys) h = elim (Bool-cases (text_le x y)) [
  | inl e ↦ rw e ((e, IsLeast-trans x y ys e h.0), h)
  | inr e ↦ rw e (IsLeast-insert y x ys (text_le_total x y e) h.0, insert-IsSorted x ys h.1)
]

pub sort_texts-IsSorted : (xs : List Text) → IsSorted (sort_texts xs)
unfolding sort_texts
sort_texts-IsSorted [] = tt
sort_texts-IsSorted (x ∷ xs) = insert-IsSorted x (sort_texts xs) (sort_texts-IsSorted xs)

insert_sorted-perm : (x : Text) (ys : List Text) → Perm (x ∷ ys) (insert_sorted x ys)
unfolding insert_sorted
insert_sorted-perm x [] = Perm.refl (x ∷ [])
insert_sorted-perm x (y ∷ ys) = elim (Bool-cases (text_le x y)) [
  | inl e ↦ rw e (Perm.refl (x ∷ y ∷ ys))
  | inr e ↦ rw e (Perm.trans (Perm.swap y x ys) (Perm.cons y (insert_sorted-perm x ys)))
]

pub sort_texts-perm : (xs : List Text) → Perm xs (sort_texts xs)
unfolding sort_texts
sort_texts-perm [] = Perm.refl []
sort_texts-perm (x ∷ xs) =
    Perm.trans (Perm.cons x (sort_texts-perm xs)) (insert_sorted-perm x (sort_texts xs))
