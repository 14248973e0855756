-- ===== src/Base/Dict.antt =====
-- Go maps with text keys, as association lists with the newest value of a key at its place.
use mathlib.Core.Path.{◌≡◌, refl, sym, ap, ◌∙◌}
use mathlib.Core.List.{List, [], ◌∷◌}
use mathlib.Core.Option.{Option, none, some}
use native.Mathlib.Omega.{arith}
use mathlib.Core.Logic.{inl, inr}
use kimi_ssh.Base.Tests.{Bool-cases, if◌then◌else◌}
use kimi_ssh.Base.Text.{Text, same_text, same_text_iff}

abbrev pub Dict {ℓ} : Type ℓ → Type ℓ
Dict V = List (Text × V)

module _ {ℓ} {V : Type ℓ} where
  unfoldable pub lookup : Text → Dict V → Option V
  lookup k [] = none
  lookup k ((j, v) ∷ m) = if same_text j k then some v else lookup k m

  -- `m[k] = v`
  unfoldable pub insert : Text → V → Dict V → Dict V
  insert k v [] = (k, v) ∷ []
  insert k v ((j, w) ∷ m) = if same_text j k then (k, v) ∷ m else (j, w) ∷ insert k v m

  -- `delete(m, k)`. Every entry of the key goes; a map has one at most.
  unfoldable pub erase : Text → Dict V → Dict V
  erase k [] = []
  erase k ((j, w) ∷ m) = let rest = erase k m in if same_text j k then rest else (j, w) ∷ rest

  pub lookup-insert :
      (j k : Text) (v : V) (m : Dict V)
      → lookup j (insert k v m) ≡ (if same_text k j then some v else lookup j m)
  unfolding lookup insert
  lookup-insert j k v [] = refl
  lookup-insert j k v ((i, w) ∷ m) =
      ground (arith, same_text_iff k j, same_text_iff i k, same_text_iff i j, lookup-insert j k v m)

  pub lookup-erase :
      (j k : Text) (m : Dict V)
      → lookup j (erase k m) ≡ (if same_text k j then none else lookup j m)
  unfolding lookup erase
  lookup-erase j k [] = ground arith
  lookup-erase j k ((i, w) ∷ m) =
      ground (arith, same_text_iff k j, same_text_iff i k, same_text_iff i j, lookup-erase j k m)

module _ {ℓ} {V : Type ℓ} where
  -- No key stands twice.
  abbrev pub NodupKeys : Dict V → Type ℓ
  NodupKeys [] = Unit
  NodupKeys ((k, v) ∷ m) = (lookup k m ≡ none) × NodupKeys m

  pub insert-NodupKeys : (k : Text) (v : V) (m : Dict V) → NodupKeys m → NodupKeys (insert k v m)
  unfolding insert
  insert-NodupKeys k v [] h = (unfold lookup in refl, tt)
  insert-NodupKeys k v ((j, w) ∷ m) h = elim (Bool-cases (same_text j k)) [
    | inl e ↦ rw e (ap (λ i. lookup i m) (sym ((same_text_iff j k).0 e)) ∙ h.0, h.1)
    | inr e ↦ rw e (
      ground (arith, lookup-insert j k v m, same_text_iff k j, same_text_iff j k),
      insert-NodupKeys k v m h.1,
    )
  ]

  pub erase-NodupKeys : (k : Text) (m : Dict V) → NodupKeys m → NodupKeys (erase k m)
  unfolding erase
  erase-NodupKeys k [] h = tt
  erase-NodupKeys k ((j, w) ∷ m) h = elim (Bool-cases (same_text j k)) [
    | inl e ↦ rw e (erase-NodupKeys k m h.1)
    | inr e ↦ rw e (ground (arith, lookup-erase j k m), erase-NodupKeys k m h.1)
  ]
