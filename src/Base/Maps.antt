-- ===== src/Base/Maps.antt =====
-- Go maps with `int` keys as association lists in one of the orders in which they may be ranged
-- over; a write to a key that is there keeps its place.
use mathlib.Core.Path.{◌≡◌, refl}
use mathlib.Core.Logic.{◌≢◌, inl, inr}
use mathlib.Core.Option
use mathlib.Core.Option.{Option, none, some}
use mathlib.Core.List.{List, [], ◌∷◌}
use native.Mathlib.Omega.{arith}
use tailhopper.Base.Tests.{if◌then◌else◌, Bool-cases}
use tailhopper.Base.Int.{ℤ, int_eq, int_eq_iff}
use tailhopper.Base.Lists.{All}

module _ {ℓ} {V : Type ℓ} where
  unfoldable pub lookup : ℤ → List (ℤ × V) → Option V
  lookup k [] = none
  lookup k ((j, v) ∷ m) = if int_eq j k then some v else lookup k m

  unfoldable pub insert : ℤ → V → List (ℤ × V) → List (ℤ × V)
  insert k v [] = (k, v) ∷ []
  insert k v ((j, w) ∷ m) = if int_eq j k then (k, v) ∷ m else (j, w) ∷ insert k v m

  unfoldable pub delete : ℤ → List (ℤ × V) → List (ℤ × V)
  delete k [] = []
  delete k ((j, w) ∷ m) = if int_eq j k then delete k m else (j, w) ∷ delete k m

  -- A write through the pointer that the map holds under a key.
  unfoldable pub adjust : ℤ → (V → V) → List (ℤ × V) → List (ℤ × V)
  adjust k f [] = []
  adjust k f ((j, w) ∷ m) = if int_eq j k then (j, f w) ∷ m else (j, w) ∷ adjust k f m

  -- No key occurs twice.
  unfoldable pub HasDistinctKeys : List (ℤ × V) → Type ℓ
  HasDistinctKeys [] = Unit
  HasDistinctKeys ((k, v) ∷ m) = (lookup k m ≡ none) × HasDistinctKeys m

  pub lookup-insert :
      (k j : ℤ) (v : V) (m : List (ℤ × V))
      → lookup j (insert k v m) ≡ (if int_eq k j then some v else lookup j m)
  unfolding lookup insert
  lookup-insert k j v [] = refl
  lookup-insert k j v ((i, w) ∷ m) =
      ground (arith, int_eq_iff k j, int_eq_iff i k, int_eq_iff i j, lookup-insert k j v m)

  pub lookup-insert_ne :
      (k j : ℤ) (v : V) (m : List (ℤ × V)) → k ≢ j → lookup j (insert k v m) ≡ lookup j m
  lookup-insert_ne k j v m ne = ground (arith, lookup-insert k j v m, int_eq_iff k j)

  pub lookup-delete :
      (k j : ℤ) (m : List (ℤ × V))
      → lookup j (delete k m) ≡ (if int_eq k j then none else lookup j m)
  unfolding lookup delete
  lookup-delete k j [] = ground arith
  lookup-delete k j ((i, w) ∷ m) =
      ground (arith, int_eq_iff k j, int_eq_iff i k, int_eq_iff i j, lookup-delete k j m)

  pub lookup-adjust :
      (k j : ℤ) (f : V → V) (m : List (ℤ × V))
      → lookup j (adjust k f m) ≡ (if int_eq k j then Option.map f (lookup j m) else lookup j m)
  unfolding lookup adjust
  lookup-adjust k j f [] = ground arith
  lookup-adjust k j f ((i, w) ∷ m) =
      ground (arith, int_eq_iff k j, int_eq_iff i k, int_eq_iff i j, lookup-adjust k j f m)

module _ {ℓ κ} {V : Type ℓ} (P : ℤ × V → Type κ) where
  pub All-insert : (k : ℤ) (v : V) (m : List (ℤ × V)) → P (k, v) → All P m → All P (insert k v m)
  unfolding insert
  All-insert k v [] p h = (p, tt)
  All-insert k v ((j, w) ∷ m) p h = elim (Bool-cases (int_eq j k)) [
    | inl e ↦ rw e (p, h.1)
    | inr e ↦ rw e (h.0, All-insert k v m p h.1)
  ]

  pub All-delete : (k : ℤ) (m : List (ℤ × V)) → All P m → All P (delete k m)
  unfolding delete
  All-delete k [] h = tt
  All-delete k ((j, w) ∷ m) h = elim (Bool-cases (int_eq j k)) [
    | inl e ↦ rw e (All-delete k m h.1)
    | inr e ↦ rw e (h.0, All-delete k m h.1)
  ]

  pub All-adjust :
      (k : ℤ) (f : V → V) (m : List (ℤ × V))
      → ((j : ℤ) (v : V) → P (j, v) → P (j, f v))
      → All P m
      → All P (adjust k f m)
  unfolding adjust
  All-adjust k f [] p h = tt
  All-adjust k f ((j, w) ∷ m) p h = elim (Bool-cases (int_eq j k)) [
    | inl e ↦ rw e (p j w h.0, h.1)
    | inr e ↦ rw e (h.0, All-adjust k f m p h.1)
  ]

-- A key that is in no entry is not found.
pub lookup_absent {ℓ} :
    {V : Type ℓ} (k : ℤ) (m : List (ℤ × V)) → All (λ e. e.0 ≢ k) m → lookup k m ≡ none
unfolding lookup
lookup_absent k [] h = refl
lookup_absent k ((j, v) ∷ m) h = ground (arith, int_eq_iff j k, lookup_absent k m h.1)
