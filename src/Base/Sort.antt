-- ===== src/Base/Sort.antt =====
-- `sort.Slice` with a `less` function: an insertion sort, whose result is one that the library's
-- contract allows.
use mathlib.Core.Path.{◌≡◌, refl}
use native.Mathlib.Omega.{arith}
use mathlib.Core.Bool.{Bool, true, false, ◌||◌}
use mathlib.Core.Logic.{inl, inr}
use mathlib.Core.List.{List, [], ◌∷◌, Perm}
use mathlib.Core.List.Perm
use tailhopper.Base.Tests.{if◌then◌else◌, Bool-cases}
use tailhopper.Base.Lists.{All, Pairwise, any}

module _ {ℓ} {A : Type ℓ} (less : A → A → Bool) where
  unfoldable pub insert : A → List A → List A
  insert x [] = x ∷ []
  insert x (y ∷ ys) = if less y x then y ∷ insert x ys else x ∷ y ∷ ys

  unfoldable pub sort : List A → List A
  unfolding insert
  sort [] = []
  sort (x ∷ xs) = insert x (sort xs)

  -- No later element is less than an earlier one.
  abbrev pub IsSorted : List A → Type 0
  IsSorted [] = Unit
  IsSorted (x ∷ xs) = All (λ y. less y x ≡ false) xs × IsSorted xs

  insert-perm : (x : A) (ys : List A) → Perm (insert x ys) (x ∷ ys)
  unfolding insert
  insert-perm x [] = Perm.refl (x ∷ [])
  insert-perm x (y ∷ ys) = elim (Bool-cases (less y x)) [
    | inl e ↦ rw e (Perm.trans (Perm.cons y (insert-perm x ys)) (Perm.swap x y ys))
    | inr e ↦ rw e (Perm.refl _)
  ]

  pub sort-perm : (xs : List A) → Perm (sort xs) xs
  unfolding sort
  sort-perm [] = Perm.refl []
  sort-perm (x ∷ xs) = Perm.trans (insert-perm x (sort xs)) (Perm.cons x (sort-perm xs))

  module _ {κ} (P : A → Type κ) where
    pub All-insert : (x : A) (ys : List A) → P x → All P ys → All P (insert x ys)
    unfolding insert
    All-insert x [] p h = (p, tt)
    All-insert x (y ∷ ys) p h = elim (Bool-cases (less y x)) [
      | inl e ↦ rw e (h.0, All-insert x ys p h.1)
      | inr e ↦ rw e (p, h)
    ]

    pub All-sort : (xs : List A) → All P xs → All P (sort xs)
    unfolding sort
    All-sort [] h = tt
    All-sort (x ∷ xs) h = All-insert x (sort xs) h.0 (All-sort xs h.1)

  -- The order is one on the elements that satisfy `P`.
  module _ {κ} (P : A → Type κ) (asym : (x y : A) → less x y ≡ true → less y x ≡ false)
      (trans : (x y z : A)
        → P x
        → P y
        → P z
        → less y x ≡ false
        → less z y ≡ false
        → less z x ≡ false) where
    All-trans :
        (x y : A) (ys : List A)
        → P x
        → P y
        → All P ys
        → less y x ≡ false
        → All (λ z. less z y ≡ false) ys
        → All (λ z. less z x ≡ false) ys
    All-trans x y [] px py ps e h = tt
    All-trans x y (z ∷ ys) px py ps e h =
        (trans x y z px py ps.0 e h.0, All-trans x y ys px py ps.1 e h.1)

    insert-IsSorted : (x : A) (ys : List A) → P x → All P ys → IsSorted ys → IsSorted (insert x ys)
    unfolding insert
    insert-IsSorted x [] px ps s = (tt, tt)
    insert-IsSorted x (y ∷ ys) px ps s = elim (Bool-cases (less y x)) [
      | inl e ↦ rw e (
        All-insert (λ z. less z y ≡ false) x ys (asym y x e) s.0,
        insert-IsSorted x ys px ps.1 s.1,
      )
      | inr e ↦ rw e ((e, All-trans x y ys px ps.0 ps.1 e s.0), s)
    ]

    pub sort-IsSorted : (xs : List A) → All P xs → IsSorted (sort xs)
    unfolding sort
    sort-IsSorted [] ps = tt
    sort-IsSorted (x ∷ xs) ps =
        insert-IsSorted x (sort xs) ps.0 (All-sort P xs ps.1) (sort-IsSorted xs ps.1)

  -- A sort keeps whether any element passes a test.
  module _ (p : A → Bool) where
    any-insert : (x : A) (ys : List A) → any p (insert x ys) ≡ p x || any p ys
    unfolding insert
    any-insert x [] = ground arith
    any-insert x (y ∷ ys) = ground (arith, any-insert x ys)

    pub any-sort : (xs : List A) → any p (sort xs) ≡ any p xs
    unfolding sort
    any-sort [] = refl
    any-sort (x ∷ xs) = ground (arith, any-insert x (sort xs), any-sort xs)

  -- A sort keeps a symmetric relation between every two elements.
  module _ {κ} (R : A → A → Type κ) (symmetric : (x y : A) → R x y → R y x) where
    insert-Pairwise :
        (x : A) (ys : List A) → All (R x) ys → Pairwise R ys → Pairwise R (insert x ys)
    unfolding insert
    insert-Pairwise x [] a p = (tt, tt)
    insert-Pairwise x (y ∷ ys) a p = elim (Bool-cases (less y x)) [
      | inl e ↦ rw e (All-insert (R y) x ys (symmetric x y a.0) p.0, insert-Pairwise x ys a.1 p.1)
      | inr e ↦ rw e (a, p)
    ]

    pub sort-Pairwise : (xs : List A) → Pairwise R xs → Pairwise R (sort xs)
    unfolding sort
    sort-Pairwise [] p = tt
    sort-Pairwise (x ∷ xs) p =
        insert-Pairwise x (sort xs) (All-sort (R x) xs p.0) (sort-Pairwise xs p.1)
