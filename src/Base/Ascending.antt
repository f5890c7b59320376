-- ===== src/Base/Ascending.antt =====
-- A sort by key gives one list for a map, in whatever order the map is ranged over.
use mathlib.Core.Path.{◌≡◌, refl, sym, subst, ap, ◌∙◌}
use mathlib.Core.Logic.{◌≢◌, inl, inr}
use mathlib.Core.Bool.{Bool}
use mathlib.Core.Option.{none, some}
use mathlib.Core.List.{List, [], ◌∷◌, map}
use native.Mathlib.Omega.{arith}
use tailhopper.Base.Tests.{if◌then◌else◌, Bool-cases}
use tailhopper.Base.Int.{ℤ, int_eq, int_eq_iff, int_antisymm, int_lt, ◌<ℤ◌, ◌≤ℤ◌}
use tailhopper.Base.Lists.{All, All-map}
use tailhopper.Base.Maps.{lookup, HasDistinctKeys}
use tailhopper.Base.Sort.{insert, sort, All-insert, All-sort}

-- The two lists stand for the same map.
abbrev pub IsSameMap {ℓ} : {V : Type ℓ} → List (ℤ × V) → List (ℤ × V) → Type ℓ
IsSameMap m n = (k : ℤ) → lookup k m ≡ lookup k n

module _ {ℓ} {V : Type ℓ} where
  abbrev pub less_key : ℤ × V → ℤ × V → Bool
  less_key e f = int_lt e.0 f.0

  -- Keys rise from each entry to the next.
  Ascends : List (ℤ × V) → Type 0
  Ascends [] = Unit
  Ascends (e ∷ m) = All (λ f. e.0 <ℤ f.0) m × Ascends m

  lookup-head : (k : ℤ) (v : V) (m : List (ℤ × V)) → lookup k ((k, v) ∷ m) ≡ some v
  unfolding lookup
  lookup-head k v m = ground (arith, int_eq_iff k k)

  lookup-tail : (j k : ℤ) (v : V) (m : List (ℤ × V)) → k ≢ j → lookup j ((k, v) ∷ m) ≡ lookup j m
  unfolding lookup
  lookup-tail j k v m ne = ground (arith, int_eq_iff k j)

  -- A key below all the keys is absent.
  lookup_below : (k : ℤ) (m : List (ℤ × V)) → All (λ f. k <ℤ f.0) m → lookup k m ≡ none
  unfolding lookup
  lookup_below k [] a = refl
  lookup_below k ((j, v) ∷ m) a = ground (arith, int_eq_iff j k, lookup_below k m a.1)

  Ascends-insert :
      (e : ℤ × V) (m : List (ℤ × V))
      → lookup e.0 m ≡ none
      → Ascends m
      → Ascends (insert less_key e m)
  unfolding Ascends insert lookup
  Ascends-insert e [] n a = (tt, tt)
  Ascends-insert e ((k, v) ∷ m) n a = elim (Bool-cases (int_lt k e.0)) [
    | inl h ↦ rw h (
      All-insert less_key (λ f. k <ℤ f.0) e m (ground (arith, h)) a.0,
      Ascends-insert e m (ground (arith, n, int_eq_iff k e.0)) a.1,
    )
    | inr h ↦
        let below : e.0 <ℤ k = ground (arith, n, h, int_eq_iff k e.0) in
        rw h (
          (
            below,
            All-map (λ f. k <ℤ f.0) (λ f. e.0 <ℤ f.0) (λ f g. ground (arith, below, g)) m a.0,
          ),
          a,
        )
  ]

  lookup-sort_insert :
      (k : ℤ) (e : ℤ × V) (m : List (ℤ × V))
      → lookup e.0 m ≡ none
      → lookup k (insert less_key e m) ≡ (if int_eq e.0 k then some e.1 else lookup k m)
  unfolding insert lookup
  lookup-sort_insert k e [] n = refl
  lookup-sort_insert k e ((j, v) ∷ m) n =
      ground
        (arith, n, int_eq_iff j e.0, int_eq_iff e.0 k, int_eq_iff j k, lookup-sort_insert k e m)

  lookup-sort :
      (k : ℤ) (m : List (ℤ × V)) → HasDistinctKeys m → lookup k (sort less_key m) ≡ lookup k m
  unfolding sort lookup HasDistinctKeys
  lookup-sort k [] d = refl
  lookup-sort k ((j, v) ∷ m) d =
      lookup-sort_insert k (j, v) (sort less_key m) (lookup-sort j m d.1 ∙ d.0)
      ∙ rw (lookup-sort k m d.1) refl

  Ascends-sort : (m : List (ℤ × V)) → HasDistinctKeys m → Ascends (sort less_key m)
  unfolding sort Ascends HasDistinctKeys
  Ascends-sort [] d = tt
  Ascends-sort ((j, v) ∷ m) d =
      Ascends-insert (j, v) (sort less_key m) (lookup-sort j m d.1 ∙ d.0) (Ascends-sort m d.1)

  -- The entries above a key do not see an entry with that key.
  same_tails :
      (k : ℤ) (v : V) (m n : List (ℤ × V))
      → All (λ f. k <ℤ f.0) m
      → All (λ f. k <ℤ f.0) n
      → IsSameMap ((k, v) ∷ m) ((k, v) ∷ n)
      → IsSameMap m n
  same_tails k v m n a c s j = elim (Bool-cases (int_eq k j)) [
    | inl e ↦
        let same : k ≡ j = (int_eq_iff k j).0 e in
        ap (λ i. lookup i m) (sym same)
        ∙ lookup_below k m a
        ∙ sym (lookup_below k n c)
        ∙ ap (λ i. lookup i n) same
    | inr e ↦
        let ne : k ≢ j = λ h. ground (arith, e, h, int_eq_iff k j) in
        sym (lookup-tail j k v m ne) ∙ s j ∙ lookup-tail j k v n ne
  ]

  -- The heads of two ascending lists of one map have the same key.
  head_le :
      (k j : ℤ) (v w : V) (m n : List (ℤ × V))
      → All (λ f. j <ℤ f.0) n
      → IsSameMap ((k, v) ∷ m) ((j, w) ∷ n)
      → j ≤ℤ k
  unfolding lookup
  head_le k j v w m n a s = elim (Bool-cases (int_lt k j)) [
    | inl h ↦
        let below : All (λ f. k <ℤ f.0) ((j, w) ∷ n) = (
          ground (arith, h),
          All-map (λ f. j <ℤ f.0) (λ f. k <ℤ f.0) (λ f g. ground (arith, h, g)) n a,
        ) in
        let found = lookup-head k v m in
        let absent = lookup_below k ((j, w) ∷ n) below in
        let both = s k in absurd (cc (found, absent, both))
    | inr h ↦ ground (arith, h)
  ]

  Ascends-unique : (m n : List (ℤ × V)) → Ascends m → Ascends n → IsSameMap m n → m ≡ n
  unfolding Ascends lookup
  Ascends-unique [] [] a c s = refl
  Ascends-unique [] ((j, w) ∷ n) a c s =
      let found = lookup-head j w n in let same = s j in absurd (cc (found, same))
  Ascends-unique ((k, v) ∷ m) [] a c s =
      let found = lookup-head k v m in let same = s k in absurd (cc (found, same))
  Ascends-unique ((k, v) ∷ m) ((j, w) ∷ n) a c s =
      let key : k ≡ j =
        int_antisymm k j (head_le j k w v n m a.0 (λ i. sym (s i))) (head_le k j v w m n c.0 s) in
      let found = lookup-head k v m in
      let found' = lookup-head j w n in
      let both = s k in
      let both' : lookup k ((j, w) ∷ n) ≡ lookup j ((j, w) ∷ n) =
        ap (λ i. lookup i ((j, w) ∷ n)) key in
      let value : v ≡ w = cc (found, found', both, both') in
      let head : (k, v) ≡ (j, w) = cc (key, value) in
      let same : IsSameMap ((k, v) ∷ m) ((k, v) ∷ n) =
        λ i. s i ∙ ap (λ x. lookup i (x ∷ n)) (sym head) in
      let above = subst (λ x. All (λ f. x <ℤ f.0) n) (sym key) c.0 in
      ap (λ t. (k, v) ∷ t) (Ascends-unique m n a.1 c.1 (same_tails k v m n a.0 above same))
      ∙ ap (λ x. x ∷ n) head

  -- However a map is ranged over, its entries sorted by key are the same list.
  pub sort_same_map :
      (m n : List (ℤ × V))
      → HasDistinctKeys m
      → HasDistinctKeys n
      → IsSameMap m n
      → sort less_key m ≡ sort less_key n
  sort_same_map m n d e s =
      Ascends-unique (sort less_key m) (sort less_key n) (Ascends-sort m d) (Ascends-sort n e)
        (λ k. lookup-sort k m d ∙ s k ∙ sym (lookup-sort k n e))

-- A sort of images is the image of a sort, where the two orders agree.
module _ {ℓ κ} {A : Type ℓ} {B : Type κ} (less : A → A → Bool) (less' : B → B → Bool) (f : A → B)
    (P : A → Type 0) (agree : (x y : A) → P x → P y → less' (f x) (f y) ≡ less x y) where
  map-insert :
      (x : A) (ys : List A)
      → P x
      → All P ys
      → insert less' (f x) (map f ys) ≡ map f (insert less x ys)
  unfolding insert
  map-insert x [] p q = refl
  map-insert x (y ∷ ys) p q = elim (Bool-cases (less y x)) [
    | inl e ↦ rw e (rw (agree y x q.0 p ∙ e) (ap (λ t. f y ∷ t) (map-insert x ys p q.1)))
    | inr e ↦ rw e (rw (agree y x q.0 p ∙ e) refl)
  ]

  pub map-sort : (xs : List A) → All P xs → sort less' (map f xs) ≡ map f (sort less xs)
  unfolding sort
  map-sort [] q = refl
  map-sort (x ∷ xs) q =
      ap (insert less' (f x)) (map-sort xs q.1)
      ∙ map-insert x (sort less xs) q.0 (All-sort less P xs q.1)
