-- ===== src/System/Entries.antt =====
-- What an insertion and a deletion make of the entries.
use tailhopper.Base.{
  ℤ, int_eq, int_eq_iff, int_eq_refl, Str, is_empty, ◌≡◌, ◌≢◌, ◌⊎◌, inl, inr, refl, ap, Bool-cases,
  none, List, [], ◌∷◌, arith,
}
use tailhopper.Base.Maps.{lookup, insert, delete, lookup-insert, lookup-delete}
use tailhopper.Registry.Config.{RegisteredTailnet}
use tailhopper.Registry.Store.Claims.{IsUnique, Unclaimed, suffix_of}
use tailhopper.System.Inv.{HasDistinctKeys}

pub HasDistinctKeys-insert :
    (n : ℤ) (r : RegisteredTailnet) (m : List (ℤ × RegisteredTailnet))
    → HasDistinctKeys m
    → HasDistinctKeys (insert n r m)
unfolding HasDistinctKeys insert lookup
HasDistinctKeys-insert n r [] d = (refl, tt)
HasDistinctKeys-insert n r ((k, s) ∷ m) d = elim (Bool-cases (int_eq k n)) [
  | inl e ↦ rw e (ground (arith, e, d.0, int_eq_iff k n), d.1)
  | inr e ↦ rw e (
    ground (arith, e, d.0, int_eq_iff k n, int_eq_iff n k, lookup-insert n k r m),
    HasDistinctKeys-insert n r m d.1,
  )
]

pub HasDistinctKeys-delete :
    (n : ℤ) (m : List (ℤ × RegisteredTailnet)) → HasDistinctKeys m → HasDistinctKeys (delete n m)
unfolding HasDistinctKeys delete
HasDistinctKeys-delete n [] d = tt
HasDistinctKeys-delete n ((k, s) ∷ m) d = elim (Bool-cases (int_eq k n)) [
  | inl e ↦ rw e (HasDistinctKeys-delete n m d.1)
  | inr e ↦ rw e (ground (arith, d.0, lookup-delete n k m), HasDistinctKeys-delete n m d.1)
]

pub Unclaimed-delete :
    (s : Str) (n : ℤ) (m : List (ℤ × RegisteredTailnet)) → Unclaimed s m → Unclaimed s (delete n m)
unfolding delete
Unclaimed-delete s n [] u = tt
Unclaimed-delete s n ((k, r) ∷ m) u = elim (Bool-cases (int_eq k n)) [
  | inl e ↦ rw e (Unclaimed-delete s n m u.1)
  | inr e ↦ rw e (u.0, Unclaimed-delete s n m u.1)
]

pub IsUnique-delete :
    (n : ℤ) (m : List (ℤ × RegisteredTailnet)) → IsUnique m → IsUnique (delete n m)
unfolding delete
IsUnique-delete n [] u = tt
IsUnique-delete n ((k, r) ∷ m) u = elim (Bool-cases (int_eq k n)) [
  | inl e ↦ rw e (IsUnique-delete n m u.1)
  | inr e ↦ rw e (
    elim u.0 [ inl f ↦ inl f | inr f ↦ inr (Unclaimed-delete (suffix_of (k, r)) n m f) ],
    IsUnique-delete n m u.1,
  )
]

pub Unclaimed-insert :
    (s : Str) (n : ℤ) (r : RegisteredTailnet) (m : List (ℤ × RegisteredTailnet))
    → r.config.claimed_magic_dns_suffix ≢ s
    → Unclaimed s m
    → Unclaimed s (insert n r m)
unfolding insert
Unclaimed-insert s n r [] ne u = (ne, tt)
Unclaimed-insert s n r ((k, x) ∷ m) ne u = elim (Bool-cases (int_eq k n)) [
  | inl e ↦ rw e (ne, u.1)
  | inr e ↦ rw e (u.0, Unclaimed-insert s n r m ne u.1)
]

pub IsUnique-insert :
    (n : ℤ) (r : RegisteredTailnet) (m : List (ℤ × RegisteredTailnet))
    → (suffix_of (n, r) ≡ []) ⊎ Unclaimed (suffix_of (n, r)) m
    → IsUnique m
    → IsUnique (insert n r m)
unfolding insert
IsUnique-insert n r [] e u = (elim e [ inl f ↦ inl f | inr f ↦ inr tt ], tt)
IsUnique-insert n r ((k, x) ∷ m) e u = elim (Bool-cases (int_eq k n)) [
  | inl f ↦ rw f (elim e [ inl g ↦ inl g | inr g ↦ inr g.1 ], u.1)
  | inr f ↦ rw f (
    elim (Bool-cases (is_empty (suffix_of (k, x)))) [
      | inl g ↦ inl (ground (arith, g))
      | inr g ↦
          let differ : suffix_of (n, r) ≢ suffix_of (k, x) = λ h. ground (arith, g, e, h) in
          ground (arith, g, u.0, Unclaimed-insert (suffix_of (k, x)) n r m differ)
    ],
    IsUnique-insert n r m (elim e [ inl g ↦ inl g | inr g ↦ inr g.1 ]) u.1,
  )
]

pub delete-insert :
    (n : ℤ) (r : RegisteredTailnet) (m : List (ℤ × RegisteredTailnet))
    → lookup n m ≡ none
    → delete n (insert n r m) ≡ m
unfolding delete insert lookup
delete-insert n r [] e = ground (arith, int_eq_refl n)
delete-insert n r ((k, x) ∷ m) e = elim (Bool-cases (int_eq k n)) [
  | inl f ↦ absurd (ground (arith, e, f))
  | inr f ↦ rw f (rw f (ap (◌∷◌ (k, x)) (delete-insert n r m (ground (arith, e, f)))))
]
