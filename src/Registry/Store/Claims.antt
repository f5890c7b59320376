-- ===== src/Registry/Store/Claims.antt =====
-- What `Claim` guarantees: a suffix belongs to one tailnet, and what a failed save leaves behind.
use tailhopper.Base.{
  ℤ, Str, str_eq_iff, str_eq_refl, int_eq_iff, int_eq_refl, ◌≡◌, ◌≢◌, ◌⊎◌, ◌↔◌, refl, Option-cases,
  Bool-cases, inl, inr, true, false, Option, none, some, List, [], ◌∷◌, any, All, arith,
}
use tailhopper.Base.Maps.{lookup, adjust, lookup-adjust}
use tailhopper.Ts.State.{already_claimed}
use tailhopper.Registry.Config.{
  RegisteredTailnet, Broadcaster, Store, next_end, saved, holds, configs,
}
use tailhopper.Registry.Store.{has_suffix, claim}

-- The suffix that an entry has claimed.
abbrev pub suffix_of : ℤ × RegisteredTailnet → Str
suffix_of e = e.1.config.claimed_magic_dns_suffix

-- No two entries of the map have claimed the same suffix.
abbrev pub Unclaimed : Str → List (ℤ × RegisteredTailnet) → Type 0
Unclaimed s = All (λ e. suffix_of e ≢ s)

abbrev pub IsUnique : List (ℤ × RegisteredTailnet) → Type 0
IsUnique [] = Unit
IsUnique (e ∷ m) = ((suffix_of e ≡ []) ⊎ Unclaimed (suffix_of e) m) × IsUnique m

any-false :
    (s : Str) (m : List (ℤ × RegisteredTailnet)) → any (has_suffix s) m ≡ false → Unclaimed s m
any-false s [] e = tt
any-false s (x ∷ m) e = ground (arith, any-false s m, str_eq_iff (suffix_of x) s)

any-true :
    (s : Str) (m : List (ℤ × RegisteredTailnet)) → Unclaimed s m → any (has_suffix s) m ≡ false
any-true s [] u = refl
any-true s (x ∷ m) u = ground (arith, any-true s m, str_eq_iff (suffix_of x) s)

abbrev claiming : Str → RegisteredTailnet → RegisteredTailnet
claiming s r = record r { config = record r.config { claimed_magic_dns_suffix = s } }

Unclaimed-adjust :
    (id : ℤ) (s t : Str) (m : List (ℤ × RegisteredTailnet))
    → t ≢ s
    → Unclaimed t m
    → Unclaimed t (adjust id (claiming s) m)
unfolding adjust
Unclaimed-adjust id s t [] ne u = tt
Unclaimed-adjust id s t ((j, r) ∷ m) ne u = ground (arith, Unclaimed-adjust id s t m ne u.1)

IsUnique-adjust :
    (id : ℤ) (s : Str) (m : List (ℤ × RegisteredTailnet))
    → Unclaimed s m
    → IsUnique m
    → IsUnique (adjust id (claiming s) m)
unfolding adjust
IsUnique-adjust id s [] n u = tt
IsUnique-adjust id s ((j, r) ∷ m) n u =
    ground (arith, IsUnique-adjust id s m n.1 u.1, Unclaimed-adjust id s (suffix_of (j, r)) m n.0)

module _ {B : Type 0} (b : Option (Broadcaster B)) where
  abbrev entries : Store B → List (ℤ × RegisteredTailnet)
  entries st = st.registry.tailnets

  -- If no two entries of the registry hold the same suffix other than the empty one, then after
  -- `claim` with any id and suffix, whatever it answers, still no two do.
  pub claim-IsUnique :
      (id : ℤ) (suffix : Str) (st : Store B)
      → IsUnique st.registry.tailnets
      → IsUnique (claim b id suffix st).0.registry.tailnets
  unfolding claim
  claim-IsUnique id suffix st u =
      ground (
        arith,
        any-false suffix st.registry.tailnets,
        IsUnique-adjust id suffix st.registry.tailnets,
      )

  -- A claim returns no error exactly when nobody holds the suffix, the id is known and the save
  -- succeeds.
  pub claim-none_iff :
      (id : ℤ) (suffix : Str) (st : Store B)
      → ((claim b id suffix st).1 ≡ none) ↔ (
          Unclaimed suffix st.registry.tailnets
          × (lookup id st.registry.tailnets ≢ none)
          × (next_end st.disk.save_ends ≡ saved))
  unfolding claim
  claim-none_iff id suffix st =
      ground (arith, any-false suffix st.registry.tailnets, any-true suffix st.registry.tailnets)

  claim_granted-entries :
      (id : ℤ) (suffix : Str) (st : Store B)
      → (claim b id suffix st).1 ≡ none
      → ((claim b id suffix st).0.registry.tailnets
          ≡ adjust id (claiming suffix) st.registry.tailnets)
        × ((claim b id suffix st).0.disk.file
            ≡ holds (configs (adjust id (claiming suffix) st.registry.tailnets)))
  unfolding claim
  claim_granted-entries id suffix st e = ground arith

  -- If a claim of an id that is known returns no error, then the suffix stands in the entry of that
  -- id and nothing else of it has changed, every other id stands for what it stood for before, and
  -- the file holds the new entries.
  pub claim_granted :
      (id : ℤ) (suffix : Str) (st : Store B) (r : RegisteredTailnet)
      → lookup id st.registry.tailnets ≡ some r
      → (claim b id suffix st).1 ≡ none
      → let st' = (claim b id suffix st).0 in
        (lookup id st'.registry.tailnets ≡ some (claiming suffix r))
        × ((j : ℤ) → j ≢ id → lookup j st'.registry.tailnets ≡ lookup j st.registry.tailnets)
        × (st'.disk.file ≡ holds (configs st'.registry.tailnets))
  claim_granted id suffix st r known e =
      let (entries, file) = claim_granted-entries id suffix st e in
      rw entries (
        rw (lookup-adjust, known, int_eq_refl),
        λ j ne.
            ground
              (arith, lookup-adjust id j (claiming suffix) st.registry.tailnets, int_eq_iff id j),
        file,
      )

  -- A claim of an id that is known either returns no error, and then nobody held the suffix and the
  -- save has succeeded, the suffix stands in the entry of that id and nothing else of it has
  -- changed, every other id stands for what it stood for before, and the file holds the new
  -- entries; or it returns an error, and then somebody held the suffix or the save has not
  -- succeeded.
  pub claim_lem :
      (id : ℤ) (suffix : Str) (st : Store B) (r : RegisteredTailnet)
      → lookup id st.registry.tailnets ≡ some r
      → let (st', answer) = claim b id suffix st in
        ((answer ≡ none)
          × Unclaimed suffix st.registry.tailnets
          × (next_end st.disk.save_ends ≡ saved)
          × (lookup id st'.registry.tailnets ≡ some (claiming suffix r))
          × ((j : ℤ) → j ≢ id → lookup j st'.registry.tailnets ≡ lookup j st.registry.tailnets)
          × (st'.disk.file ≡ holds (configs st'.registry.tailnets)))
        ⊎ ((answer ≢ none)
            × ((¬ Unclaimed suffix st.registry.tailnets) ⊎ (next_end st.disk.save_ends ≢ saved)))
  claim_lem id suffix st r known =
      let iff = claim-none_iff id suffix st in
      elim (Option-cases (claim b id suffix st).1) [
        | inl e ↦
            let (free, _, ends) = iff.0 e in
            let (own, others, file) = claim_granted id suffix st r known e in
            inl (e, free, ends, own, others, file)
        | inr (x, e) ↦
            let denied : (claim b id suffix st).1 ≢ none = λ q. cc in
            inr (
              denied,
              elim (Bool-cases (any (has_suffix suffix) st.registry.tailnets)) [
                | inl held ↦ inl (λ u. cc (any-true suffix st.registry.tailnets u, held))
                | inr free ↦ inr (λ ends.
                    denied (iff.1 (any-false suffix st.registry.tailnets free, (λ q. cc), ends)))
              ],
            )
      ]

  any-adjust :
      (id : ℤ) (suffix : Str) (m : List (ℤ × RegisteredTailnet)) (r : RegisteredTailnet)
      → lookup id m ≡ some r
      → any (has_suffix suffix) (adjust id (claiming suffix) m) ≡ true
  unfolding lookup adjust
  any-adjust id suffix [] r e = cc
  any-adjust id suffix ((j, x) ∷ m) r e =
      ground (arith, any-adjust id suffix m r, str_eq_refl suffix)

  -- If nobody holds a suffix, the id is known and the save of the claim fails, then the claim
  -- returns an error that is not the already-claimed one, and a second claim of the same suffix by
  -- the same id is answered by the already-claimed error.
  pub claim_after_failed_save :
      (id : ℤ) (suffix : Str) (st : Store B) (r : RegisteredTailnet)
      → Unclaimed suffix st.registry.tailnets
      → lookup id st.registry.tailnets ≡ some r
      → next_end st.disk.save_ends ≢ saved
      → let st' = (claim b id suffix st).0 in
        ((claim b id suffix st).1 ≢ none)
        × ((claim b id suffix st).1 ≢ some (already_claimed suffix))
        × ((claim b id suffix st').1 ≡ some (already_claimed suffix))
  unfolding claim
  claim_after_failed_save id suffix st r u known failed = ground (
    arith,
    any-true suffix st.registry.tailnets u,
    any-adjust id suffix st.registry.tailnets r known,
  )
