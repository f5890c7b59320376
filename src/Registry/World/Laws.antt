-- ===== src/Registry/World/Laws.antt =====
-- What `Load` restores, and what `List` returns.
use mathlib.Core.List.{Perm, append_assoc, append-nil}
use tailhopper.Base.{
  All-trivial, ℕ, zero, suc, ℤ, pos, max_int, int_eq_iff, int_le, int_succ, int_succ-lt, ◌≡◌, ◌≢◌,
  ◌<ℤ◌, refl, sym, ap, ◌∙◌, none, some, List, [], ◌∷◌, ◌++◌, map, All, All-map, arith, length,
  get_elem?, if◌then◌else◌,
}
use tailhopper.Base.Maps.{insert, All-insert}
use tailhopper.Base.Sort.{IsSorted, sort-perm, sort-IsSorted}
use tailhopper.Registry.Config.{PersistedTailnet, RegisteredTailnet, holds, configs}
use tailhopper.Registry.World.{
  World, with_registry, tailnet_of, register, register_all, load, list, less_id,
}

module _ {B : Type 0} (w : World B) where
  -- `List` returns the registered tailnets, each as often as it is registered, in the order of
  -- their ids.
  pub list_lem :
      Perm (list w) (map (λ e. e.1.tailnet) w.store.registry.tailnets)
      × IsSorted (less_id w.heap) (list w)
  unfolding list
  list_lem = (
    sort-perm (less_id w.heap) _,
    sort-IsSorted (less_id w.heap) (λ x. Unit {0}) (λ x y h. ground arith)
        (λ x y z p q r h k. ground arith) _ (All-trivial _),
  )

abbrev Absent : ℤ → List (ℤ × RegisteredTailnet) → Type 0
Absent k = All (λ e. e.0 ≢ k)

abbrev pub HasDistinctIds : List PersistedTailnet → Type 0
HasDistinctIds [] = Unit
HasDistinctIds (c ∷ cs) = All (λ d. d.id ≢ c.id) cs × HasDistinctIds cs

Absent-nowhere : (cs : List PersistedTailnet) → All (λ c. Absent c.id []) cs
Absent-nowhere [] = tt
Absent-nowhere (c ∷ cs) = (tt, Absent-nowhere cs)

insert-Absent :
    (k : ℤ) (v : RegisteredTailnet) (m : List (ℤ × RegisteredTailnet))
    → Absent k m
    → insert k v m ≡ m ++ (k, v) ∷ []
unfolding insert
insert-Absent k v [] h = refl
insert-Absent k v ((j, x) ∷ m) h = ground (arith, int_eq_iff j k, insert-Absent k v m h.1)

configs-append : (m n : List (ℤ × RegisteredTailnet)) → configs (m ++ n) ≡ configs m ++ configs n
unfolding configs
configs-append [] n = refl
configs-append (e ∷ m) n = ap (◌∷◌ e.1.config) (configs-append m n)

module _ {B : Type 0} where
  -- Every entry points to a tailnet made from its configuration, and lies below the next id.
  pub record IsRestored (w : World B) : Type 0 where
    pub linked :
        All
          (λ e. get_elem? w.heap e.1.tailnet ≡ some (tailnet_of e.1.config))
          w.store.registry.tailnets
    pub keyed : All (λ e. e.1.config.id ≡ e.0) w.store.registry.tailnets
    pub below : All (λ e. e.0 <ℤ w.store.registry.next_id) w.store.registry.tailnets

get_elem?-append :
    {A : Type 0} (xs ys : List A) (i : ℕ) {a : A}
    → get_elem? xs i ≡ some a
    → get_elem? (xs ++ ys) i ≡ some a
get_elem?-append [] ys i e = cc
get_elem?-append (x ∷ xs) ys zero e = e
get_elem?-append (x ∷ xs) ys (suc i) e = get_elem?-append xs ys i e

get_elem?-append_last :
    {A : Type 0} (xs : List A) (a : A) → get_elem? (xs ++ a ∷ []) (length xs) ≡ some a
get_elem?-append_last [] a = refl
get_elem?-append_last (x ∷ xs) a = get_elem?-append_last xs a

next_mono : (k n c : ℤ) → c <ℤ pos max_int → k <ℤ n → k <ℤ (if int_le n c then int_succ c else n)
next_mono k n c room h = ground (arith, int_succ-lt c room)

next_above : (n c : ℤ) → c <ℤ pos max_int → c <ℤ (if int_le n c then int_succ c else n)
next_above n c room = ground (arith, int_succ-lt c room)

module _ {B : Type 0} where
  register-IsRestored :
      (c : PersistedTailnet) (w : World B)
      → c.id <ℤ pos max_int
      → IsRestored w
      → IsRestored (register c w)
  unfolding register
  register-IsRestored c w room v = record {
    linked =
        All-insert _ c.id _ w.store.registry.tailnets (get_elem?-append_last w.heap (tailnet_of c))
          (All-map _ _ (λ e h. get_elem?-append w.heap _ e.1.tailnet h) w.store.registry.tailnets
            v.linked);
    keyed = All-insert _ c.id _ w.store.registry.tailnets refl v.keyed;
    below =
        All-insert _ c.id _ w.store.registry.tailnets
          (next_above w.store.registry.next_id c.id room)
          (All-map _ _ (λ e. next_mono e.0 w.store.registry.next_id c.id room)
            w.store.registry.tailnets v.below);
  }

  register_all-IsRestored :
      (cs : List PersistedTailnet) (w : World B)
      → All (λ c. c.id <ℤ pos max_int) cs
      → IsRestored w
      → IsRestored (register_all cs w)
  unfolding register_all
  register_all-IsRestored [] w r v = v
  register_all-IsRestored (c ∷ cs) w r v =
      register_all-IsRestored cs (register c w) r.1 (register-IsRestored c w r.0 v)

  register-configs :
      (c : PersistedTailnet) (w : World B)
      → Absent c.id w.store.registry.tailnets
      → configs (register c w).store.registry.tailnets ≡ configs w.store.registry.tailnets ++ c ∷ []
  unfolding register configs
  register-configs c w h =
      rw (insert-Absent c.id _ w.store.registry.tailnets h)
        (configs-append w.store.registry.tailnets _)

  register-Absent :
      (k : ℤ) (c : PersistedTailnet) (w : World B)
      → k ≢ c.id
      → Absent k w.store.registry.tailnets
      → Absent k (register c w).store.registry.tailnets
  unfolding register
  register-Absent k c w ne h = All-insert _ c.id _ w.store.registry.tailnets (λ e. ne (sym e)) h

  still-Absent :
      (cs : List PersistedTailnet) (c : PersistedTailnet) (w : World B)
      → All (λ d. d.id ≢ c.id) cs
      → All (λ d. Absent d.id w.store.registry.tailnets) cs
      → All (λ d. Absent d.id (register c w).store.registry.tailnets) cs
  still-Absent [] c w n h = tt
  still-Absent (d ∷ cs) c w n h = (register-Absent d.id c w n.0 h.0, still-Absent cs c w n.1 h.1)

  register_all-configs :
      (cs : List PersistedTailnet) (w : World B)
      → HasDistinctIds cs
      → All (λ c. Absent c.id w.store.registry.tailnets) cs
      → configs (register_all cs w).store.registry.tailnets
        ≡ configs w.store.registry.tailnets ++ cs
  unfolding register_all
  register_all-configs [] w d h = sym (append-nil _)
  register_all-configs (c ∷ cs) w d h =
      register_all-configs cs (register c w) d.1 (still-Absent cs c w d.0 h.1)
      ∙ rw (register-configs c w h.0) (append_assoc (configs w.store.registry.tailnets) (c ∷ []) cs)

  reset : World B → World B
  reset w = with_registry (λ x. record x { tailnets = []; next_id = pos 1 }) w

  load_holds :
      (w : World B) (cs : List PersistedTailnet)
      → w.store.disk.file ≡ holds cs
      → load w ≡ (register_all cs (reset w), none)
  unfolding load reset
  load_holds w cs e = simp e

  -- If the config file holds a list with distinct ids below the largest `int`, then `Load` succeeds
  -- and restores that list in order, each entry under its id with a tailnet made from it, and a
  -- next id above all ids.
  pub load_lem :
      (w : World B) (cs : List PersistedTailnet)
      → w.store.disk.file ≡ holds cs
      → HasDistinctIds cs
      → All (λ c. c.id <ℤ pos max_int) cs
      → let w' = (load w).0 in
        ((load w).1 ≡ none) × (configs w'.store.registry.tailnets ≡ cs) × IsRestored w'
  unfolding reset configs
  load_lem w cs e d r = rw (load_holds w cs e) (
    refl,
    register_all-configs cs (reset w) d (Absent-nowhere cs),
    register_all-IsRestored cs (reset w) r (record { linked = tt; keyed = tt; below = tt }),
  )
