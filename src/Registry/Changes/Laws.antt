-- ===== src/Registry/Changes/Laws.antt =====
-- What `Add` and `Delete` guarantee.
use tailhopper.Base.{
  ℕ, ℤ, pos, Str, is_empty, max_int, int_eq, int_eq_iff, int_eq_refl, int_succ, int_succ-lt,
  pos_part, neg_part, ◌≡◌, ◌≢◌, ◌<ℤ◌, refl, sym, ap, true, Option, none, some, List, [], ◌∷◌, any,
  All, All-map, arith, length, if◌then◌else◌,
}
use tailhopper.Base.Maps.{
  lookup, insert, delete, lookup-insert, lookup-insert_ne, lookup-delete, lookup_absent, All-insert,
}
use tailhopper.Ts.State.{Error}
use tailhopper.Registry.Config.{
  RegisteredTailnet, Broadcaster, Store, tailnet_not_found, holds, configs,
}
use tailhopper.Registry.Store.{has_unconfigured_tailnets}
use tailhopper.Registry.World.{World, get}
use tailhopper.Registry.Changes.{
  Outside, AddCalls, added, not_added, add, delete_tailnet, new_config, hostname_for,
}

abbrev pub entries : {B : Type 0} → World B → List (ℤ × RegisteredTailnet)
entries w = w.store.registry.tailnets

-- All ids lie below the next one, which has not yet reached the largest `int`.
pub record HasRoom {B : Type 0} (w : World B) : Type 0 where
  pub below : All (λ e. e.0 <ℤ w.store.registry.next_id) w.store.registry.tailnets
  pub room : w.store.registry.next_id <ℤ pos max_int

absent_below : (n k : ℤ) → k <ℤ n → k ≢ n
absent_below n k h e = omega (arith, ap pos_part e, ap neg_part e)

below_succ : (k n : ℤ) → n <ℤ pos max_int → k <ℤ n → k <ℤ int_succ n
below_succ k n room h = omega (arith, int_succ-lt n room)

any-insert :
    (k : ℤ) (r : RegisteredTailnet) (m : List (ℤ × RegisteredTailnet))
    → r.config.claimed_magic_dns_suffix ≡ []
    → any (λ e. is_empty e.1.config.claimed_magic_dns_suffix) (insert k r m) ≡ true
unfolding insert
any-insert k r [] e = ground arith
any-insert k r ((j, x) ∷ m) e = ground (arith, any-insert k r m e)

added_unconfigured :
    {B : Type 0} (st : Store B) (m : List (ℤ × RegisteredTailnet)) (k : ℤ) (r : RegisteredTailnet)
    → st.registry.tailnets ≡ insert k r m
    → r.config.claimed_magic_dns_suffix ≡ []
    → has_unconfigured_tailnets st ≡ true
unfolding has_unconfigured_tailnets
added_unconfigured st m k r placed e = rw placed (any-insert k r m e)

module _ {B : Type 0} (b : Option (Broadcaster B)) (o : Outside) (c : AddCalls) where
  -- The next id is free.
  next_id_free : (w : World B) → HasRoom w → lookup w.store.registry.next_id (entries w) ≡ none
  next_id_free w v = lookup_absent _ (entries w) (
      All-map _ (λ e. e.0 ≢ w.store.registry.next_id) (λ e. absent_below _ e.0) (entries w) v.below)

  pub add-entries :
      (given : Str) (w : World B) (a : ℕ)
      → (add b o c given w).1 ≡ added a
      → (a ≡ length w.heap)
        × (entries (add b o c given w).0
            ≡ insert w.store.registry.next_id
                (record {
                  tailnet = a;
                  config =
                      new_config o w.store.registry.path w.store.registry.next_id
                        (hostname_for o c.os_hostname given)
                        c.port;
                })
                (entries w))
        × ((add b o c given w).0.store.disk.file ≡ holds (configs (entries (add b o c given w).0)))
        × ((add b o c given w).0.store.registry.next_id ≡ int_succ w.store.registry.next_id)
  unfolding add
  add-entries given w a e = ground arith

  -- If all ids lie below the next id, which is not the largest `int`, and `Add` fails, then every
  -- id stands for what it stood for before.
  pub add_rolled_back :
      (given : Str) (w : World B) (e : Error) (j : ℤ)
      → HasRoom w
      → (add b o c given w).1 ≡ not_added e
      → lookup j (entries (add b o c given w).0) ≡ lookup j (entries w)
  unfolding add
  add_rolled_back given w e j v h =
      let n = w.store.registry.next_id in
      let r : RegisteredTailnet = record {
        tailnet = length w.heap;
        config = new_config o w.store.registry.path n (hostname_for o c.os_hostname given) c.port;
      } in
      ground (
        arith,
        next_id_free w v,
        lookup-delete n j (insert n r (entries w)),
        lookup-insert n j r (entries w),
        int_eq_iff n j,
      )

  -- If all ids lie below the next id, which is not the largest `int`, and `Add` succeeds, then the
  -- next id was free and now stands for the new tailnet, all other entries are as before, there is
  -- an unconfigured tailnet, the file holds the new entries, and all ids lie below the new next id.
  pub add_lem :
      (given : Str) (w : World B) (a : ℕ)
      → HasRoom w
      → (add b o c given w).1 ≡ added a
      → let n = w.store.registry.next_id in
        let w' = (add b o c given w).0 in
        (get n w ≡ none)
        × (get n w' ≡ some (length w.heap))
        × ((j : ℤ) → j ≢ n → lookup j (entries w') ≡ lookup j (entries w))
        × (has_unconfigured_tailnets w'.store ≡ true)
        × (w'.store.disk.file ≡ holds (configs (entries w')))
        × All (λ e. e.0 <ℤ w'.store.registry.next_id) (entries w')
  unfolding get new_config
  add_lem given w a v e =
      let (at, placed, file, next) = add-entries given w a e in
      let n = w.store.registry.next_id in
      (
        rw (next_id_free w v),
        rw placed (rw (lookup-insert, int_eq_refl) (ap some at)),
        λ j ne. rw placed (lookup-insert_ne n j _ (entries w) (λ eq. ne (sym eq))),
        added_unconfigured (add b o c given w).0.store (entries w) n _ placed refl,
        file,
        rw (placed, next)
            (All-insert _ n _ (entries w) (int_succ-lt n v.room) (
              All-map _ (λ e. e.0 <ℤ int_succ n) (λ e. below_succ e.0 n v.room) (entries w)
                v.below)),
      )

module _ {B : Type 0} (b : Option (Broadcaster B)) where
  delete-entries :
      (id : ℤ) (w : World B) (r : RegisteredTailnet)
      → lookup id (entries w) ≡ some r
      → (entries (delete_tailnet b id w).0 ≡ delete id (entries w))
        × ((delete_tailnet b id w).1 ≡ none)
  unfolding delete_tailnet
  delete-entries id w r known = ground arith

  delete_unknown :
      (id : ℤ) (w : World B)
      → lookup id (entries w) ≡ none
      → delete_tailnet b id w ≡ (w, some tailnet_not_found)
  unfolding delete_tailnet
  delete_unknown id w e = ground arith

  -- A delete of an id that is known succeeds, removes exactly the entry of that id, and a second
  -- delete of it is refused and changes nothing.
  pub delete_lem :
      (id : ℤ) (w : World B) (r : RegisteredTailnet)
      → lookup id (entries w) ≡ some r
      → let w' = (delete_tailnet b id w).0 in
        ((delete_tailnet b id w).1 ≡ none)
        × ((j : ℤ) → lookup j (entries w') ≡ (if int_eq id j then none else lookup j (entries w)))
        × (delete_tailnet b id w' ≡ (w', some tailnet_not_found))
  delete_lem id w r known =
      let (left, done) = delete-entries id w r known in
      (
        done,
        λ j. rw left (lookup-delete id j (entries w)),
        delete_unknown id _ (rw left (rw (lookup-delete, int_eq_refl))),
      )
