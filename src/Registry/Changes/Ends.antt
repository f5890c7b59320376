-- ===== src/Registry/Changes/Ends.antt =====
-- The ways in which `Add` and `Delete` end, as equations on the entries and the heap.
use tailhopper.Base.{
  ℤ, Str, int_succ, length, ◌≡◌, ◌⊎◌, Bool, true, false, Option, [], ◌∷◌, ◌++◌, arith,
}
use tailhopper.Base.Maps.{insert, delete}
use tailhopper.Ts.Tailnet.{new_tailnet}
use tailhopper.Registry.Config.{RegisteredTailnet, Broadcaster}
use tailhopper.Registry.World.{World}
use tailhopper.Registry.Changes.{
  Outside, AddCalls, Added, added, not_added, add, delete_tailnet, new_config, hostname_for,
}
use tailhopper.Registry.Changes.Laws.{entries}

abbrev pub is_added : Added → Bool
is_added (added a) = true
is_added (not_added e) = false

module _ {B : Type 0} (b : Option (Broadcaster B)) (o : Outside) (c : AddCalls) where
  -- The three ways in which `Add` ends.
  pub add-ends :
      (given : Str) (w : World B)
      → let n = w.store.registry.next_id in
        let p = new_config o w.store.registry.path n (hostname_for o c.os_hostname given) c.port in
        let r : RegisteredTailnet = record { tailnet = length w.heap; config = p } in
        let heap = w.heap ++ new_tailnet n p.state_dir p.hostname [] [] false p.socks_port ∷ [] in
        let (w', x) = add b o c given w in
        ((x ≡ added (length w.heap)) × (w'.heap ≡ heap) × (entries w' ≡ insert n r (entries w)))
        ⊎ (((is_added x ≡ false) × (w'.heap ≡ w.heap) × (entries w' ≡ entries w))
            ⊎ ((is_added x ≡ false)
                × (w'.heap ≡ heap)
                × (entries w' ≡ delete n (insert n r (entries w)))))
  unfolding add new_config
  add-ends given w = ground arith

  pub add-next :
      (given : Str) (w : World B)
      → (add b o c given w).0.store.registry.next_id ≡ int_succ w.store.registry.next_id
  unfolding add
  add-next given w = ground arith

module _ {B : Type 0} (b : Option (Broadcaster B)) where
  pub delete-ends :
      (id : ℤ) (w : World B)
      → let w' = (delete_tailnet b id w).0 in
        (w'.heap ≡ w.heap)
        × (w'.store.registry.next_id ≡ w.store.registry.next_id)
        × ((entries w' ≡ delete id (entries w)) ⊎ (entries w' ≡ entries w))
  unfolding delete_tailnet
  delete-ends id w = ground arith
