-- ===== src/System/MapOrder.antt =====
-- What the program shows does not depend on the order in which Go ranges over the map of tailnets.
use tailhopper.Base.{
  ℤ, Str, ◌≡◌, refl, sym, ap, ◌∙◌, Option, some, List, map, All-map, any, Bool, arith,
}
use tailhopper.Base.Maps.{lookup, HasDistinctKeys}
use tailhopper.Base.Sort.{sort, any-sort}
use tailhopper.Base.Ascending.{IsSameMap, less_key, sort_same_map, map-sort}
use tailhopper.Registry.Config.{RegisteredTailnet, Broadcaster, write_file}
use tailhopper.Registry.Store.{
  claim, save_locked, set_config, has_suffix, has_unconfigured_tailnets,
}
use tailhopper.Registry.World.{World, list, less_id, id_at, with_registry}
use tailhopper.Registry.Changes.Laws.{entries}
use tailhopper.Pac.{handler}
use tailhopper.Ui.Dashboard.{serve_dashboard}
use tailhopper.System.Laws.{IsJoined}
use tailhopper.System.Pac.{All-found}

-- The world whose map is ranged over in another order.
abbrev pub reordered : {B : Type 0} → List (ℤ × RegisteredTailnet) → World B → World B
reordered m w = with_registry (λ r. record r { tailnets = m }) w

any-same_map :
    (p : ℤ × RegisteredTailnet → Bool) (m n : List (ℤ × RegisteredTailnet))
    → sort less_key m ≡ sort less_key n
    → any p m ≡ any p n
any-same_map p m n e = sym (any-sort less_key p m) ∙ ap (any p) e ∙ any-sort less_key p n

module _ {B : Type 0} (w : World B) (i : IsJoined w) where
  HasItsKey : ℤ × RegisteredTailnet → Type 0
  HasItsKey e = id_at w.heap e.1.tailnet ≡ e.0

  -- The tailnet of an entry has the key as its id.
  found-HasItsKey : (e : ℤ × RegisteredTailnet) → lookup e.0 (entries w) ≡ some e.1 → HasItsKey e
  unfolding HasItsKey id_at
  found-HasItsKey e f = let (p, at, agree) = i.linked e.0 e.1 f in ground (arith, at)

  list_by_key :
      (m : List (ℤ × RegisteredTailnet))
      → HasDistinctKeys m
      → IsSameMap (entries w) m
      → list (reordered m w) ≡ map (λ e. e.1.tailnet) (sort less_key m)
  unfolding list HasItsKey
  list_by_key m d s =
      map-sort less_key (less_id w.heap) (λ e. e.1.tailnet) HasItsKey
        (λ x y p q. ground (arith, p, q)) m
        (All-map _ HasItsKey (λ e f. found-HasItsKey e (s e.0 ∙ f)) m (All-found m d))

module _ {B : Type 0} (to_lower : Str → Str) (addr : Str) (b : Option (Broadcaster B)) (w : World B)
    (m : List (ℤ × RegisteredTailnet)) where
  claim_order_free :
      (id : ℤ) (s : Str)
      → any (has_suffix s) m ≡ any (has_suffix s) (entries w)
      → lookup id m ≡ lookup id (entries w)
      → (claim b id s (reordered m w).store).1 ≡ (claim b id s w.store).1
  unfolding claim save_locked write_file set_config
  claim_order_free id s e f = ground (arith, e, f)

  -- If the entries and tailnets of a world belong together (`IsJoined`), and a list of entries with
  -- distinct ids is the same map, then with the entries in the order of that list `List`, the PAC
  -- file, the data of the dashboard, `HasUnconfiguredTailnets` and the error of every `Claim` are
  -- the same.
  pub map_order_free :
      IsJoined w
      → HasDistinctKeys m
      → IsSameMap (entries w) m
      → (list (reordered m w) ≡ list w)
        × (handler (reordered m w) ≡ handler w)
        × (serve_dashboard to_lower addr (reordered m w) ≡ serve_dashboard to_lower addr w)
        × (has_unconfigured_tailnets (reordered m w).store ≡ has_unconfigured_tailnets w.store)
        × ((id : ℤ) (suffix : Str)
            → (claim b id suffix (reordered m w).store).1 ≡ (claim b id suffix w.store).1)
  unfolding handler serve_dashboard has_unconfigured_tailnets
  map_order_free i d s =
      let sorted = sort_same_map (entries w) m i.distinct d s in
      let same : list (reordered m w) ≡ list w =
        list_by_key w i m d s
        ∙ ap (map (λ e. e.1.tailnet)) (sym sorted)
        ∙ sym (list_by_key w i (entries w) i.distinct (λ k. refl)) in
      let test = any-same_map _ m (entries w) (sym sorted) in
      let answer = λ (id : ℤ) (suffix : Str).
        claim_order_free id suffix (any-same_map (has_suffix suffix) m (entries w) (sym sorted))
          (sym (s id)) in
      (same, rw same refl, rw same (rw test refl), test, answer)
