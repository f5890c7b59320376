-- ===== src/Tests/MapOrder.antt =====
-- A map of two tailnets, ranged over in both orders.
use mathlib.Core.List.{reverse}
use tailhopper.Base.{
  ℤ, pos, max_int, ◌<ℤ◌, Str, int_eq, int_eq_iff, int_succ, ◌≡◌, refl, List, [], arith,
}
use tailhopper.Base.Maps.{lookup, insert, HasDistinctKeys}
use tailhopper.Base.Ascending.{IsSameMap}
use tailhopper.Registry.Config.{RegisteredTailnet}
use tailhopper.Registry.Store.{claim, has_unconfigured_tailnets}
use tailhopper.Registry.World.{World, list}
use tailhopper.Registry.Changes.{add}
use tailhopper.Registry.Changes.Laws.{entries}
use tailhopper.Pac.{handler}
use tailhopper.Ui.Dashboard.{serve_dashboard}
use tailhopper.System.{here, next, adds}
use tailhopper.System.Laws.{IsJoined, Reach-IsJoined}
use tailhopper.System.MapOrder.{reordered, map_order_free}
use tailhopper.Tests.Fixtures.{outside, add_calls}
use tailhopper.Tests.System.{nobody, no_tailnets, no_tailnets-IsJoined}

abbrev one : World (Unit {0})
one = (add nobody outside add_calls [] no_tailnets).0

abbrev two : World (Unit {0})
two = (add nobody outside add_calls [] one).0

still_room : one.store.registry.next_id <ℤ pos max_int
unfolding add int_succ
still_room = omega arith

two-IsJoined : IsJoined two
two-IsJoined =
    Reach-IsJoined nobody outside no_tailnets-IsJoined
      (next (next here (adds add_calls [] (omega arith))) (adds add_calls [] still_room))

abbrev backwards : List (ℤ × RegisteredTailnet)
backwards = reverse (entries two)

backwards-HasDistinctKeys : HasDistinctKeys backwards
unfolding add insert int_eq int_succ HasDistinctKeys lookup
backwards-HasDistinctKeys = (refl, (refl, tt))

same_map : IsSameMap (entries two) backwards
unfolding add insert int_eq int_succ lookup
same_map k = ground (arith, int_eq_iff (pos 1) k, int_eq_iff (pos 2) k)

map_order_free_example :
    (list (reordered backwards two) ≡ list two)
    × (handler (reordered backwards two) ≡ handler two)
    × (serve_dashboard (λ s. s) [] (reordered backwards two) ≡ serve_dashboard (λ s. s) [] two)
    × (has_unconfigured_tailnets (reordered backwards two).store
        ≡ has_unconfigured_tailnets two.store)
    × ((id : ℤ) (suffix : Str)
        → (claim nobody id suffix (reordered backwards two).store).1
          ≡ (claim nobody id suffix two.store).1)
map_order_free_example =
    map_order_free (λ s. s) [] nobody two backwards two-IsJoined backwards-HasDistinctKeys same_map
