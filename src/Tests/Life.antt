-- ===== src/Tests/Life.antt =====
-- A program that adds a tailnet, and one that comes up after it.
use tailhopper.Base.{ℤ, false, pos, max_int, codes, ◌<ℤ◌, ◌≡◌, ◌≢◌, refl, [], Pairwise, arith}
use tailhopper.Registry.World.{World, new_registry, list}
use tailhopper.Base.Sort.{sort}
use tailhopper.Ts.Start.{StartCalls}
use tailhopper.Registry.Running.{restore_enabled_tailnets}
use tailhopper.Main.{main, serves}
use tailhopper.Registry.Changes.{add}
use tailhopper.Pac.{handler}
use tailhopper.System.{adds}
use tailhopper.System.File.{IsLoadable}
use tailhopper.System.Life.{Life, born, goes, restarts, pac_over_restarts}
use tailhopper.Tests.Fixtures.{outside, add_calls, calls_ok, idle_host, empty_disk}
use tailhopper.Tests.System.{nobody}

abbrev all_ok : ℤ → StartCalls
all_ok id = calls_ok

abbrev first_world : World (Unit {0})
first_world =
    restore_enabled_tailnets nobody all_ok
      (new_registry (codes "./tailhopper.json") empty_disk tt idle_host).1

comes_up_first :
    main nobody false all_ok [] empty_disk tt idle_host
    ≡ serves (codes "127.0.0.1:8888") first_world
unfolding main new_registry
comes_up_first = refl

room : first_world.store.registry.next_id <ℤ pos max_int
unfolding new_registry restore_enabled_tailnets list sort
room = omega arith

abbrev added_world : World (Unit {0})
added_world = (add nobody outside add_calls [] first_world).0

abbrev second_world : World (Unit {0})
second_world =
    restore_enabled_tailnets nobody all_ok
      (new_registry (codes "./tailhopper.json") added_world.store.disk tt idle_host).1

comes_up_again :
    main nobody false all_ok (codes "9000") added_world.store.disk tt idle_host
    ≡ serves (codes "127.0.0.1:9000") second_world
unfolding main new_registry restore_enabled_tailnets add list sort
comes_up_again = refl

two_lives : Life nobody outside first_world second_world
two_lives =
    restarts all_ok (codes "9000") (codes "127.0.0.1:9000") tt idle_host
      (goes born (adds add_calls [] room)) comes_up_again

pac_over_restarts_example :
    Pairwise (λ s t. t ≢ s) (handler second_world).1 × IsLoadable second_world.store.disk.file
pac_over_restarts_example =
    pac_over_restarts nobody outside all_ok [] (codes "127.0.0.1:8888") empty_disk tt idle_host
      first_world second_world tt comes_up_first two_lives
