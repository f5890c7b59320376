-- ===== src/Tests/Race.antt =====
-- Two add requests at once.
use tailhopper.Base.{
  pos, max_int, ◌<ℤ◌, codes, int_eq, int_succ, ◌≡◌, refl, Option, none, some, [], arith,
}
use tailhopper.Base.Maps.{lookup, insert}
use tailhopper.Ts.Tailnet.{new_tailnet}
use tailhopper.Registry.Store.{hooks, user_state_change, set_config}
use tailhopper.Registry.Config.{Broadcaster}
use tailhopper.Registry.World.{World}
use tailhopper.Registry.Changes.Laws.{HasRoom}
use tailhopper.Web.Handlers.{Response, check_add, after_check}
use tailhopper.Web.Handlers.Frame.{bare_entries}
use tailhopper.Web.Handlers.Wired.{unconfigured}
use tailhopper.Web.Handlers.Race.{add_race}
use tailhopper.Tests.Fixtures.{outside, add_calls, calls_ok}
use tailhopper.Tests.System.{no_tailnets}

abbrev deaf : Broadcaster (Unit {0})
deaf = record { broadcast_tailnet_change = λ id x. x; broadcast_global_change = λ x. x }

abbrev world_after : World (Unit {0}) → Option (World (Unit {0}) × Response) → World (Unit {0})
world_after w none = w
world_after w (some (w', r)) = w'

abbrev created : Response
created = record { status = 201; body = [] }

abbrev both_checked : Option Response
both_checked = check_add deaf (codes "POST") no_tailnets

abbrev after_one : World (Unit {0})
after_one =
    world_after no_tailnets (after_check deaf both_checked outside add_calls calls_ok no_tailnets)

abbrev after_two : World (Unit {0})
after_two =
    world_after after_one (after_check deaf both_checked outside add_calls calls_ok after_one)

empty-HasRoom : HasRoom no_tailnets
empty-HasRoom = record { below = tt; room = omega arith }

passes : both_checked ≡ none
unfolding check_add
passes = refl

first_created :
    after_check deaf both_checked outside add_calls calls_ok no_tailnets ≡ some (after_one, created)
unfolding check_add after_check
first_created = refl

second_created :
    after_check deaf both_checked outside add_calls calls_ok after_one ≡ some (after_two, created)
unfolding check_add after_check new_tailnet hooks user_state_change lookup insert int_eq set_config
second_created = refl

still_room : after_one.store.registry.next_id <ℤ pos max_int
unfolding check_add after_check new_tailnet hooks user_state_change lookup insert int_eq set_config
    int_succ
still_room = omega arith

add_race_example : unconfigured (bare_entries after_two.store) ≡ 2
add_race_example =
    add_race deaf outside add_calls add_calls calls_ok calls_ok no_tailnets after_one after_two
      created created empty-HasRoom still_room passes first_created refl second_created refl
