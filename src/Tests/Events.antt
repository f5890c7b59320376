-- ===== src/Tests/Events.antt =====
-- A client of the event stream, and a tailnet that is added.
use tailhopper.Base.{pos, codes, ◌≡◌, ◌⊎◌, refl, true, false, Option, some, []}
use tailhopper.Registry.World.{World}
use tailhopper.Sse.{SseBroadcaster, global_event}
use tailhopper.Sse.Invariant.{Inv}
use tailhopper.Registry.Changes.{add}
use tailhopper.System.Events.{hub, adds, make, AllHear, changes_announced}
use tailhopper.Tests.Fixtures.{outside, add_calls, idle_host, empty_disk}
use tailhopper.Tests.Sse.{one_client, one_client-Inv}

abbrev listened : World (Option SseBroadcaster)
listened = record {
  store = record {
    registry = record { path = codes "tailhopper.json"; next_id = pos 1; tailnets = [] };
    disk = empty_disk;
    events = some one_client;
  };
  heap = [];
  host = idle_host;
}

changes_announced_example :
    let (w', ok) = make hub (adds outside add_calls []) listened in
    ((ok ≡ true)
      × (s' : SseBroadcaster) × (w'.store.events ≡ some s')
      × Inv s'
      × (s'.subscribers ≡ one_client.subscribers)
      × AllHear global_event one_client s')
    ⊎ ((ok ≡ false) × (w'.store.events ≡ some one_client))
changes_announced_example =
    changes_announced (adds outside add_calls []) listened one_client refl one_client-Inv

succeeds : (make hub (adds outside add_calls []) listened).1 ≡ true
unfolding make add
succeeds = refl
