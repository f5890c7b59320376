-- ===== src/Tests/Told.antt =====
-- A start that the dashboard hears of.
use tailhopper.Base.{pos, Option, ℕ, suc, get_elem?, ◌≡◌, ◌⊎◌, refl, some, [], ◌∷◌}
use tailhopper.Ts.Tailnet.{Tailnet, snapshot}
use tailhopper.Registry.Config.{Broadcaster}
use tailhopper.Registry.World.{World}
use tailhopper.Sse.{SseBroadcaster, tailnet_event}
use tailhopper.Sse.Invariant.{Inv}
use tailhopper.Sse.Before.{HaveHeard}
use tailhopper.System.Events.{hub}
use tailhopper.System.Heard.{act_heard}
use tailhopper.Tests.Sse.{one_client, one_client-Inv}
use tailhopper.System.{starts, act_at}
use tailhopper.System.Told.{act_announced}
use tailhopper.Tests.Fixtures.{outside, calls_ok, idle_host, two_tailnets, fresh_machine}

-- A broadcaster that counts the announcements.
abbrev counting : Broadcaster ℕ
counting = record { broadcast_tailnet_change = λ id n. suc n; broadcast_global_change = suc }

abbrev counted : World ℕ
counted = record {
  store = record { registry = two_tailnets.registry; disk = two_tailnets.disk; events = 0 };
  heap = fresh_machine.tailnet ∷ [];
  host = idle_host;
}

start_announced :
    let w' = act_at (some counting) outside (starts calls_ok) 0 counted in
    (t' : Tailnet) × (get_elem? w'.heap 0 ≡ some t')
    × ((snapshot t' ≡ snapshot fresh_machine.tailnet) ⊎ ((v : ℕ) × (w'.store.events ≡ suc v)))
start_announced =
    act_announced counting outside (starts calls_ok) 0 counted fresh_machine.tailnet refl
      (λ e g. cc)

abbrev listened : World (Option SseBroadcaster)
listened = record {
  store = record {
    registry = two_tailnets.registry;
    disk = two_tailnets.disk;
    events = some one_client;
  };
  heap = fresh_machine.tailnet ∷ [];
  host = idle_host;
}

act_heard_example :
    let w' = act_at (some hub) outside (starts calls_ok) 0 listened in
    (t' : Tailnet) × (s' : SseBroadcaster) × (get_elem? w'.heap 0 ≡ some t')
    × (w'.store.events ≡ some s')
    × Inv s'
    × (s'.subscribers ≡ one_client.subscribers)
    × ((snapshot t' ≡ snapshot fresh_machine.tailnet) ⊎ HaveHeard (tailnet_event (pos 2)) s')
act_heard_example =
    act_heard outside (starts calls_ok) 0 listened fresh_machine.tailnet one_client refl (λ e g. cc)
      refl one_client-Inv
