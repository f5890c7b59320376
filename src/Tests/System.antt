-- ===== src/Tests/System.antt =====
-- The registry and its tailnets together.
use tailhopper.Base.{
  pos, codes, ◌∷◌, get_elem?, int_eq, ◌≡◌, ◌≢◌, ◌⊎◌, refl, Option, none, some, [], Pairwise, true,
  arith,
}
use tailhopper.Base.Maps.{lookup, insert, adjust}
use tailhopper.Ts.Start.{start}
use tailhopper.Registry.Store.{hooks, user_state_change, set_config}
use tailhopper.Ts.Tailnet.{Tailnet, new_tailnet}
use tailhopper.Ts.Persist.{persist}
use tailhopper.Registry.Config.{Broadcaster, RegisteredTailnet}
use tailhopper.Registry.World.{World}
use tailhopper.Registry.Changes.{add}
use tailhopper.Registry.Changes.Laws.{entries}
use tailhopper.Pac.{handler}
use tailhopper.Ts.State.{user_enabled, stopped}
use tailhopper.Registry.Running.{restore_enabled_tailnets}
use tailhopper.Registry.Running.Restore.{AreOk, IsUp, restore_lem}
use tailhopper.System.{Reach, here, next, acts, adds, starts, reacts, act_at}
use tailhopper.System.Inv.{Agrees, HasDistinctKeys}
use tailhopper.System.Laws.{IsJoined, Reach-Agrees}
use tailhopper.System.Pac.{pac_unambiguous}
use tailhopper.Tests.Fixtures.{
  outside, add_calls, calls_ok, closes_ok, running_home, idle_host, empty_disk,
}

abbrev pub nobody : Option (Broadcaster (Unit {0}))
nobody = none

abbrev pub no_tailnets : World (Unit {0})
no_tailnets = record {
  store = record {
    registry = record { path = codes "tailhopper.json"; next_id = pos 1; tailnets = [] };
    disk = empty_disk;
    events = tt;
  };
  heap = [];
  host = idle_host;
}

pub no_tailnets-IsJoined : IsJoined no_tailnets
unfolding lookup HasDistinctKeys
no_tailnets-IsJoined = record {
  linked = λ k r e. cc;
  keyed = λ k r e. cc;
  owner = λ a c k p q e f. cc;
  below = λ a k p e. cc;
  distinct = tt;
  unique = tt;
}

abbrev one_added : World (Unit {0})
one_added = (add nobody outside add_calls [] no_tailnets).0

-- One tailnet is added, starts, and comes up twice; the second time it claims its suffix.
abbrev connected_world : World (Unit {0})
connected_world = act_at nobody outside (reacts closes_ok running_home) 0 (
    act_at nobody outside (reacts closes_ok running_home) 0
      (act_at nobody outside (starts calls_ok) 0 one_added))

comes_up : Reach nobody outside no_tailnets connected_world
comes_up =
    next
      (next (next (next here (adds add_calls [] (omega arith))) (acts (starts calls_ok) 0))
        (acts (reacts closes_ok running_home) 0))
      (acts (reacts closes_ok running_home) 0)

connected_pac : Pairwise (λ s t. t ≢ s) (handler connected_world).1
connected_pac =
    pac_unambiguous nobody outside no_tailnets connected_world no_tailnets-IsJoined comes_up

abbrev started_world : World (Unit {0})
started_world = act_at nobody outside (starts calls_ok) 0 one_added

abbrev first_entry : RegisteredTailnet
first_entry = record {
  tailnet = 0;
  config = record {
    id = pos 1;
    state_dir = codes "tailnets";
    socks_port = pos 40000;
    hostname = codes "laptop-tailhopper";
    user_enabled = true;
    claimed_magic_dns_suffix = [];
    terminal_error = [];
  };
}

entry_found : lookup (pos 1) (entries started_world) ≡ some first_entry
unfolding lookup insert adjust int_eq add act_at start hooks user_state_change new_tailnet
    set_config
entry_found = refl

Reach-Agrees_example :
    (t : Tailnet) × (get_elem? started_world.heap 0 ≡ some t)
    × (t.id ≡ pos 1)
    × (first_entry.config.id ≡ pos 1)
    × Agrees (persist t) first_entry.config
Reach-Agrees_example =
    Reach-Agrees nobody outside (pos 1) first_entry no_tailnets-IsJoined
      (next (next here (adds add_calls [] (omega arith))) (acts (starts calls_ok) 0)) entry_found

-- The program comes up again with the tailnet of the file, which is to run.
abbrev saved_tailnet : Tailnet
saved_tailnet =
    new_tailnet (pos 1) (codes "tailnets") (codes "laptop-tailhopper") [] [] true (pos 40000)

abbrev loaded_world : World (Unit {0})
loaded_world = record no_tailnets {
  store = record {
    registry = record {
      path = codes "tailhopper.json";
      next_id = pos 2;
      tailnets = (pos 1, first_entry) ∷ [];
    };
    disk = empty_disk;
    events = tt;
  };
  heap = saved_tailnet ∷ [];
}

saved_found : lookup (pos 1) loaded_world.store.registry.tailnets ≡ some first_entry
unfolding lookup int_eq
saved_found = refl

calls_ok-AreOk : AreOk calls_ok
calls_ok-AreOk = record {
  listen = refl;
  server_start = refl;
  local_client = refl;
  client = λ e. cc;
}

restore_lem_example :
    ((saved_tailnet.user_state ≡ user_enabled)
      × (saved_tailnet.current_state ≡ stopped)
      × (t' : Tailnet) × (get_elem?
            (restore_enabled_tailnets nobody (λ k. calls_ok) loaded_world).heap
            0
          ≡ some t')
      × IsUp t')
    ⊎ (((saved_tailnet.user_state ≢ user_enabled) ⊎ (saved_tailnet.current_state ≢ stopped))
        × (get_elem? (restore_enabled_tailnets nobody (λ k. calls_ok) loaded_world).heap 0
            ≡ some saved_tailnet))
restore_lem_example =
    restore_lem nobody (λ k. calls_ok) loaded_world (pos 1) first_entry saved_tailnet saved_found
      refl calls_ok-AreOk
