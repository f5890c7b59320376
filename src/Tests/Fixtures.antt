-- ===== src/Tests/Fixtures.antt =====
-- Two tailnets, of which the first has claimed a suffix, and a connection that comes up.
use tailhopper.Base.{ℤ, pos, Str, codes, true, none, some, List, [], ◌∷◌}
use tailhopper.Ts.State.{State, user_enabled, connected, stopped}
use tailhopper.Ts.Ipn.{IpnState, ipn_running}
use tailhopper.Ts.Host.{Host}
use tailhopper.Ts.Tailnet.{Tailnet, Machine}
use tailhopper.Ts.Start.{StartCalls}
use tailhopper.Ts.Stop.{CloseCalls}
use tailhopper.Registry.Config.{PersistedTailnet, RegisteredTailnet, Disk, Store, missing, no_dir}
use tailhopper.Registry.World.{World}
use tailhopper.Registry.Changes.{Outside, AddCalls}

abbrev pub home : Str
home = codes "home.ts.net"

abbrev pub first_config : PersistedTailnet
first_config = record {
  id = pos 1;
  state_dir = codes "tailnets/1";
  socks_port = pos 1080;
  hostname = codes "box";
  user_enabled = true;
  claimed_magic_dns_suffix = home;
  terminal_error = [];
}

abbrev pub second_config : PersistedTailnet
second_config = record {
  id = pos 2;
  state_dir = codes "tailnets/2";
  socks_port = pos 1081;
  hostname = codes "box";
  user_enabled = true;
  claimed_magic_dns_suffix = [];
  terminal_error = [];
}

abbrev pub two_entries : List (ℤ × RegisteredTailnet)
two_entries =
    (pos 1, record { tailnet = 0; config = first_config })
    ∷ (pos 2, record { tailnet = 1; config = second_config })
    ∷ []

abbrev pub empty_disk : Disk
empty_disk = record { file = missing; save_ends = []; removed = [] }

abbrev pub two_tailnets : Store (Unit {0})
two_tailnets = record {
  registry = record { path = codes "tailhopper.json"; next_id = pos 3; tailnets = two_entries };
  disk = empty_disk;
  events = tt;
}

-- The same, with a disk whose next save fails.
abbrev pub failing : Store (Unit {0})
failing = record two_tailnets {
  disk = record empty_disk { save_ends = no_dir (codes "full") ∷ [] };
}

abbrev pub idle_host : Host
idle_host = record { next_handle = 5; proxies = []; servers = []; watchers = [] }

-- The second tailnet, in a state of choice.
abbrev pub second_in : State → Tailnet
second_in s = record {
  id = pos 2;
  socks_port = pos 1081;
  tsnet_state_dir = codes "tailnets/2";
  user_set_hostname = codes "box";
  server = some 3;
  watcher = some 4;
  socks_proxy = some 2;
  claimed_magic_dns_suffix = [];
  terminal_error = [];
  peers = [];
  login_url = [];
  current_state = s;
  self_node_hostname = [];
  user_state = user_enabled;
}

abbrev pub machine_in : State → Machine (Store (Unit {0}))
machine_in s = record {
  tailnet = second_in s;
  host = record { next_handle = 5; proxies = 2 ∷ []; servers = 3 ∷ []; watchers = 4 ∷ [] };
  outer = two_tailnets;
}

-- The second tailnet before its first start.
abbrev pub fresh_machine : Machine (Store (Unit {0}))
fresh_machine = record {
  tailnet = record (second_in stopped) { server = none; watcher = none; socks_proxy = none };
  host = idle_host;
  outer = two_tailnets;
}

abbrev pub running_home : IpnState
running_home = record {
  state = some ipn_running;
  err_message = none;
  browse_to_url = none;
  self_node = none;
  magic_dns_suffix = home;
  peers = [];
  display_messages = [];
}

abbrev pub calls_ok : StartCalls
calls_ok = record {
  listen = none;
  server_start = none;
  local_client = none;
  client = some 0;
  proxy_close = none;
  server_close = none;
}

abbrev pub closes_ok : CloseCalls
closes_ok = record { proxy_close = none; server_close = none }

abbrev pub world : World (Unit {0})
world = record {
  store = two_tailnets;
  heap = second_in stopped ∷ second_in connected ∷ [];
  host = idle_host;
}

abbrev pub outside : Outside
outside = record { sanitize_hostname = λ s. s; beside = λ p d n. d }

abbrev pub add_calls : AddCalls
add_calls = record { os_hostname = some (codes "laptop"); port_error = none; port = pos 40000 }
