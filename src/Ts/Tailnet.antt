-- ===== src/Ts/Tailnet.antt =====
-- The record `Tailnet` of internal/ts/tailnet.go and its constructor, snapshot and notifications.
-- The registry and the callbacks are the record `Hooks` of functions on an outer state `R`; a
-- method runs on the tailnet, the host's resources and that outer state. Logging is left out.
use tailhopper.Base.{ℕ, ℤ, Str, is_empty, Bool, Option, none, some, List, [], if◌then◌else◌}
use tailhopper.Ts.State.{
  UserState, user_enabled, user_disabled, State, has_terminal_error, stopped, Error,
}
use tailhopper.Ts.Ipn.{Node}
use tailhopper.Ts.Host.{Host}

-- `MagicDNSSuffixRegistry` and the three callbacks, which may be nil.
pub record Hooks (R : Type 0) : Type 0 where
  pub claim : ℤ → Str → R → R × Option Error
  pub broadcast : Option (R → R)
  pub on_user_state_change : Option (UserState → R → R)
  pub on_terminal_error_change : Option (Str → R → R)

-- A pointer to a server, a watcher or a proxy is its handle; nil is `none`.
pub record Tailnet : Type 0 where
  pub id : ℤ
  pub socks_port : ℤ
  pub tsnet_state_dir : Str
  pub user_set_hostname : Str
  pub server : Option ℕ
  pub watcher : Option ℕ
  pub socks_proxy : Option ℕ
  pub claimed_magic_dns_suffix : Str
  pub terminal_error : Str
  pub peers : List Node
  pub login_url : Str
  pub current_state : State
  pub self_node_hostname : Str
  pub user_state : UserState

pub record TailnetSnapshot : Type 0 where
  pub id : ℤ
  pub state : State
  pub user_state : UserState
  pub magic_dns_suffix : Str
  pub hostname : Str
  pub login_url : Str
  pub peers : List Node
  pub terminal_error : Str

initial_state : Str → State
initial_state terminal_error = if is_empty terminal_error then stopped else has_terminal_error

initial_user_state : Str → Bool → UserState
initial_user_state terminal_error enabled =
    if is_empty terminal_error
    then (if enabled then user_enabled else user_disabled)
    else user_disabled

-- `NewTailnet`
unfoldable pub new_tailnet : ℤ → Str → Str → Str → Str → Bool → ℤ → Tailnet
unfolding initial_state initial_user_state
new_tailnet id state_dir hostname claimed terminal_error enabled port = record {
  id = id;
  socks_port = port;
  tsnet_state_dir = state_dir;
  user_set_hostname = hostname;
  server = none;
  watcher = none;
  socks_proxy = none;
  claimed_magic_dns_suffix = claimed;
  terminal_error = terminal_error;
  peers = [];
  login_url = [];
  current_state = initial_state terminal_error;
  self_node_hostname = [];
  user_state = initial_user_state terminal_error enabled;
}

unfoldable pub snapshot : Tailnet → TailnetSnapshot
snapshot t = record {
  id = t.id;
  state = t.current_state;
  user_state = t.user_state;
  magic_dns_suffix = t.claimed_magic_dns_suffix;
  hostname = if is_empty t.self_node_hostname then t.user_set_hostname else t.self_node_hostname;
  login_url = t.login_url;
  peers = t.peers;
  terminal_error = t.terminal_error;
}

-- What a method of one tailnet runs on.
pub record Machine (R : Type 0) : Type 0 where
  pub tailnet : Tailnet
  pub host : Host
  pub outer : R

module _ {R : Type 0} where
  abbrev pub on_host : (Host → Host) → Machine R → Machine R
  on_host f m = record m { host = f m.host }

  abbrev pub with_state : State → Machine R → Machine R
  with_state s m = record m { tailnet = record m.tailnet { current_state = s } }

  abbrev pub with_user_state : UserState → Machine R → Machine R
  with_user_state u m = record m { tailnet = record m.tailnet { user_state = u } }

  -- A callback that may be nil.
  abbrev pub call : Option (R → R) → Machine R → Machine R
  call none m = m
  call (some f) m = record m { outer = f m.outer }

  abbrev pub call_with : {A : Type 0} → Option (A → R → R) → A → Machine R → Machine R
  call_with none a m = m
  call_with (some f) a m = record m { outer = f a m.outer }

module _ {R : Type 0} (h : Hooks R) where
  unfoldable pub notify : Machine R → Machine R
  notify m = call h.broadcast m

  unfoldable pub set_state : State → Machine R → Machine R
  unfolding notify
  set_state s m = notify (with_state s m)

  unfoldable pub notify_user_state_change : UserState → Machine R → Machine R
  notify_user_state_change u m = call_with h.on_user_state_change u m

  unfoldable pub notify_terminal_error_change : Str → Machine R → Machine R
  notify_terminal_error_change text m = call_with h.on_terminal_error_change text m

  -- `t.userState = u; t.notifyUserStateChange(t.userState)`
  unfoldable pub record_user_state : UserState → Machine R → Machine R
  unfolding notify_user_state_change
  record_user_state u m = notify_user_state_change u (with_user_state u m)
