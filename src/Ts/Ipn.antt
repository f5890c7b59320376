-- ===== src/Ts/Ipn.antt =====
-- `IPNState` and its `refresh`, of internal/ts/watcher.go, and what the package reads of the
-- notifications. A pointer that may be nil is an `Option`.
pub mod Text
use tailhopper.Base.{ℕ, Str, is_empty, Bool, not, Option, none, some, List, if◌then◌else◌}
use tailhopper.Ts.Suffix.{extract_magic_dns_suffix}

-- The values of `ipn.State` that the program names; every other value is `other n`.
pub data IpnValue : Type 0 where
  ipn_needs_login ipn_needs_machine_auth ipn_running : IpnValue
  other : ℕ → IpnValue

-- What the program reads of a valid `tailcfg.NodeView`: `ComputedName()`, `Name()`, the texts of
-- `Addresses()`, and `Online()`, which may be unknown.
pub record Node : Type 0 where
  pub computed_name : Str
  pub name : Str
  pub addresses : List Str
  pub online : Option Bool

pub record NetMap : Type 0 where
  pub self_node : Option Node
  pub peers : List Node
  pub display_messages : List Str

-- `ipn.Notify`
pub record Notify : Type 0 where
  pub state : Option IpnValue
  pub err_message : Option Str
  pub browse_to_url : Option Str
  pub net_map : Option NetMap

-- `DisplayMessages` is kept by the ids of the messages; their contents are never read.
pub record IpnState : Type 0 where
  pub state : Option IpnValue
  pub err_message : Option Str
  pub browse_to_url : Option Str
  pub self_node : Option Node
  pub magic_dns_suffix : Str
  pub peers : List Node
  pub display_messages : List Str

abbrev or_else {ℓ} : {A : Type ℓ} → Option A → Option A → Option A
or_else none old = old
or_else (some new) old = some new

-- `if magicDNSSuffix != "" { s.MagicDNSSuffix = magicDNSSuffix }`
abbrev non_empty_or : Str → Str → Str
non_empty_or new old = if is_empty new then old else new

refresh_suffix : Option Node → Str → Str
refresh_suffix none old = old
refresh_suffix (some node) old =
    if not (is_empty node.name) then non_empty_or (extract_magic_dns_suffix node.name) old else old

refresh_net_map : Option NetMap → IpnState → IpnState
unfolding refresh_suffix
refresh_net_map none s = s
refresh_net_map (some n) s = record s {
  self_node = n.self_node;
  magic_dns_suffix = refresh_suffix n.self_node s.magic_dns_suffix;
  peers = n.peers;
  display_messages = n.display_messages;
}

unfoldable pub refresh : IpnState → Notify → IpnState
unfolding refresh_net_map
refresh s n = refresh_net_map n.net_map (record s {
  state = or_else n.state s.state;
  err_message = or_else n.err_message s.err_message;
  browse_to_url = or_else n.browse_to_url s.browse_to_url;
})
