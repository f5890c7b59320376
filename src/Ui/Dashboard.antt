-- ===== src/Ui/Dashboard.antt =====
-- `ServeDashboard` of internal/ui/dashboard.go, up to the template that prints the data. The
-- lower-casing of names and the texts of addresses are the standard library's and tailcfg's.
pub mod Laws
pub mod Machines
use tailhopper.Base.{
  join, ℕ, ℤ, Str, codes, is_empty, str_eq, ltb, ◌==◌, Bool, true, false, not, ◌&&◌, ◌||◌, Option,
  none, some, List, [], ◌∷◌, ◌++◌, map, if◌then◌else◌, get_elem?,
}
use mathlib.Core.Option
use tailhopper.Base.Decimal.{print_int}
use tailhopper.Base.Sort.{sort}
use tailhopper.Ts.State.{State, connected, has_terminal_error, needs_login}
use tailhopper.Ts.Ipn.{Node}
use tailhopper.Ts.Tailnet.{Tailnet, TailnetSnapshot, snapshot}
use tailhopper.Registry.World.{World, list}
use tailhopper.Registry.Store.{has_unconfigured_tailnets}
use tailhopper.Ui.Card.{MachineView, TailnetCard}

pub record DashboardData : Type 0 where
  pub pac_file_url : Str
  pub tailnets : List TailnetCard
  pub has_unconfigured_tailnets : Bool
  pub has_tailnets : Bool

-- `SocksAddr`
unfoldable pub socks_addr : Tailnet → Str
socks_addr t = codes "localhost:" ++ print_int t.socks_port

-- `pac.URLPath`
abbrev pub url_path : Str
url_path = codes "/proxy.pac"

-- `s < t` on strings
unfoldable pub str_lt : Str → Str → Bool
str_lt [] [] = false
str_lt [] (d ∷ t) = true
str_lt (c ∷ s) [] = false
str_lt (c ∷ s) (d ∷ t) = ltb c d || ((c == d) && str_lt s t)

has_no : ℕ → Str → Bool
has_no k [] = true
has_no k (c ∷ s) = not (c == k) && has_no k s

cut : Str → Option (Str × Str)
cut [] = none
cut (c ∷ s) =
    let rest = cut s in if c == b':' then some ([], s) else Option.map (λ p. (c ∷ p.0, p.1)) rest

host_and_port : Option (Str × Str) → Str × Str
unfolding has_no
host_and_port none = ([], [])
host_and_port (some (host, port)) = if has_no b':' port then (host, port) else ([], [])

-- What `net.SplitHostPort` makes of a text without brackets: what stands before and after its only
-- colon, and two empty texts where it returns an error.
unfoldable pub split_host_port : Str → Str × Str
unfolding cut host_and_port
split_host_port s = host_and_port (cut s)

abbrev pub is_online : Option Bool → Bool
is_online (some true) = true
is_online _ = false

-- The view of one peer.
unfoldable pub machine_view : Node → MachineView
unfolding join
machine_view n = record {
  name = n.computed_name;
  dns_name = n.name;
  status_class = if is_online n.online then codes "online" else codes "offline";
  status_text = if is_online n.online then codes "online" else codes "offline";
  ips = join (codes ", ") n.addresses;
}

abbrev pub has_addresses : Node → Bool
has_addresses n = elim n.addresses [ [] ↦ false | a ∷ rest ↦ true ]

-- The loop over the peers.
unfoldable pub collect : List Node → List MachineView → List MachineView
collect [] machines = machines
collect (n ∷ peers) machines =
    if has_addresses n
    then collect peers (machines ++ machine_view n ∷ [])
    else collect peers machines

module _ (to_lower : Str → Str) where
  -- The `less` of the machines.
  unfoldable pub less_machine : MachineView → MachineView → Bool
  unfolding str_lt
  less_machine a b =
      if str_eq a.status_class b.status_class
      then str_lt (to_lower a.dns_name) (to_lower b.dns_name)
      else str_eq a.status_class (codes "online")

  unfoldable pub machines_of : List Node → List MachineView
  unfolding collect
  machines_of peers = sort less_machine (collect peers [])

  abbrev plain_card : Tailnet → TailnetCard
  plain_card t = record {
    id = t.id;
    base_domain =
        if is_empty (snapshot t).magic_dns_suffix
        then codes "Tailnet"
        else (snapshot t).magic_dns_suffix;
    socks_addr = [];
    socks_host = [];
    socks_port = [];
    machines = [];
    state_name = (snapshot t).state;
    user_state = (snapshot t).user_state;
    hostname = (snapshot t).hostname;
    auth_url = [];
    error_msg = [];
  }

  error_card : Str → TailnetCard → TailnetCard
  error_card text c = record c { error_msg = if is_empty text then codes "unknown error" else text }

  connected_card : Tailnet → TailnetCard → TailnetCard
  unfolding machines_of socks_addr split_host_port
  connected_card t c = record c {
    socks_addr = socks_addr t;
    socks_host = (split_host_port (socks_addr t)).0;
    socks_port = (split_host_port (socks_addr t)).1;
    machines = machines_of (snapshot t).peers;
    state_name = connected;
  }

  card_in : State → Tailnet → TailnetCard → TailnetCard
  unfolding error_card connected_card
  card_in has_terminal_error t c = error_card (snapshot t).terminal_error c
  card_in needs_login t c = record c { auth_url = (snapshot t).login_url }
  card_in connected t c = connected_card t c
  card_in s t c = c

  -- The card of one tailnet.
  unfoldable pub card_of : Tailnet → TailnetCard
  unfolding card_in snapshot
  card_of t = card_in (snapshot t).state t (plain_card t)

  -- The cards of the tailnets at the addresses; one that is not in the heap does not occur.
  unfoldable pub cards : List Tailnet → List ℕ → List TailnetCard
  unfolding card_of
  cards heap [] = []
  cards heap (a ∷ rest) =
      let more = cards heap rest in
      elim (get_elem? heap a) [ none ↦ more | some t ↦ card_of t ∷ more ]

  -- `ServeDashboard`: the data that the template gets.
  unfoldable pub serve_dashboard : {B : Type 0} → Str → World B → DashboardData
  unfolding cards
  serve_dashboard listen_addr w = record {
    pac_file_url = codes "http://" ++ listen_addr ++ url_path;
    tailnets = cards w.heap (list w);
    has_unconfigured_tailnets = has_unconfigured_tailnets w.store;
    has_tailnets = not (elim (list w) [ [] ↦ true | a ∷ rest ↦ false ]);
  }
