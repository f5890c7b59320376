-- ===== src/Tests/Web.antt =====
-- Packages internal/web, internal/ui and internal/pac.
use mathlib.Core.List.{Perm}
use tailhopper.Base.{
  Pairwise, false, ℕ, ℤ, pos, Str, codes, int_eq, int_eq_iff, Bool-cases, inl, inr, ◌≡◌, refl, true,
  Option, none, some, List, [], ◌∷◌, ◌++◌, map, arith, sym, subst,
}
use tailhopper.Base.Decimal.{print_int, atoi}
use tailhopper.Base.Maps.{lookup}
use tailhopper.Ts.State.{connected, stopped, message}
use tailhopper.Ts.Ipn.{Node}
use tailhopper.Ts.Start.{start}
use tailhopper.Ts.Logout.{LogoutCalls}
use tailhopper.Registry.Config.{Broadcaster}
use tailhopper.Registry.Config.{Store}
use tailhopper.Registry.Store.{hooks}
use tailhopper.Ts.Tailnet.{Tailnet, Hooks}
use tailhopper.Registry.World.{World, get}
use tailhopper.Ui.Card.{toggle_action}
use tailhopper.Ui.Card.Laws.{failed_start_stuck}
use tailhopper.Ui.Dashboard.{card_of, machines_of}
use tailhopper.Ui.Dashboard.Machines.{AreViews, InOrder, machines_lem}
use tailhopper.Ui.Card.{MachineView}
use tailhopper.Ui.Dashboard.Laws.{socks_lem}
use tailhopper.Pac.{head_line, last_lines, build_pac_for_tailnets}
use tailhopper.Pac.Laws.{claimed}
use tailhopper.Pac.Script.{find_proxy}
use tailhopper.Pac.Script.Rules.{answer_for}
use tailhopper.Pac.Script.Laws.{ArePlain, Routed, find_proxy_lem}
use tailhopper.Web.Handlers.Wired.{IsSound, IsAt, unconfigured}
use tailhopper.Web.Handlers.Deleting.{Deleted, delete_handler-Deleted}
use tailhopper.Web.Handlers.{tailnet_delete_handler}
use tailhopper.Ui.Assets.{render_toast, static_handler, not_found_handler}
use tailhopper.Web.Middleware.{write_header, write, new_response_writer, perform_all}
use tailhopper.Web.Middleware.Laws.{perform_all_lem}
use tailhopper.Web.Routes.{
  Request, add_request, start_request, stop_request, delete_request, page_request, dashboard, Pages,
  serve_all,
}
use tailhopper.Web.Routes.Laws.{serve_all-IsSound}
use tailhopper.Tests.Fixtures.{
  home, first_config, two_tailnets, second_in, idle_host, fresh_machine, calls_ok, closes_ok,
  outside, add_calls,
}

abbrev silent : Broadcaster (Unit {0})
silent = record { broadcast_tailnet_change = λ id x. x; broadcast_global_change = λ x. x }

-- One tailnet, which has claimed a suffix and is stopped.
abbrev one_tailnet : World (Unit {0})
one_tailnet = record {
  store = record two_tailnets {
    registry = record two_tailnets.registry {
      tailnets = (pos 1, record { tailnet = 0; config = first_config }) ∷ [];
    };
  };
  heap =
      record (second_in stopped) {
        id = pos 1;
        server = none;
        watcher = none;
        socks_proxy = none;
        claimed_magic_dns_suffix = home;
      }
      ∷ [];
  host = idle_host;
}

only : (k : ℤ) (a : ℕ) → get k one_tailnet ≡ some a → IsAt one_tailnet.heap a k
unfolding get lookup
only k a e = elim (Bool-cases (int_eq (pos 1) k)) [
  | inl i ↦
      let zero_at : a ≡ 0 = ground (arith, e, i) in
      subst (λ x. IsAt one_tailnet.heap x k) (sym zero_at) (_, refl, (int_eq_iff (pos 1) k).0 i)
  | inr i ↦ absurd (ground (arith, e, i))
]

one_tailnet-IsSound : IsSound one_tailnet
unfolding get lookup unconfigured
one_tailnet-IsSound = record { wired = only; few = omega arith }

abbrev pages : Pages
pages = record {
  to_lower = λ s. s;
  execute = λ d. some d.pac_file_url;
  static_handler = λ s. record { status = 200; body = s };
  redirect_body = [];
}

abbrev requests : List Request
requests =
    add_request add_calls calls_ok (codes "POST")
    ∷ start_request calls_ok (codes "3")
    ∷ stop_request closes_ok (codes "3")
    ∷ start_request calls_ok (codes "x")
    ∷ page_request pages (codes "127.0.0.1:8888") dashboard
    ∷ delete_request (record { local_client = none; logout = none }) (codes "1")
    ∷ []

toast : Str → Str → Option Str
toast = render_toast (λ name t. some t.message)

static_once :
    let (kept, h) = static_handler false none in
    static_handler true kept ≡ (kept, not_found_handler)
unfolding static_handler
static_once = refl

serve_all-IsSound_example :
    (w : World (Unit {0})) × (serve_all silent toast outside requests one_tailnet ≡ some w)
    × IsSound w
serve_all-IsSound_example =
    serve_all-IsSound silent toast outside requests one_tailnet one_tailnet-IsSound

one_read : atoi (codes "1") ≡ some (pos 1)
unfolding atoi
one_read = refl

one_found : get (pos 1) one_tailnet ≡ some 0
unfolding get lookup int_eq
one_found = refl

abbrev logs_out : LogoutCalls
logs_out = record { local_client = none; logout = some (message (codes "offline")) }

delete_handler-Deleted_example :
    Deleted
      (pos 1)
      one_tailnet
      (tailnet_delete_handler silent toast logs_out (codes "1") one_tailnet)
delete_handler-Deleted_example =
    delete_handler-Deleted silent toast logs_out (codes "1") (pos 1) one_tailnet 0
      one_tailnet-IsSound one_read one_found

card_hooks : Hooks (Store (Unit {0}))
card_hooks = hooks none (pos 2)

failed_start_stuck_example :
    toggle_action (
      card_of
        (λ s. s)
        (start card_hooks
          (record calls_ok { listen = some (message (codes "in use")) })
          fresh_machine).0.tailnet)
    ≡ codes "stop"
unfolding start card_hooks hooks
failed_start_stuck_example =
    (failed_start_stuck card_hooks (λ s. s)
      (record calls_ok { listen = some (message (codes "in use")) }) closes_ok fresh_machine refl
      (λ e. cc)).0

abbrev two_peers : List Node
two_peers =
    record {
      computed_name = codes "b";
      name = codes "b.home.";
      addresses = codes "100.1.1.1/32" ∷ [];
      online = none;
    }
    ∷ record {
      computed_name = codes "a";
      name = codes "a.home.";
      addresses = codes "100.1.1.2/32" ∷ [];
      online = some true;
    }
    ∷ []

machines_lem_example :
    (views : List MachineView) × AreViews two_peers views
    × Perm (machines_of (λ s. s) two_peers) views
    × Pairwise (InOrder (λ s. s)) (machines_of (λ s. s) two_peers)
machines_lem_example = machines_lem (λ s. s) two_peers

socks_lem_example : (card_of (λ s. s) (second_in connected)).socks_host ≡ codes "localhost"
socks_lem_example = (socks_lem (λ s. s) (second_in connected) refl (omega arith) (omega arith)).0

-- A tailnet that has claimed a suffix, and one that has not.
abbrev claimants : List Tailnet
claimants = second_in stopped ∷ record (second_in stopped) { claimed_magic_dns_suffix = home } ∷ []

abbrev database : Str
database = codes "db." ++ home

claimants-ArePlain : ArePlain claimants
claimants-ArePlain = ((_), (omega arith, _))

find_proxy_lem_example :
    (answer : Str) × (find_proxy (build_pac_for_tailnets claimants).0 database ≡ some answer)
    × Routed database claimants answer
    × ((build_pac_for_tailnets claimants).1
        ≡ map (λ t. t.claimed_magic_dns_suffix) (claimed claimants))
find_proxy_lem_example = find_proxy_lem claimants database claimants-ArePlain

to_home :
    find_proxy (build_pac_for_tailnets claimants).0 database ≡ some (answer_for (second_in stopped))
unfolding find_proxy build_pac_for_tailnets head_line last_lines print_int
to_home = refl

past_home :
    find_proxy (build_pac_for_tailnets claimants).0 (codes "db.example") ≡ some (codes "DIRECT")
unfolding find_proxy build_pac_for_tailnets head_line last_lines print_int
past_home = refl

perform_all_lem_example :
    (perform_all (write (codes "a") ∷ write_header 404 ∷ []) new_response_writer).status_code ≡ 200
perform_all_lem_example = (perform_all_lem (write (codes "a") ∷ write_header 404 ∷ [])).0
