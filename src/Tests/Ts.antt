-- ===== src/Tests/Ts.antt =====
-- Package ts.
use tailhopper.Base.{
  pos, Str, codes, str_eq, ◌≡◌, ◌≢◌, ◌⊎◌, ◌↔◌, inl, refl, true, Option, none, some, [], ◌∷◌, ◌++◌,
  arith,
}
use tailhopper.Ts.State.{
  connected, needs_machine_auth, stopped, started, has_terminal_error, message,
}
use tailhopper.Ts.Suffix.{dot, extract_magic_dns_suffix, trim_dot}
use tailhopper.Ts.Suffix.Laws.{Lacks, extract_lem}
use tailhopper.Ts.Tailnet.{Machine}
use tailhopper.Ts.Start.{StartCalls, start}
use tailhopper.Ts.Start.Laws.{IsFresh, start_failed, start-none_iff}
use tailhopper.Ts.Stop.{stop}
use tailhopper.Ts.Stop.Laws.{start-stop}
use tailhopper.Ts.Logout.{LogoutCalls, logout, logout_start, logout_end, dial, nil_dereference}
use tailhopper.Ts.Logout.Laws.{react_all, logout_interleaved, logout_keeps_resources}
use tailhopper.Ts.Processor.{process, one_of, always, process_ipn}
use tailhopper.Ts.React.{
  react_to_ipn_state_change, process_in, maybe_transition_to_needs_login,
  maybe_transition_to_needs_machine_auth, maybe_transition_to_connected,
  maybe_update_self_node_hostname,
}
use tailhopper.Ts.React.Laws.{
  CanReach, react-CanReach, duplicate_claim_terminal, duplicate_claim_overridden,
}
use tailhopper.Ts.React.Honest.{process_in_honest}
use tailhopper.Ts.Invariant.{Inv, here, next, starts, Reach-Inv, Reach-dial}
use tailhopper.Registry.Config.{Store}
use tailhopper.Registry.Store.{hooks, claim}
use tailhopper.Tests.Fixtures.{
  home, two_tailnets, machine_in, fresh_machine, running_home, calls_ok, closes_ok, idle_host,
}

abbrev no_broadcaster : Option (tailhopper.Registry.Config.Broadcaster (Unit {0}))
no_broadcaster = none

react : Unit {0}
unfolding process_in process one_of always process_ipn maybe_transition_to_needs_login
    maybe_transition_to_needs_machine_auth maybe_transition_to_connected
    maybe_update_self_node_hostname
react = tt

unfoldable pub second_hooks : tailhopper.Ts.Tailnet.Hooks (Store (Unit {0}))
second_hooks = hooks no_broadcaster (pos 2)

extract_test : extract_magic_dns_suffix (codes "box.home.ts.net.") ≡ home
unfolding extract_magic_dns_suffix
extract_test = refl

no_suffix_test : extract_magic_dns_suffix (codes "localhost") ≡ []
unfolding extract_magic_dns_suffix
no_suffix_test = refl

extract_lem_example :
    (Lacks dot (trim_dot (codes "box.home.ts.net."))
      × (extract_magic_dns_suffix (codes "box.home.ts.net.") ≡ []))
    ⊎ ((host : Str) × (trim_dot (codes "box.home.ts.net.")
          ≡ host ++ dot ∷ extract_magic_dns_suffix (codes "box.home.ts.net."))
        × Lacks dot host)
extract_lem_example = extract_lem (codes "box.home.ts.net.")

duplicate_claim_terminal_example :
    (react_to_ipn_state_change second_hooks closes_ok running_home
      (machine_in connected)).tailnet.current_state
    ≡ has_terminal_error
unfolding second_hooks hooks claim str_eq
duplicate_claim_terminal_example =
    (duplicate_claim_terminal second_hooks closes_ok running_home (machine_in connected)
      two_tailnets home refl refl (λ e. cc) refl refl).0

duplicate_claim_overridden_example :
    (react_to_ipn_state_change second_hooks closes_ok running_home
      (machine_in needs_machine_auth)).tailnet.current_state
    ≡ connected
unfolding second_hooks hooks claim str_eq
duplicate_claim_overridden_example =
    (duplicate_claim_overridden second_hooks closes_ok running_home (machine_in needs_machine_auth)
      two_tailnets home refl refl (λ e. cc) refl refl).0

react-CanReach_example :
    CanReach connected
      (react_to_ipn_state_change second_hooks closes_ok running_home
        (machine_in connected)).tailnet.current_state
react-CanReach_example = react-CanReach second_hooks closes_ok running_home (machine_in connected)

abbrev quiet : tailhopper.Ts.Ipn.IpnState
quiet = record running_home { state = none }

process_in_honest_example :
    (process_in second_hooks started quiet (machine_in started)).0.tailnet
    ≡ (machine_in started).tailnet
unfolding react
process_in_honest_example = process_in_honest second_hooks started quiet (machine_in started) refl

IsFresh-idle_host : IsFresh idle_host
IsFresh-idle_host = record { proxies_below = tt; servers_below = tt; watchers_below = tt }

start-stop_example :
    (stop second_hooks closes_ok (start second_hooks calls_ok fresh_machine).0).0.host.proxies ≡ []
start-stop_example =
    (start-stop second_hooks calls_ok closes_ok fresh_machine 0 refl IsFresh-idle_host refl refl
      refl refl refl refl).0

abbrev port_taken : StartCalls
port_taken = record calls_ok { listen = some (message (codes "address in use")) }

start_failed_example :
    (start second_hooks port_taken fresh_machine).1 ≡ some (message (codes "address in use"))
start_failed_example =
    (start_failed second_hooks port_taken fresh_machine (message (codes "address in use")) refl
      IsFresh-idle_host (inl refl) refl).0

-- The local client cannot be had and the server closes: no error is returned, nothing runs.
abbrev no_client : StartCalls
no_client = record calls_ok { local_client = some (message (codes "no client")); client = none }

start-none_iff_example : ((start second_hooks no_client fresh_machine).1 ≡ none) ↔ (
    (fresh_machine.tailnet.current_state ≡ stopped)
    × (no_client.listen ≡ none)
    × (no_client.server_start ≡ none)
    × (((no_client.local_client ≡ none) × (no_client.client ≢ none))
        ⊎ ((no_client.local_client ≢ none) × (no_client.server_close ≡ none))))
start-none_iff_example = start-none_iff second_hooks no_client fresh_machine

start_silent_failure :
    ((start second_hooks no_client fresh_machine).1 ≡ none)
    × ((start second_hooks no_client fresh_machine).0.tailnet.current_state ≡ stopped)
unfolding start second_hooks hooks
start_silent_failure = (refl, refl)

abbrev logout_ok : LogoutCalls
logout_ok = record { local_client = none; logout = none }

logout_interleaved_example :
    logout_end second_hooks logout_ok (logout_start second_hooks (machine_in connected)).1 (
      react_all second_hooks
        ((closes_ok, running_home) ∷ [])
        (logout_start second_hooks (machine_in connected)).0)
    ≡ logout second_hooks logout_ok (machine_in connected)
logout_interleaved_example =
    logout_interleaved second_hooks logout_ok ((closes_ok, running_home) ∷ [])
      (machine_in connected) (inl refl)

logout_keeps_resources_example :
    (logout second_hooks logout_ok (machine_in connected)).0.host.proxies ≡ 2 ∷ []
logout_keeps_resources_example =
    (logout_keeps_resources second_hooks logout_ok (machine_in connected) (inl refl)).5

fresh-Inv : Inv fresh_machine.tailnet
fresh-Inv = ground arith

Reach-Inv_example : Inv (start second_hooks calls_ok fresh_machine).0.tailnet
Reach-Inv_example = Reach-Inv second_hooks fresh-Inv (next here (starts calls_ok))

abbrev pub blank_machine : Machine (Store (Unit {0}))
blank_machine = record {
  tailnet = tailhopper.Ts.Tailnet.new_tailnet (pos 2) [] [] [] [] true (pos 1081);
  host = idle_host;
  outer = two_tailnets;
}

dial_of_new :
    dial (start second_hooks calls_ok blank_machine).0.tailnet (codes "tcp") (codes "db:5432")
    ≢ nil_dereference
dial_of_new =
    Reach-dial second_hooks (pos 2) [] [] [] [] true (pos 1081) idle_host two_tailnets (codes "tcp")
      (codes "db:5432") (next here (starts calls_ok))
