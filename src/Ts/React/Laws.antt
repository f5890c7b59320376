-- ===== src/Ts/React/Laws.antt =====
-- What a notification does to a tailnet: which states it can reach, what it leaves alone, and what
-- a duplicate claim of a suffix leads to.
use tailhopper.Base.{Str, ◌≡◌, ◌≢◌, ◌⊎◌, refl, false, none, some, [], arith}
use tailhopper.Ts.State.{
  State, connected, has_terminal_error, logging_out, needs_login, needs_machine_auth, started,
  stopped, user_disabled, already_claimed, already_claimed_text,
}
use tailhopper.Ts.Ipn.{IpnState, ipn_running}
use tailhopper.Ts.Processor.{process, always, one_of, process_ipn}
use tailhopper.Ts.Stop.{CloseCalls}
use tailhopper.Ts.Stop.Laws.{HoldsNothing}
use tailhopper.Ts.Tailnet.{Machine, Hooks, with_state}
use tailhopper.Ts.React.Steps.{
  login_skips, auth_skips, connects, claim_taken, hostname_frame, claim-ClaimFrame,
}
use tailhopper.Ts.React.{
  is_needs_login, is_needs_machine_auth, maybe_claim_magic_dns_suffix,
  maybe_transition_to_needs_login, maybe_transition_to_connected,
  maybe_transition_to_needs_machine_auth, update_peers, maybe_update_self_node_hostname, process_in,
  terminal_cleanup, react_to_ipn_state_change,
}

-- The edges of the state machine that a notification can take.
abbrev pub CanReach : State → State → Type 0
CanReach connected t =
    (t ≡ connected) ⊎ (t ≡ needs_login) ⊎ (t ≡ needs_machine_auth) ⊎ (t ≡ has_terminal_error)
CanReach started t = (t ≡ started) ⊎ (t ≡ needs_login) ⊎ (t ≡ needs_machine_auth) ⊎ (t ≡ connected)
CanReach needs_login t = (t ≡ needs_login) ⊎ (t ≡ needs_machine_auth) ⊎ (t ≡ connected)
CanReach needs_machine_auth t =
    (t ≡ needs_machine_auth) ⊎ (t ≡ needs_login) ⊎ (t ≡ connected) ⊎ (t ≡ has_terminal_error)
CanReach s t = t ≡ s

module _ {R : Type 0} where
  -- The resources that the tailnet holds.
  pub record SameHandles (m m' : Machine R) : Type 0 where
    pub server : m'.tailnet.server ≡ m.tailnet.server
    pub watcher : m'.tailnet.watcher ≡ m.tailnet.watcher
    pub socks_proxy : m'.tailnet.socks_proxy ≡ m.tailnet.socks_proxy
    pub host : m'.host ≡ m.host
    pub id : m'.tailnet.id ≡ m.tailnet.id

  pub cleanup-state :
      (c : CloseCalls) (m : Machine R)
      → (terminal_cleanup c m).tailnet.current_state ≡ m.tailnet.current_state
  unfolding terminal_cleanup
  cleanup-state c m = ground arith

  pub cleanup_other :
      (c : CloseCalls) (m : Machine R)
      → m.tailnet.current_state ≢ has_terminal_error
      → terminal_cleanup c m ≡ m
  unfolding terminal_cleanup
  cleanup_other c m ne = ground arith

  pub cleanup_terminal :
      (c : CloseCalls) (m : Machine R)
      → m.tailnet.current_state ≡ has_terminal_error
      → (terminal_cleanup c m).tailnet
        ≡ record m.tailnet { server = none; watcher = none; socks_proxy = none }
  unfolding terminal_cleanup
  cleanup_terminal c m e = ground arith

module _ {R : Type 0} (h : Hooks R) where
  -- A failed claim in the connected state, when the notification asks for no other state.
  connected_taken :
      (s : IpnState) (m : Machine R)
      → is_needs_login s.state ≡ false
      → is_needs_machine_auth s.state ≡ false
      → (process_in h connected s m).0
        ≡ (maybe_update_self_node_hostname s
            (update_peers s (maybe_claim_magic_dns_suffix h s m).0).0).0
  unfolding process_in process always one_of process_ipn
  connected_taken s m p q = rw (login_skips s _ p) (rw (auth_skips s _ q))

  -- The claim and the transition to the connected state, one after the other.
  auth_taken :
      (s : IpnState) (m : Machine R)
      → s.state ≡ some ipn_running
      → (process_in h needs_machine_auth s m).0
        ≡ with_state connected
            (maybe_update_self_node_hostname s (maybe_claim_magic_dns_suffix h s m).0).0
  unfolding process_in process always one_of process_ipn
  auth_taken s m e = rw (login_skips s _ (rw e)) (rw (connects s _ e))

  pub react-tailnet :
      (c : CloseCalls) (s : IpnState) (m : Machine R)
      → (react_to_ipn_state_change h c s m).tailnet
        ≡ (terminal_cleanup c (process_in h m.tailnet.current_state s m).0).tailnet
  unfolding react_to_ipn_state_change
  react-tailnet c s m = ground arith

  pub process_in-CanReach :
      (k : State) (s : IpnState) (m : Machine R)
      → m.tailnet.current_state ≡ k
      → CanReach k (process_in h k s m).0.tailnet.current_state
  unfolding process_in process always one_of process_ipn maybe_transition_to_needs_login
      maybe_transition_to_connected maybe_transition_to_needs_machine_auth update_peers
  process_in-CanReach connected s m e =
      let m1 = (maybe_claim_magic_dns_suffix h s m).0 in
      ground (arith, hostname_frame s (update_peers s m1).0, claim-ClaimFrame h s m)
  process_in-CanReach started s m e = ground (arith, hostname_frame s m)
  process_in-CanReach needs_login s m e = ground (arith, hostname_frame s m)
  process_in-CanReach needs_machine_auth s m e =
      let m1 = (maybe_claim_magic_dns_suffix h s m).0 in
      ground (arith, hostname_frame s m1, claim-ClaimFrame h s m)
  process_in-CanReach _ s m e = e

  pub process_in-SameHandles :
      (k : State) (s : IpnState) (m : Machine R) → SameHandles m (process_in h k s m).0
  unfolding process_in process always one_of process_ipn maybe_transition_to_needs_login
      maybe_transition_to_connected maybe_transition_to_needs_machine_auth update_peers
  process_in-SameHandles connected s m =
      let m1 = (maybe_claim_magic_dns_suffix h s m).0 in
      ground (arith, hostname_frame s (update_peers s m1).0, claim-ClaimFrame h s m)
  process_in-SameHandles started s m = ground (arith, hostname_frame s m)
  process_in-SameHandles needs_login s m = ground (arith, hostname_frame s m)
  process_in-SameHandles needs_machine_auth s m =
      let m1 = (maybe_claim_magic_dns_suffix h s m).0 in
      ground (arith, hostname_frame s m1, claim-ClaimFrame h s m)
  process_in-SameHandles _ s m = ground arith

  -- From each state a notification leads only along the edges of `CanReach`: no state is left but
  -- connected, started, needs-login and needs-machine-auth, and the fatal-error state is entered
  -- from connected and needs-machine-auth alone.
  pub react-CanReach :
      (c : CloseCalls) (s : IpnState) (m : Machine R)
      → CanReach m.tailnet.current_state (react_to_ipn_state_change h c s m).tailnet.current_state
  unfolding terminal_cleanup
  react-CanReach c s m =
      rw (react-tailnet c s m) (rw (cleanup-state c) (process_in-CanReach _ s m refl))

  -- A tailnet that is not running ignores notifications.
  pub react_ignored :
      (c : CloseCalls) (s : IpnState) (m : Machine R)
      → (m.tailnet.current_state ≡ stopped) ⊎ (m.tailnet.current_state ≡ logging_out)
      → react_to_ipn_state_change h c s m ≡ m
  unfolding react_to_ipn_state_change process_in
  react_ignored c s m e = ground (arith, cleanup_other c m)

  -- If a connected tailnet with no claimed suffix gets a running notification with a suffix that is
  -- not empty, and the claim is answered by an already-claimed error, then it ends in the fatal-
  -- error state, disabled, with the text of that error, and with server, watcher and proxy given
  -- up.
  pub duplicate_claim_terminal :
      (c : CloseCalls) (s : IpnState) (m : Machine R) (r : R) (taken : Str)
      → m.tailnet.current_state ≡ connected
      → m.tailnet.claimed_magic_dns_suffix ≡ []
      → s.magic_dns_suffix ≢ []
      → s.state ≡ some ipn_running
      → h.claim m.tailnet.id s.magic_dns_suffix m.outer ≡ (r, some (already_claimed taken))
      → let t = (react_to_ipn_state_change h c s m).tailnet in
        (t.current_state ≡ has_terminal_error)
        × (t.user_state ≡ user_disabled)
        × (t.terminal_error ≡ already_claimed_text taken)
        × HoldsNothing t
  unfolding update_peers
  duplicate_claim_terminal c s m r taken st u ne run e =
      let m1 = (maybe_claim_magic_dns_suffix h s m).0 in
      let m2 = (update_peers s m1).0 in
      let p = (process_in h connected s m).0 in
      rw (react-tailnet c s m) (
        rw st (
          ground (
            arith,
            connected_taken s m (rw run) (rw run),
            claim_taken h s m r taken u ne e,
            hostname_frame s m2,
            cleanup_terminal c p,
          )))

  -- If a tailnet that waits for machine approval and has no claimed suffix gets a running
  -- notification with a suffix that is not empty, and the claim is answered by an already-claimed
  -- error, then it ends in the connected state, although it is disabled and has the text of the
  -- fatal error, and it keeps its server and proxy.
  pub duplicate_claim_overridden :
      (c : CloseCalls) (s : IpnState) (m : Machine R) (r : R) (taken : Str)
      → m.tailnet.current_state ≡ needs_machine_auth
      → m.tailnet.claimed_magic_dns_suffix ≡ []
      → s.magic_dns_suffix ≢ []
      → s.state ≡ some ipn_running
      → h.claim m.tailnet.id s.magic_dns_suffix m.outer ≡ (r, some (already_claimed taken))
      → let t = (react_to_ipn_state_change h c s m).tailnet in
        (t.current_state ≡ connected)
        × (t.user_state ≡ user_disabled)
        × (t.terminal_error ≡ already_claimed_text taken)
        × (t.server ≡ m.tailnet.server)
        × (t.socks_proxy ≡ m.tailnet.socks_proxy)
  duplicate_claim_overridden c s m r taken st u ne run e =
      let m1 = (maybe_claim_magic_dns_suffix h s m).0 in
      let p = (process_in h needs_machine_auth s m).0 in
      rw (react-tailnet c s m) (
        rw st (
          ground (
            arith,
            auth_taken s m run,
            claim_taken h s m r taken u ne e,
            hostname_frame s m1,
            cleanup_other c p,
          )))
