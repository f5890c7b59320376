-- ===== src/Ts/React/Honest.antt =====
-- A reaction that reports no change has changed nothing of the tailnet, so the dashboard misses no
-- change.
use tailhopper.Base.{Str, ◌≡◌, refl, false, Option, none, some, arith}
use tailhopper.Ts.State.{
  State, connected, started, needs_login, needs_machine_auth, Error, already_claimed, message,
  already_claimed_text,
}
use tailhopper.Ts.Ipn.{IpnState}
use tailhopper.Ts.Processor.{process_ipn, always, one_of}
use tailhopper.Ts.Processor.Laws.{IsHonest, process_honest}
use tailhopper.Ts.Tailnet.{Tailnet, Machine, Hooks}
use tailhopper.Ts.React.{
  maybe_claim_magic_dns_suffix, maybe_transition_to_needs_login, maybe_transition_to_connected,
  maybe_transition_to_needs_machine_auth, update_peers, maybe_update_self_node_hostname,
  set_terminal_error, after_claim, process_in,
}

module _ {R : Type 0} where
  abbrev view : Machine R → Tailnet
  view m = m.tailnet

  login-IsHonest : IsHonest view maybe_transition_to_needs_login
  unfolding maybe_transition_to_needs_login
  login-IsHonest s m e = ground arith

  auth-IsHonest : IsHonest view maybe_transition_to_needs_machine_auth
  unfolding maybe_transition_to_needs_machine_auth
  auth-IsHonest s m e = ground arith

  connected-IsHonest : IsHonest view maybe_transition_to_connected
  unfolding maybe_transition_to_connected
  connected-IsHonest s m e = ground arith

  peers-IsHonest : IsHonest view update_peers
  unfolding update_peers
  peers-IsHonest s m e = ground arith

  hostname-IsHonest : IsHonest view maybe_update_self_node_hostname
  unfolding maybe_update_self_node_hostname
  hostname-IsHonest s m e = ground arith

module _ {R : Type 0} (h : Hooks R) where
  set_terminal_error_honest :
      (text : Str) (m : Machine R)
      → (set_terminal_error h text m).1 ≡ false
      → (set_terminal_error h text m).0.tailnet ≡ m.tailnet
  unfolding set_terminal_error
  set_terminal_error_honest text m e = ground arith

  after_claim_honest :
      (suffix : Str) (m : Machine R) (a : R × Option Error)
      → (after_claim h suffix m a).1 ≡ false
      → (after_claim h suffix m a).0.tailnet ≡ m.tailnet
  unfolding after_claim
  after_claim_honest suffix m (r, none) e = ground arith
  after_claim_honest suffix m (r, some (already_claimed k)) e =
      set_terminal_error_honest (already_claimed_text k) (record m { outer = r }) e
  after_claim_honest suffix m (r, some (message text)) e = refl

  claim-IsHonest : IsHonest view (maybe_claim_magic_dns_suffix h)
  unfolding maybe_claim_magic_dns_suffix
  claim-IsHonest s m e = ground (
    arith,
    after_claim_honest s.magic_dns_suffix m (h.claim m.tailnet.id s.magic_dns_suffix m.outer),
  )

  -- If the reaction to a notification reports no change, in any state, then the tailnet is the one
  -- from before.
  pub process_in_honest :
      (k : State) (s : IpnState) (m : Machine R)
      → (process_in h k s m).1 ≡ false
      → (process_in h k s m).0.tailnet ≡ m.tailnet
  unfolding process_in process_ipn always one_of
  process_in_honest connected s m e =
      process_honest view _ m (claim-IsHonest, (peers-IsHonest, (hostname-IsHonest, tt)))
        (login-IsHonest, (auth-IsHonest, tt)) e
  process_in_honest started s m e =
      process_honest view _ m (hostname-IsHonest, tt)
        (login-IsHonest, (auth-IsHonest, (connected-IsHonest, tt))) e
  process_in_honest needs_login s m e =
      process_honest view _ m (hostname-IsHonest, tt) (auth-IsHonest, (connected-IsHonest, tt)) e
  process_in_honest needs_machine_auth s m e =
      process_honest view _ m (claim-IsHonest, (hostname-IsHonest, tt))
        (login-IsHonest, (connected-IsHonest, tt)) e
  process_in_honest _ s m e = refl
