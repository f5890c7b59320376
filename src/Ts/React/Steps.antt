-- ===== src/Ts/React/Steps.antt =====
-- What each helper of `reactToIPNStateChange` changes, and when it does nothing.
use tailhopper.Base.{
  Str, str_eq_iff, ◌≡◌, ◌≢◌, ◌⊎◌, refl, true, false, Option, none, some, [], arith,
}
use tailhopper.Ts.State.{
  connected, has_terminal_error, user_disabled, Error, already_claimed, message,
  already_claimed_text,
}
use tailhopper.Ts.Ipn.{IpnState, ipn_running, Node}
use tailhopper.Ts.Tailnet.{Tailnet, Machine, Hooks, with_state}
use tailhopper.Ts.React.{
  is_needs_login, is_needs_machine_auth, is_running, maybe_claim_magic_dns_suffix,
  maybe_transition_to_needs_login, maybe_transition_to_connected,
  maybe_transition_to_needs_machine_auth, maybe_update_self_node_hostname, hostname_of,
  set_terminal_error, after_claim,
}

module _ {R : Type 0} where
  pub login_skips :
      (s : IpnState) (m : Machine R)
      → is_needs_login s.state ≡ false
      → maybe_transition_to_needs_login s m ≡ (m, false)
  unfolding maybe_transition_to_needs_login
  login_skips s m e = rw e

  pub auth_skips :
      (s : IpnState) (m : Machine R)
      → is_needs_machine_auth s.state ≡ false
      → maybe_transition_to_needs_machine_auth s m ≡ (m, false)
  unfolding maybe_transition_to_needs_machine_auth
  auth_skips s m e = rw e

  pub connected_skips :
      (s : IpnState) (m : Machine R)
      → is_running s.state ≡ false
      → maybe_transition_to_connected s m ≡ (m, false)
  unfolding maybe_transition_to_connected
  connected_skips s m e = rw e

  pub connects :
      (s : IpnState) (m : Machine R)
      → s.state ≡ some ipn_running
      → maybe_transition_to_connected s m ≡ (with_state connected m, true)
  unfolding maybe_transition_to_connected
  connects s m e = rw e

  -- Only the hostname of the own node changes.
  hostname_of_frame :
      (n : Option Node) (m : Machine R)
      → (hostname_of n m).0 ≡ record m {
        tailnet = record m.tailnet {
          self_node_hostname = (hostname_of n m).0.tailnet.self_node_hostname;
        };
      }
  unfolding hostname_of
  hostname_of_frame none m = refl
  hostname_of_frame (some n) m = ground arith

  pub hostname_frame :
      (s : IpnState) (m : Machine R)
      → (maybe_update_self_node_hostname s m).0 ≡ record m {
        tailnet = record m.tailnet {
          self_node_hostname = (maybe_update_self_node_hostname s m).0.tailnet.self_node_hostname;
        };
      }
  unfolding maybe_update_self_node_hostname
  hostname_frame s m = hostname_of_frame s.self_node m

module _ {R : Type 0} (h : Hooks R) where
  -- The tailnet that a fatal error leaves.
  abbrev pub failed_with : Str → Tailnet → Tailnet
  failed_with text t = record t {
    terminal_error = text;
    user_state = user_disabled;
    current_state = has_terminal_error;
  }

  pub set_terminal_error-tailnet :
      (text : Str) (m : Machine R)
      → (set_terminal_error h text m).0.tailnet ≡ failed_with text m.tailnet
  unfolding set_terminal_error
  set_terminal_error-tailnet text m = ground (arith, str_eq_iff m.tailnet.terminal_error text)

  pub set_terminal_error-host :
      (text : Str) (m : Machine R) → (set_terminal_error h text m).0.host ≡ m.host
  unfolding set_terminal_error
  set_terminal_error-host text m = ground arith

  -- A claim is made: a suffix is known and none is claimed.
  pub claim_made :
      (s : IpnState) (m : Machine R)
      → m.tailnet.claimed_magic_dns_suffix ≡ []
      → s.magic_dns_suffix ≢ []
      → maybe_claim_magic_dns_suffix h s m
        ≡ after_claim h s.magic_dns_suffix m (h.claim m.tailnet.id s.magic_dns_suffix m.outer)
  unfolding maybe_claim_magic_dns_suffix
  claim_made s m u ne = ground arith

  -- What a claim leaves alone: everything but the suffix and, after a duplicate, the marks of a
  -- fatal error.
  pub record ClaimFrame (m m' : Machine R) : Type 0 where
    pub server : m'.tailnet.server ≡ m.tailnet.server
    pub watcher : m'.tailnet.watcher ≡ m.tailnet.watcher
    pub socks_proxy : m'.tailnet.socks_proxy ≡ m.tailnet.socks_proxy
    pub host : m'.host ≡ m.host
    pub id : m'.tailnet.id ≡ m.tailnet.id
    pub state :
        (m'.tailnet.current_state ≡ m.tailnet.current_state)
        ⊎ (m'.tailnet.current_state ≡ has_terminal_error)

  after_claim-ClaimFrame :
      (suffix : Str) (m : Machine R) (a : R × Option Error)
      → ClaimFrame m (after_claim h suffix m a).0
  unfolding after_claim
  after_claim-ClaimFrame suffix m (r, none) = ground arith
  after_claim-ClaimFrame suffix m (r, some (already_claimed k)) =
      let text = already_claimed_text k in
      let t = set_terminal_error-tailnet text (record m { outer = r }) in
      let x = set_terminal_error-host text (record m { outer = r }) in ground (arith, t, x)
  after_claim-ClaimFrame suffix m (r, some (message text)) = ground arith

  pub claim-ClaimFrame :
      (s : IpnState) (m : Machine R) → ClaimFrame m (maybe_claim_magic_dns_suffix h s m).0
  unfolding maybe_claim_magic_dns_suffix
  claim-ClaimFrame s m = ground (
    arith,
    after_claim-ClaimFrame s.magic_dns_suffix m (h.claim m.tailnet.id s.magic_dns_suffix m.outer),
  )

  -- The registry answers that the suffix is taken.
  pub claim_taken :
      (s : IpnState) (m : Machine R) (r : R) (taken : Str)
      → m.tailnet.claimed_magic_dns_suffix ≡ []
      → s.magic_dns_suffix ≢ []
      → h.claim m.tailnet.id s.magic_dns_suffix m.outer ≡ (r, some (already_claimed taken))
      → (maybe_claim_magic_dns_suffix h s m).0.tailnet
        ≡ failed_with (already_claimed_text taken) m.tailnet
  unfolding after_claim
  claim_taken s m r taken u ne e =
      rw (claim_made s m u ne)
        (rw e (set_terminal_error-tailnet (already_claimed_text taken) (record m { outer = r })))
