-- ===== src/Ts/React.antt =====
-- `reactToIPNStateChange` of internal/ts/tailnet.go and its locked helpers.
pub mod Steps
pub mod Laws
pub mod Honest
pub mod Kept
pub mod Told
use tailhopper.Base.{
  ℕ, Str, is_empty, str_eq, Bool, true, false, not, ◌&&◌, ◌||◌, Option, none, some, List, [], ◌∷◌,
  if◌then◌else◌,
}
use tailhopper.Ts.State.{
  State, connected, has_terminal_error, needs_login, needs_machine_auth, started, user_disabled,
  is_terminal, is_user_disabled, Error, already_claimed, message, already_claimed_text,
}
use tailhopper.Ts.Ipn.{
  IpnState, IpnValue, ipn_needs_login, ipn_needs_machine_auth, ipn_running, Node,
}
use tailhopper.Ts.Processor.{Op, process_ipn, always, one_of, process}
use tailhopper.Ts.Host.{Host, close_proxy, close_server, close_watcher}
use tailhopper.Ts.Stop.{CloseCalls}
use tailhopper.Ts.Tailnet.{
  Tailnet, Machine, Hooks, on_host, with_state, notify, notify_terminal_error_change,
  record_user_state,
}

abbrev is_needs_login : Option IpnValue → Bool
is_needs_login (some ipn_needs_login) = true
is_needs_login _ = false

abbrev is_needs_machine_auth : Option IpnValue → Bool
is_needs_machine_auth (some ipn_needs_machine_auth) = true
is_needs_machine_auth _ = false

abbrev is_running : Option IpnValue → Bool
is_running (some ipn_running) = true
is_running _ = false

-- `terminalCleanup`
pub record TerminalCleanup : Type 0 where
  pub server : Option ℕ
  pub watcher : Option ℕ
  pub socks_proxy : Option ℕ

abbrev close_if : {A : Type 0} → (ℕ → A → A) → Option ℕ → A → A
close_if f none x = x
close_if f (some k) x = f k x

-- `terminalCleanup.run`: the errors of the closes are logged only.
unfoldable pub run_cleanup : CloseCalls → TerminalCleanup → Host → Host
unfolding close_proxy close_server close_watcher
run_cleanup c k x =
    close_if (close_server c.server_close) k.server
      (close_if close_watcher k.watcher (close_if (close_proxy c.proxy_close) k.socks_proxy x))

module _ {R : Type 0} where
  unfoldable pub prepare_terminal_error_cleanup : Machine R → Machine R × TerminalCleanup
  prepare_terminal_error_cleanup m = (
    record m { tailnet = record m.tailnet { server = none; watcher = none; socks_proxy = none } },
    record { server = t.server; watcher = t.watcher; socks_proxy = t.socks_proxy },
  )
    where
      t : Tailnet
      t = m.tailnet

  -- The cleanup after the `switch`.
  unfoldable pub terminal_cleanup : CloseCalls → Machine R → Machine R
  unfolding prepare_terminal_error_cleanup
  terminal_cleanup c m =
      if is_terminal m.tailnet.current_state
      then (let (m', k) = prepare_terminal_error_cleanup m in on_host (run_cleanup c k) m')
      else m

  login_at : Option Str → Machine R → Machine R × Bool
  login_at none m = (m, false)
  login_at (some url) m = if is_empty url then (m, false) else (
    record m { tailnet = record m.tailnet { login_url = url; current_state = needs_login } },
    true,
  )

  unfoldable pub maybe_transition_to_needs_login : Op (Machine R)
  unfolding login_at
  maybe_transition_to_needs_login s m =
      if is_needs_login s.state then login_at s.browse_to_url m else (m, false)

  unfoldable pub maybe_transition_to_needs_machine_auth : Op (Machine R)
  maybe_transition_to_needs_machine_auth s m =
      if is_needs_machine_auth s.state then (with_state needs_machine_auth m, true) else (m, false)

  unfoldable pub maybe_transition_to_connected : Op (Machine R)
  maybe_transition_to_connected s m =
      if is_running s.state then (with_state connected m, true) else (m, false)

  unfoldable pub update_peers : Op (Machine R)
  update_peers s m = (record m { tailnet = record m.tailnet { peers = s.peers } }, true)

  hostname_of : Option Node → Machine R → Machine R × Bool
  hostname_of none m = (m, false)
  hostname_of (some node) m =
      if is_empty node.computed_name || str_eq node.computed_name m.tailnet.self_node_hostname
      then (m, false)
      else (
        record m { tailnet = record m.tailnet { self_node_hostname = node.computed_name } },
        true,
      )

  unfoldable pub maybe_update_self_node_hostname : Op (Machine R)
  unfolding hostname_of
  maybe_update_self_node_hostname s m = hostname_of s.self_node m

module _ {R : Type 0} (h : Hooks R) where
  set_error_text : Str → Machine R → Machine R × Bool
  unfolding notify_terminal_error_change
  set_error_text text m = if str_eq m.tailnet.terminal_error text then (m, false) else (
    notify_terminal_error_change h text
        (record m { tailnet = record m.tailnet { terminal_error = text } }),
    true,
  )

  disable_user : Machine R → Machine R × Bool
  unfolding record_user_state
  disable_user m =
      if is_user_disabled m.tailnet.user_state
      then (m, false)
      else (record_user_state h user_disabled m, true)

  enter_terminal : Machine R → Machine R × Bool
  enter_terminal m =
      if is_terminal m.tailnet.current_state
      then (m, false)
      else (with_state has_terminal_error m, true)

  -- `setTerminalErrorLocked`
  unfoldable pub set_terminal_error : Str → Machine R → Machine R × Bool
  unfolding set_error_text disable_user enter_terminal
  set_terminal_error text m =
      let (m1, texted) = set_error_text text m in
      let (m2, disabled) = disable_user m1 in
      let (m3, entered) = enter_terminal m2 in (m3, texted || disabled || entered)

  -- What becomes of the registry's answer.
  unfoldable pub after_claim : Str → Machine R → R × Option Error → Machine R × Bool
  unfolding set_terminal_error
  after_claim suffix m (r, none) = (
    record m { tailnet = record m.tailnet { claimed_magic_dns_suffix = suffix }; outer = r },
    true,
  )
  after_claim suffix m (r, some (already_claimed s)) =
      set_terminal_error (already_claimed_text s) (record m { outer = r })
  after_claim suffix m (r, some (message text)) = (record m { outer = r }, false)

  -- `maybeClaimMagicDNSSuffixLocked`
  unfoldable pub maybe_claim_magic_dns_suffix : Op (Machine R)
  unfolding after_claim
  maybe_claim_magic_dns_suffix s m =
      if not (is_empty suffix) && not (is_empty claimed) && not (str_eq suffix claimed)
      then (m, false)
      else if is_empty suffix || not (is_empty claimed)
      then (m, false)
      else after_claim suffix m (h.claim m.tailnet.id suffix m.outer)
    where
      suffix : Str
      suffix = s.magic_dns_suffix

      claimed : Str
      claimed = m.tailnet.claimed_magic_dns_suffix

  -- The `switch` on the state.
  unfoldable pub process_in : State → IpnState → Machine R → Machine R × Bool
  process_in connected s m =
      process
        (one_of (maybe_transition_to_needs_login ∷ maybe_transition_to_needs_machine_auth ∷ []) (
          always
            (maybe_claim_magic_dns_suffix ∷ update_peers ∷ maybe_update_self_node_hostname ∷ [])
            (process_ipn s)))
        m
  process_in started s m =
      process
        (one_of
          (maybe_transition_to_needs_login ∷ maybe_transition_to_needs_machine_auth
            ∷ maybe_transition_to_connected ∷ [])
          (always (maybe_update_self_node_hostname ∷ []) (process_ipn s)))
        m
  process_in needs_login s m =
      process
        (one_of (maybe_transition_to_needs_machine_auth ∷ maybe_transition_to_connected ∷ [])
          (always (maybe_update_self_node_hostname ∷ []) (process_ipn s)))
        m
  process_in needs_machine_auth s m =
      process
        (one_of (maybe_transition_to_needs_login ∷ maybe_transition_to_connected ∷ []) (
          always (maybe_claim_magic_dns_suffix ∷ maybe_update_self_node_hostname ∷ [])
            (process_ipn s)))
        m
  process_in _ s m = (m, false)

  -- `reactToIPNStateChange`
  unfoldable pub react_to_ipn_state_change : CloseCalls → IpnState → Machine R → Machine R
  unfolding notify
  react_to_ipn_state_change c s m =
      let (m1, changed) = process_in m.tailnet.current_state s m in
      let m2 = terminal_cleanup c m1 in if changed then notify h m2 else m2
