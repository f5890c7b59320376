-- ===== src/Ts/Logout/Laws.antt =====
-- What `Logout` guarantees, also when notifications come in between its two halves, and what
-- `Dial` needs.
use tailhopper.Base.{◌≡◌, ◌≢◌, ◌⊎◌, inr, refl, none, some, List, [], ◌∷◌, arith}
use tailhopper.Ts.State.{
  State, connected, has_terminal_error, logging_out, needs_login, needs_machine_auth, started,
  stopped, user_disabled, unable_to_logout,
}
use tailhopper.Ts.Ipn.{IpnState}
use tailhopper.Ts.Tailnet.{Machine, Hooks}
use tailhopper.Ts.Stop.{CloseCalls}
use tailhopper.Ts.Logout.{LogoutCalls, logout_start, logout_end, logout}
use tailhopper.Ts.React.{react_to_ipn_state_change}
use tailhopper.Ts.React.Laws.{react_ignored}

abbrev pub CanLogout : State → Type 0
CanLogout s = (s ≡ connected) ⊎ (s ≡ stopped) ⊎ (s ≡ started) ⊎ (s ≡ needs_machine_auth)

module _ {R : Type 0} (h : Hooks R) where
  -- Notifications, one after the other.
  pub react_all : List (CloseCalls × IpnState) → Machine R → Machine R
  react_all [] m = m
  react_all ((c, s) ∷ more) m = react_all more (react_to_ipn_state_change h c s m)

  react_all_ignored :
      (events : List (CloseCalls × IpnState)) (m : Machine R)
      → m.tailnet.current_state ≡ logging_out
      → react_all events m ≡ m
  unfolding react_all
  react_all_ignored [] m e = refl
  react_all_ignored ((c, s) ∷ more) m e =
      rw (react_ignored h c s m (inr e)) (react_all_ignored more m e)

  logout_start-state :
      (m : Machine R)
      → CanLogout m.tailnet.current_state
      → (logout_start h m).0.tailnet.current_state ≡ logging_out
  unfolding logout_start
  logout_start-state m a = ground arith

  -- In the states that allow it, a logout between whose two halves any notifications come in ends
  -- as one that nothing interrupts.
  pub logout_interleaved :
      (c : LogoutCalls) (events : List (CloseCalls × IpnState)) (m : Machine R)
      → CanLogout m.tailnet.current_state
      → logout_end h c (logout_start h m).1 (react_all events (logout_start h m).0) ≡ logout h c m
  unfolding logout
  logout_interleaved c events m a =
      rw (react_all_ignored events (logout_start h m).0 (logout_start-state m a))

  -- In the states that allow it, a logout ends stopped and disabled whatever its calls return, and
  -- keeps the proxy and the watcher, which stay open, and a server.
  pub logout_keeps_resources :
      (c : LogoutCalls) (m : Machine R)
      → CanLogout m.tailnet.current_state
      → let m' = (logout h c m).0 in
        (m'.tailnet.current_state ≡ stopped)
        × (m'.tailnet.user_state ≡ user_disabled)
        × (m'.tailnet.socks_proxy ≡ m.tailnet.socks_proxy)
        × (m'.tailnet.watcher ≡ m.tailnet.watcher)
        × (m'.tailnet.server ≢ none)
        × (m'.host.proxies ≡ m.host.proxies)
        × (m'.host.watchers ≡ m.host.watchers)
  unfolding logout
  logout_keeps_resources c m a = ground arith

  pub logout_needs_login :
      (c : LogoutCalls) (m : Machine R)
      → m.tailnet.current_state ≡ needs_login
      → logout h c m ≡ (m, none)
  unfolding logout
  logout_needs_login c m e = ground arith

  pub logout_refused :
      (c : LogoutCalls) (m : Machine R)
      → (m.tailnet.current_state ≡ has_terminal_error) ⊎ (m.tailnet.current_state ≡ logging_out)
      → logout h c m ≡ (m, some (unable_to_logout m.tailnet.current_state))
  unfolding logout
  logout_refused c m e = ground arith
