-- ===== src/Ts/Stop.antt =====
-- `Stop` of internal/ts/tailnet.go, and the close calls that it shares with the cleanup.
pub mod Laws
pub mod Kept
pub mod Told
use tailhopper.Base.{ℕ, Option, none, some}
use tailhopper.Ts.State.{
  State, connected, needs_login, needs_machine_auth, started, stopped, user_disabled, Error,
  unable_to_stop,
}
use tailhopper.Ts.Host.{Host, close_proxy, close_server, close_watcher}
use tailhopper.Ts.Tailnet.{Machine, Hooks, on_host, set_state, record_user_state}

-- How the calls of a shutdown end.
pub record CloseCalls : Type 0 where
  pub proxy_close : Option Error
  pub server_close : Option Error

module _ {R : Type 0} (h : Hooks R) where
  abbrev close_watcher_of : Option ℕ → Host → Host
  close_watcher_of none x = x
  close_watcher_of (some w) x = close_watcher w x

  abbrev forget_all : Machine R → Machine R
  forget_all m = record m {
    tailnet = record m.tailnet { server = none; watcher = none; socks_proxy = none };
  }

  -- `Stop` from the server on; the proxy and the watcher are closed.
  stop_server : CloseCalls → Option ℕ → Machine R → Machine R × Option Error
  unfolding close_server
  stop_server c none m = (forget_all m, none)
  stop_server c (some s) m = elim c.server_close [
    | some e ↦ (m, some e)
    | none ↦ (forget_all (on_host (close_server none s) m), none)
  ]

  stop_watcher : CloseCalls → Machine R → Machine R × Option Error
  unfolding stop_server close_watcher
  stop_watcher c m = stop_server c m.tailnet.server (on_host (close_watcher_of m.tailnet.watcher) m)

  stop_proxy : CloseCalls → Option ℕ → Machine R → Machine R × Option Error
  unfolding stop_watcher close_proxy
  stop_proxy c none m = stop_watcher c m
  stop_proxy c (some p) m = elim c.proxy_close [
    | some e ↦ (m, some e)
    | none ↦ stop_watcher c (on_host (close_proxy none p) m)
  ]

  -- With the deferred `setState(StoppedState)`.
  stop_running : CloseCalls → Machine R → Machine R × Option Error
  unfolding stop_proxy record_user_state set_state
  stop_running c m =
      let (m', e) = stop_proxy c m.tailnet.socks_proxy (record_user_state h user_disabled m) in
      (set_state h stopped m', e)

  stop_in : State → CloseCalls → Machine R → Machine R × Option Error
  unfolding stop_running
  stop_in connected c m = stop_running c m
  stop_in started c m = stop_running c m
  stop_in needs_login c m = stop_running c m
  stop_in needs_machine_auth c m = stop_running c m
  stop_in s c m = (m, some (unable_to_stop s))

  unfoldable pub stop : CloseCalls → Machine R → Machine R × Option Error
  unfolding stop_in
  stop c m = stop_in m.tailnet.current_state c m
