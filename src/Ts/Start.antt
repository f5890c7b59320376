-- ===== src/Ts/Start.antt =====
-- `Start` of internal/ts/tailnet.go. A call of the socks and tsnet packages ends as the record of
-- calls says: nil is `none`.
pub mod Laws
pub mod Kept
pub mod Told
use tailhopper.Base.{ℕ, Option, none, some}
use tailhopper.Ts.State.{State, started, stopped, user_enabled, Error, unable_to_start}
use tailhopper.Ts.Host.{
  open_proxy, open_server, open_watcher, close_proxy, close_server, new_watcher,
}
use tailhopper.Ts.Tailnet.{Machine, Hooks, on_host, set_state, record_user_state}

-- How the calls that `Start` makes end. `client` is the `LocalClient` that comes back.
pub record StartCalls : Type 0 where
  pub listen : Option Error
  pub server_start : Option Error
  pub local_client : Option Error
  pub client : Option ℕ
  pub proxy_close : Option Error
  pub server_close : Option Error

module _ {R : Type 0} (h : Hooks R) where
  assign : ℕ → ℕ → ℕ → Machine R → Machine R
  assign s w p m = record m {
    tailnet = record m.tailnet { server = some s; watcher = some w; socks_proxy = some p };
  }

  -- `NewWatcher` and what follows it.
  start_watcher : StartCalls → ℕ → ℕ → Machine R → Machine R × Option Error
  unfolding assign open_watcher new_watcher set_state
  start_watcher c p s m = elim (new_watcher c.client) [
    | some e ↦ (m, some e)
    | none ↦ (set_state h started (assign s m.host.next_handle p (on_host open_watcher m)), none)
  ]

  -- `server.LocalClient()`; on its failure `err` is overwritten by what `server.Close()` returns.
  start_client : StartCalls → ℕ → ℕ → Machine R → Machine R × Option Error
  unfolding start_watcher close_server close_proxy set_state
  start_client c p s m = elim c.local_client [
    | some e ↦ (
      set_state h stopped
          (on_host (λ x. close_server c.server_close s (close_proxy c.proxy_close p x)) m),
      c.server_close,
    )
    | none ↦ start_watcher c p s m
  ]

  -- `server.Start()`
  start_server : StartCalls → ℕ → Machine R → Machine R × Option Error
  unfolding start_client close_proxy open_server set_state
  start_server c p m = elim c.server_start [
    | some e ↦ (set_state h stopped (on_host (close_proxy c.proxy_close p) m), some e)
    | none ↦ start_client c p m.host.next_handle (on_host open_server m)
  ]

  -- `socks.NewServer(t.Dial, t.socksPort)`
  start_proxy : StartCalls → Machine R → Machine R × Option Error
  unfolding start_server open_proxy set_state
  start_proxy c m = elim c.listen [
    | some e ↦ (set_state h stopped m, some e)
    | none ↦ start_server c m.host.next_handle (on_host open_proxy m)
  ]

  start_in : State → StartCalls → Machine R → Machine R × Option Error
  unfolding start_proxy record_user_state
  start_in stopped c m = start_proxy c (record_user_state h user_enabled m)
  start_in s c m = (m, some (unable_to_start s))

  unfoldable pub start : StartCalls → Machine R → Machine R × Option Error
  unfolding start_in
  start c m = start_in m.tailnet.current_state c m
