-- ===== src/Ts/Start/Kept.antt =====
-- Start keeps a relation with the outer state that the hooks keep.
use tailhopper.Base.{ℕ, ℤ, none, Option-cases, inl, inr}
use tailhopper.Ts.State.{State, started, stopped, user_enabled}
use tailhopper.Ts.Tailnet.{Machine, Hooks, on_host}
use tailhopper.Ts.Persist.{Persist, IsKept, Holds, set_state-Holds, record_user_state-Holds}
use tailhopper.Ts.Host.{
  new_watcher, open_watcher, open_server, open_proxy, close_server, close_proxy,
}
use tailhopper.Ts.Start.{
  StartCalls, start, start_in, start_proxy, start_server, start_client, start_watcher, assign,
}

module _ {R : Type 0} (h : Hooks R) (id : ℤ) (Q : Persist → R → Type 0) (k : IsKept h id Q) where
  start_watcher-Holds :
      (c : StartCalls) (p s : ℕ) (m : Machine R)
      → Holds id Q m
      → Holds id Q (start_watcher h c p s m).0
  unfolding start_watcher assign
  start_watcher-Holds c p s m v = elim (Option-cases (new_watcher c.client)) [
    | inr (e, q) ↦ rw (q, start_watcher) v
    | inl q ↦
        rw (q, start_watcher)
          (set_state-Holds h id Q k started
            (assign h s m.host.next_handle p (on_host open_watcher m)) v)
  ]

  start_client-Holds :
      (c : StartCalls) (p s : ℕ) (m : Machine R)
      → Holds id Q m
      → Holds id Q (start_client h c p s m).0
  unfolding start_client
  start_client-Holds c p s m v = elim (Option-cases c.local_client) [
    | inr (e, q) ↦ rw q (
        set_state-Holds h id Q k stopped
          (on_host (λ x. close_server c.server_close s (close_proxy c.proxy_close p x)) m) v)
    | inl q ↦ rw q (start_watcher-Holds (record c { local_client = none }) p s m v)
  ]

  start_server-Holds :
      (c : StartCalls) (p : ℕ) (m : Machine R) → Holds id Q m → Holds id Q (start_server h c p m).0
  unfolding start_server
  start_server-Holds c p m v = elim (Option-cases c.server_start) [
    | inr (e, q) ↦
        rw q (set_state-Holds h id Q k stopped (on_host (close_proxy c.proxy_close p) m) v)
    | inl q ↦ rw q (
        start_client-Holds (record c { server_start = none }) p m.host.next_handle
          (on_host open_server m) v)
  ]

  start_proxy-Holds :
      (c : StartCalls) (m : Machine R) → Holds id Q m → Holds id Q (start_proxy h c m).0
  unfolding start_proxy
  start_proxy-Holds c m v = elim (Option-cases c.listen) [
    | inr (e, q) ↦ rw q (set_state-Holds h id Q k stopped m v)
    | inl q ↦ rw q (
        start_server-Holds (record c { listen = none }) m.host.next_handle (on_host open_proxy m) v)
  ]

  start_in-Holds :
      (s : State) (c : StartCalls) (m : Machine R) → Holds id Q m → Holds id Q (start_in h s c m).0
  unfolding start_in
  start_in-Holds stopped c m v =
      start_proxy-Holds c _ (record_user_state-Holds h id Q k user_enabled m v)
  start_in-Holds _ c m v = v

  pub start-Holds : (c : StartCalls) (m : Machine R) → Holds id Q m → Holds id Q (start h c m).0
  unfolding start
  start-Holds c m v = start_in-Holds m.tailnet.current_state c m v
