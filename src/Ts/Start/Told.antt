-- ===== src/Ts/Start/Told.antt =====
-- A start that leaves the stopped state, or fails on the way, ends with a broadcast.
use tailhopper.Base.{ℕ, ◌≡◌, ◌≢◌, ◌⊎◌, inl, inr, refl, Option-cases, none, some}
use tailhopper.Ts.State.{State, started, stopped}
use tailhopper.Ts.Host.{
  new_watcher, open_proxy, open_server, open_watcher, close_proxy, close_server,
}
use tailhopper.Ts.Tailnet.{Machine, Hooks, on_host}
use tailhopper.Ts.Told.{IsTold, set_state-IsTold}
use tailhopper.Ts.Start.{
  StartCalls, start, start_in, start_proxy, start_server, start_client, start_watcher, assign,
}

module _ {R : Type 0} (h : Hooks R) (f : R → R) (b : h.broadcast ≡ some f) where
  start_watcher-IsTold :
      (c : StartCalls) (p s : ℕ) (m : Machine R)
      → c.client ≢ none
      → IsTold f (start_watcher h c p s m).0.outer
  unfolding start_watcher assign
  start_watcher-IsTold c p s m n = elim (Option-cases c.client) [
    | inl e ↦ absurd (n e)
    | inr (l, e) ↦
        rw (e, new_watcher)
          (set_state-IsTold h f b started
            (assign h s m.host.next_handle p (on_host open_watcher m)))
  ]

  start_client-IsTold :
      (c : StartCalls) (p s : ℕ) (m : Machine R)
      → (c.local_client ≡ none → c.client ≢ none)
      → IsTold f (start_client h c p s m).0.outer
  unfolding start_client
  start_client-IsTold c p s m n = elim (Option-cases c.local_client) [
    | inr (x, e) ↦ rw e (
        set_state-IsTold h f b stopped
          (on_host (λ x. close_server c.server_close s (close_proxy c.proxy_close p x)) m))
    | inl e ↦ rw e (start_watcher-IsTold (record c { local_client = none }) p s m (n e))
  ]

  start_server-IsTold :
      (c : StartCalls) (p : ℕ) (m : Machine R)
      → (c.local_client ≡ none → c.client ≢ none)
      → IsTold f (start_server h c p m).0.outer
  unfolding start_server
  start_server-IsTold c p m n = elim (Option-cases c.server_start) [
    | inr (x, e) ↦ rw e (set_state-IsTold h f b stopped (on_host (close_proxy c.proxy_close p) m))
    | inl e ↦ rw e (
        start_client-IsTold (record c { server_start = none }) p m.host.next_handle
          (on_host open_server m) n)
  ]

  start_proxy-IsTold :
      (c : StartCalls) (m : Machine R)
      → (c.local_client ≡ none → c.client ≢ none)
      → IsTold f (start_proxy h c m).0.outer
  unfolding start_proxy
  start_proxy-IsTold c m n = elim (Option-cases c.listen) [
    | inr (x, e) ↦ rw e (set_state-IsTold h f b stopped m)
    | inl e ↦ rw e (
        start_server-IsTold (record c { listen = none }) m.host.next_handle (on_host open_proxy m)
          n)
  ]

  start_in-IsTold :
      (k : State) (c : StartCalls) (m : Machine R)
      → (c.local_client ≡ none → c.client ≢ none)
      → ((start_in h k c m).0 ≡ m) ⊎ IsTold f (start_in h k c m).0.outer
  unfolding start_in
  start_in-IsTold stopped c m n = inr (start_proxy-IsTold c _ n)
  start_in-IsTold _ c m n = inl refl

  pub start-IsTold :
      (c : StartCalls) (m : Machine R)
      → (c.local_client ≡ none → c.client ≢ none)
      → ((start h c m).0 ≡ m) ⊎ IsTold f (start h c m).0.outer
  unfolding start
  start-IsTold c m n = start_in-IsTold m.tailnet.current_state c m n
