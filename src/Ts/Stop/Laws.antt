-- ===== src/Ts/Stop/Laws.antt =====
-- What `Stop` guarantees on each of its branches.
use tailhopper.Base.{ℕ, suc, ◌≡◌, ◌⊎◌, inl, inr, none, some, arith}
use tailhopper.Ts.State.{
  State, connected, needs_login, needs_machine_auth, started, stopped, user_disabled,
  unable_to_stop,
}
use tailhopper.Ts.Host.{remove}
use tailhopper.Ts.Tailnet.{Tailnet, Machine, Hooks}
use tailhopper.Ts.Start.{StartCalls, start}
use tailhopper.Ts.Start.Laws.{IsFresh, remove_fresh, start-IsStarted}
use tailhopper.Ts.Stop.{CloseCalls, stop}

-- The states in which the tailnet's server runs.
abbrev pub IsRunning : State → Type 0
IsRunning s = (s ≡ connected) ⊎ (s ≡ started) ⊎ (s ≡ needs_login) ⊎ (s ≡ needs_machine_auth)

pub record HoldsNothing (t : Tailnet) : Type 0 where
  pub server : t.server ≡ none
  pub watcher : t.watcher ≡ none
  pub socks_proxy : t.socks_proxy ≡ none

module _ {R : Type 0} (h : Hooks R) where
  pub stop_refused :
      (c : CloseCalls) (m : Machine R)
      → ¬ IsRunning m.tailnet.current_state
      → stop h c m ≡ (m, some (unable_to_stop m.tailnet.current_state))
  unfolding stop
  stop_refused c m ne = ground arith

  -- However the closes end, a running tailnet is stopped and disabled.
  pub stop-stopped :
      (c : CloseCalls) (m : Machine R)
      → IsRunning m.tailnet.current_state
      → ((stop h c m).0.tailnet.current_state ≡ stopped)
        × ((stop h c m).0.tailnet.user_state ≡ user_disabled)
  unfolding stop
  stop-stopped c m r = ground arith

  -- If a running tailnet that holds a proxy, a server and a watcher is stopped, and the proxy and
  -- the server close without an error, then stop returns no error, the tailnet holds nothing, and
  -- exactly these three are gone from the open proxies, servers and watchers.
  pub stop_releases :
      (c : CloseCalls) (m : Machine R) (p s w : ℕ)
      → IsRunning m.tailnet.current_state
      → m.tailnet.socks_proxy ≡ some p
      → m.tailnet.server ≡ some s
      → m.tailnet.watcher ≡ some w
      → c.proxy_close ≡ none
      → c.server_close ≡ none
      → ((stop h c m).1 ≡ none)
        × HoldsNothing (stop h c m).0.tailnet
        × ((stop h c m).0.host.proxies ≡ remove p m.host.proxies)
        × ((stop h c m).0.host.servers ≡ remove s m.host.servers)
        × ((stop h c m).0.host.watchers ≡ remove w m.host.watchers)
  unfolding stop
  stop_releases c m p s w r ep es ew cp cs = ground arith

  -- If a stopped tailnet starts with all calls succeeding, on a host whose handles in use lie below
  -- the next one, and is then stopped with all closes succeeding, then it is stopped and holds
  -- nothing, and the open proxies, servers and watchers are those from before the start.
  pub start-stop :
      (c : StartCalls) (k : CloseCalls) (m : Machine R) (lc : ℕ)
      → m.tailnet.current_state ≡ stopped
      → IsFresh m.host
      → c.listen ≡ none
      → c.server_start ≡ none
      → c.local_client ≡ none
      → c.client ≡ some lc
      → k.proxy_close ≡ none
      → k.server_close ≡ none
      → let m' = (stop h k (start h c m).0).0 in
        (m'.host.proxies ≡ m.host.proxies)
        × (m'.host.servers ≡ m.host.servers)
        × (m'.host.watchers ≡ m.host.watchers)
        × HoldsNothing m'.tailnet
        × (m'.tailnet.current_state ≡ stopped)
  unfolding remove
  start-stop c k m lc s v e1 e2 e3 e4 k1 k2 =
      let n = m.host.next_handle in
      let m1 = (start h c m).0 in
      let st = (start-IsStarted h c m lc s e1 e2 e3 e4).0 in
      ground (
        arith,
        st,
        stop-stopped k m1,
        stop_releases k m1 n (suc n) (suc (suc n)) (inr (inl st.state)),
        remove_fresh n n m.host.proxies (omega arith) v.proxies_below,
        remove_fresh (suc n) n m.host.servers (omega arith) v.servers_below,
        remove_fresh (suc (suc n)) n m.host.watchers (omega arith) v.watchers_below,
      )
