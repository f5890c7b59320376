-- ===== src/Ts/Start/Laws.antt =====
-- What `Start` guarantees on each of its branches.
use tailhopper.Base.{
  ℕ, suc, ◌≤◌, ◌<◌, ◌≡◌, ◌≢◌, ◌⊎◌, ◌↔◌, refl, none, some, List, [], ◌∷◌, All, arith,
}
use tailhopper.Ts.State.{started, stopped, user_enabled, Error, unable_to_start}
use tailhopper.Ts.Host.{Host, remove}
use tailhopper.Ts.Tailnet.{Machine, Hooks}
use tailhopper.Ts.Start.{StartCalls, start}

-- Handles in use lie below the next one.
pub record IsFresh (x : Host) : Type 0 where
  pub proxies_below : All (λ k. k < x.next_handle) x.proxies
  pub servers_below : All (λ k. k < x.next_handle) x.servers
  pub watchers_below : All (λ k. k < x.next_handle) x.watchers

pub remove_fresh : (h n : ℕ) (xs : List ℕ) → n ≤ h → All (λ k. k < n) xs → remove h xs ≡ xs
unfolding remove
remove_fresh h n [] le b = refl
remove_fresh h n (x ∷ xs) le b = ground (arith, remove_fresh h n xs le b.1)

module _ {R : Type 0} (h : Hooks R) where
  -- Start fails in every state but the stopped one, and then changes nothing.
  pub start_refused :
      (c : StartCalls) (m : Machine R)
      → m.tailnet.current_state ≢ stopped
      → start h c m ≡ (m, some (unable_to_start m.tailnet.current_state))
  unfolding start
  start_refused c m ne = ground arith

  pub record IsStarted (m m' : Machine R) : Type 0 where
    pub state : m'.tailnet.current_state ≡ started
    pub wish : m'.tailnet.user_state ≡ user_enabled
    pub proxy : m'.tailnet.socks_proxy ≡ some m.host.next_handle
    pub server : m'.tailnet.server ≡ some (suc m.host.next_handle)
    pub watcher : m'.tailnet.watcher ≡ some (suc (suc m.host.next_handle))
    pub proxies : m'.host.proxies ≡ m.host.next_handle ∷ m.host.proxies
    pub servers : m'.host.servers ≡ suc m.host.next_handle ∷ m.host.servers
    pub watchers : m'.host.watchers ≡ suc (suc m.host.next_handle) ∷ m.host.watchers

  pub start-IsStarted :
      (c : StartCalls) (m : Machine R) (lc : ℕ)
      → m.tailnet.current_state ≡ stopped
      → c.listen ≡ none
      → c.server_start ≡ none
      → c.local_client ≡ none
      → c.client ≡ some lc
      → IsStarted m (start h c m).0 × ((start h c m).1 ≡ none)
  unfolding start
  start-IsStarted c m lc s p q r k = ground arith

  -- If a stopped tailnet cannot bind its port, or its server does not start, and the proxy closes
  -- without an error, on a host whose handles in use lie below the next one, then start returns
  -- that error, and the tailnet is stopped with its proxy field and the open proxies, servers and
  -- watchers as before.
  pub start_failed :
      (c : StartCalls) (m : Machine R) (e : Error)
      → m.tailnet.current_state ≡ stopped
      → IsFresh m.host
      → (c.listen ≡ some e) ⊎ ((c.listen ≡ none) × (c.server_start ≡ some e))
      → c.proxy_close ≡ none
      → ((start h c m).1 ≡ some e)
        × ((start h c m).0.tailnet.current_state ≡ stopped)
        × ((start h c m).0.tailnet.socks_proxy ≡ m.tailnet.socks_proxy)
        × ((start h c m).0.host.proxies ≡ m.host.proxies)
        × ((start h c m).0.host.servers ≡ m.host.servers)
        × ((start h c m).0.host.watchers ≡ m.host.watchers)
  unfolding start
  start_failed c m e s v f p =
      let n = m.host.next_handle in
      ground (arith, remove_fresh n n m.host.proxies (omega arith) v.proxies_below)

  -- Start returns no error exactly when the tailnet is stopped, the port is bound and the server
  -- starts, and then either the local client comes back and is not nil, or it fails and the server
  -- closes without an error.
  pub start-none_iff :
      (c : StartCalls) (m : Machine R)
      → ((start h c m).1 ≡ none) ↔ (
          (m.tailnet.current_state ≡ stopped)
          × (c.listen ≡ none)
          × (c.server_start ≡ none)
          × (((c.local_client ≡ none) × (c.client ≢ none))
              ⊎ ((c.local_client ≢ none) × (c.server_close ≡ none))))
  unfolding start
  start-none_iff c m = ground arith
