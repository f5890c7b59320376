-- ===== src/Ts/Host.antt =====
-- What the process holds outside its own data: the listening SOCKS5 proxies
-- (internal/socks/socks.go), the tsnet servers and the IPN watchers (internal/ts/watcher.go), each
-- known by a handle. How an external call ends is an argument of the operation that makes it.
use tailhopper.Base.{ℕ, suc, Option, none, some, List, [], ◌∷◌, ◌==◌, if◌then◌else◌}
use tailhopper.Ts.State.{Error, message}
use tailhopper.Base.{codes}

pub record Host : Type 0 where
  pub next_handle : ℕ
  pub proxies : List ℕ
  pub servers : List ℕ
  pub watchers : List ℕ

unfoldable pub remove : ℕ → List ℕ → List ℕ
remove h [] = []
remove h (x ∷ xs) = if x == h then remove h xs else x ∷ remove h xs

unfoldable pub open_proxy : Host → Host
open_proxy h = record h { next_handle = suc h.next_handle; proxies = h.next_handle ∷ h.proxies }

unfoldable pub open_server : Host → Host
open_server h = record h { next_handle = suc h.next_handle; servers = h.next_handle ∷ h.servers }

unfoldable pub open_watcher : Host → Host
open_watcher h = record h { next_handle = suc h.next_handle; watchers = h.next_handle ∷ h.watchers }

-- `socksProxy.Close()`: a close that fails is taken to leave the port bound.
unfoldable pub close_proxy : Option Error → ℕ → Host → Host
unfolding remove
close_proxy (some e) p h = h
close_proxy none p h = record h { proxies = remove p h.proxies }

-- `server.Close()`
unfoldable pub close_server : Option Error → ℕ → Host → Host
unfolding remove
close_server (some e) s h = h
close_server none s h = record h { servers = remove s h.servers }

-- `watcher.Close()`: cancels the subscription, waits at most five seconds, and returns nil.
unfoldable pub close_watcher : ℕ → Host → Host
unfolding remove
close_watcher w h = record h { watchers = remove w h.watchers }

-- The only failure of `NewWatcher`.
pub local_client_is_nil : Error
local_client_is_nil = message (codes "local client is nil")

-- `NewWatcher(lc, …)`: whether it starts depends on `lc` alone.
unfoldable pub new_watcher : Option ℕ → Option Error
new_watcher none = some local_client_is_nil
new_watcher (some lc) = none
