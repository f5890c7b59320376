-- ===== src/Ts/Logout.antt =====
-- `Logout` and `Dial` of internal/ts/tailnet.go. `Logout` gives the lock up while its network calls
-- run, so it is two steps, between which others may act on the tailnet.
pub mod Laws
pub mod Kept
pub mod Told
use tailhopper.Base.{
  ℕ, suc, ◌==◌, if◌then◌else◌, Str, Option, none, some, Bool, true, false, any, ◌∷◌,
}
use tailhopper.Ts.State.{
  State, connected, logging_out, needs_login, needs_machine_auth, started, stopped, user_disabled,
  Error, unable_to_logout, unable_to_dial,
}
use tailhopper.Ts.Host.{Host}
use tailhopper.Ts.Tailnet.{Tailnet, Machine, Hooks, on_host, set_state, record_user_state}

-- How the calls of `Logout` end.
pub record LogoutCalls : Type 0 where
  pub local_client : Option Error
  pub logout : Option Error

-- What the first half leaves: a result, or the server on which the second half works.
pub data LogoutStart : Type 0 where
  returned : Option Error → LogoutStart
  in_flight : ℕ → LogoutStart

-- `LocalClient` starts a server that does not run yet.
unfoldable pub ensure_running : ℕ → Host → Host
ensure_running s x = if any (λ k. k == s) x.servers then x else record x { servers = s ∷ x.servers }

-- `server.LocalClient()`, then `lc.Logout(ctx)`
call_logout : {R : Type 0} → LogoutCalls → ℕ → Machine R → Machine R × Option Error
unfolding ensure_running
call_logout c s m = elim c.local_client [
  | some e ↦ (m, some e)
  | none ↦ (on_host (ensure_running s) m, c.logout)
]

module _ {R : Type 0} (h : Hooks R) where
  -- The server, made if there is none.
  with_server : Option ℕ → Machine R → Machine R × LogoutStart
  with_server (some s) m = (m, in_flight s)
  with_server none m = (
    record m {
      tailnet = record m.tailnet { server = some m.host.next_handle };
      host = record m.host { next_handle = suc m.host.next_handle };
    },
    in_flight m.host.next_handle,
  )

  begin_logout : Machine R → Machine R × LogoutStart
  unfolding with_server set_state record_user_state
  begin_logout m =
      with_server m.tailnet.server (set_state h logging_out (record_user_state h user_disabled m))

  logout_in : State → Machine R → Machine R × LogoutStart
  unfolding begin_logout
  logout_in needs_login m = (m, returned none)
  logout_in connected m = begin_logout m
  logout_in stopped m = begin_logout m
  logout_in started m = begin_logout m
  logout_in needs_machine_auth m = begin_logout m
  logout_in s m = (m, returned (some (unable_to_logout s)))

  -- `Logout` up to its `t.mu.Unlock()`.
  unfoldable pub logout_start : Machine R → Machine R × LogoutStart
  unfolding logout_in
  logout_start m = logout_in m.tailnet.current_state m

  -- The rest, with the deferred `setState(StoppedState)`.
  unfoldable pub logout_end : LogoutCalls → LogoutStart → Machine R → Machine R × Option Error
  unfolding call_logout set_state
  logout_end c (returned e) m = (m, e)
  logout_end c (in_flight s) m = let (m', e) = call_logout c s m in (set_state h stopped m', e)

  -- `Logout` when nothing else acts on the tailnet in between.
  unfoldable pub logout : LogoutCalls → Machine R → Machine R × Option Error
  unfolding logout_start logout_end
  logout c m = let (m', l) = logout_start m in logout_end c l m'

-- What `Dial` comes to: an error, a call of the server's own `Dial`, or a nil dereference.
pub data Dialed : Type 0 where
  refused : Error → Dialed
  forwarded : ℕ → Str → Str → Dialed
  nil_dereference : Dialed

abbrev dial_server : Option ℕ → Str → Str → Dialed
dial_server none network addr = nil_dereference
dial_server (some s) network addr = forwarded s network addr

dial_in : State → Tailnet → Str → Str → Dialed
dial_in connected t network addr = dial_server t.server network addr
dial_in s t network addr = refused (unable_to_dial s)

unfoldable pub dial : Tailnet → Str → Str → Dialed
unfolding dial_in
dial t network addr = dial_in t.current_state t network addr
