-- ===== src/Ts/Logout/Kept.antt =====
-- The halves of a logout keep a relation with the outer state that the hooks keep.
use tailhopper.Base.{ℕ, ℤ, Option, none, some, Option-cases, inl, inr}
use tailhopper.Ts.State.{
  State, connected, logging_out, needs_login, needs_machine_auth, started, stopped, user_disabled,
}
use tailhopper.Ts.Tailnet.{Machine, Hooks, on_host, record_user_state}
use tailhopper.Ts.Persist.{Persist, IsKept, Holds, set_state-Holds, record_user_state-Holds}
use tailhopper.Ts.Logout.{
  LogoutCalls, logout_start, logout_in, begin_logout, with_server, logout_end, in_flight,
  ensure_running, call_logout,
}

module _ {R : Type 0} (h : Hooks R) (id : ℤ) (Q : Persist → R → Type 0) (k : IsKept h id Q) where
  with_server-Holds :
      (s : Option ℕ) (m : Machine R) → Holds id Q m → Holds id Q (with_server h s m).0
  unfolding with_server
  with_server-Holds none m v = v
  with_server-Holds (some s) m v = v

  begin_logout-Holds : (m : Machine R) → Holds id Q m → Holds id Q (begin_logout h m).0
  unfolding begin_logout
  begin_logout-Holds m v = with_server-Holds m.tailnet.server _ (
      set_state-Holds h id Q k logging_out (record_user_state h user_disabled m)
        (record_user_state-Holds h id Q k user_disabled m v))

  logout_in-Holds : (s : State) (m : Machine R) → Holds id Q m → Holds id Q (logout_in h s m).0
  unfolding logout_in
  logout_in-Holds needs_login m v = v
  logout_in-Holds connected m v = begin_logout-Holds m v
  logout_in-Holds stopped m v = begin_logout-Holds m v
  logout_in-Holds started m v = begin_logout-Holds m v
  logout_in-Holds needs_machine_auth m v = begin_logout-Holds m v
  logout_in-Holds _ m v = v

  pub logout_start-Holds : (m : Machine R) → Holds id Q m → Holds id Q (logout_start h m).0
  unfolding logout_start
  logout_start-Holds m v = logout_in-Holds m.tailnet.current_state m v

  pub logout_end-Holds :
      (c : LogoutCalls) (s : ℕ) (m : Machine R)
      → Holds id Q m
      → Holds id Q (logout_end h c (in_flight s) m).0
  unfolding logout_end call_logout
  logout_end-Holds c s m v = elim (Option-cases c.local_client) [
    | inr (e, q) ↦ rw q (set_state-Holds h id Q k stopped m v)
    | inl q ↦ rw q (set_state-Holds h id Q k stopped (on_host (ensure_running s) m) v)
  ]
