-- ===== src/Ts/Logout/Told.antt =====
-- The halves of a logout that the state admits end with a broadcast.
use tailhopper.Base.{ℕ, ◌≡◌, ◌⊎◌, inl, inr, refl, Option, none, some, Option-cases}
use tailhopper.Ts.State.{
  State, connected, logging_out, needs_login, needs_machine_auth, started, stopped, user_disabled,
}
use tailhopper.Ts.Tailnet.{Machine, Hooks, on_host, record_user_state}
use tailhopper.Ts.Told.{IsTold, set_state-IsTold}
use tailhopper.Ts.Logout.{
  LogoutCalls, logout_start, logout_in, begin_logout, with_server, logout_end, in_flight,
  ensure_running, call_logout,
}

module _ {R : Type 0} (h : Hooks R) (f : R → R) (b : h.broadcast ≡ some f) where
  with_server-IsTold :
      (s : Option ℕ) (m : Machine R) → IsTold f m.outer → IsTold f (with_server h s m).0.outer
  unfolding with_server
  with_server-IsTold none m v = v
  with_server-IsTold (some s) m v = v

  begin_logout-IsTold : (m : Machine R) → IsTold f (begin_logout h m).0.outer
  unfolding begin_logout
  begin_logout-IsTold m =
      with_server-IsTold m.tailnet.server _
        (set_state-IsTold h f b logging_out (record_user_state h user_disabled m))

  logout_in-IsTold :
      (k : State) (m : Machine R) → ((logout_in h k m).0 ≡ m) ⊎ IsTold f (logout_in h k m).0.outer
  unfolding logout_in
  logout_in-IsTold needs_login m = inl refl
  logout_in-IsTold connected m = inr (begin_logout-IsTold m)
  logout_in-IsTold stopped m = inr (begin_logout-IsTold m)
  logout_in-IsTold started m = inr (begin_logout-IsTold m)
  logout_in-IsTold needs_machine_auth m = inr (begin_logout-IsTold m)
  logout_in-IsTold _ m = inl refl

  pub logout_start-IsTold :
      (m : Machine R) → ((logout_start h m).0 ≡ m) ⊎ IsTold f (logout_start h m).0.outer
  unfolding logout_start
  logout_start-IsTold m = logout_in-IsTold m.tailnet.current_state m

  pub logout_end-IsTold :
      (c : LogoutCalls) (s : ℕ) (m : Machine R) → IsTold f (logout_end h c (in_flight s) m).0.outer
  unfolding logout_end call_logout
  logout_end-IsTold c s m = elim (Option-cases c.local_client) [
    | inr (e, q) ↦ rw q (set_state-IsTold h f b stopped m)
    | inl q ↦ rw q (set_state-IsTold h f b stopped (on_host (ensure_running s) m))
  ]
