-- ===== src/Ts/Stop/Told.antt =====
-- A stop that the state admits ends with a broadcast, and one that it does not changes nothing.
use tailhopper.Base.{◌≡◌, ◌⊎◌, inl, inr, refl, some}
use tailhopper.Ts.State.{
  State, connected, needs_login, needs_machine_auth, started, stopped, user_disabled,
}
use tailhopper.Ts.Tailnet.{Machine, Hooks, record_user_state}
use tailhopper.Ts.Told.{IsTold, set_state-IsTold}
use tailhopper.Ts.Stop.{CloseCalls, stop, stop_in, stop_running, stop_proxy}

module _ {R : Type 0} (h : Hooks R) (f : R → R) (b : h.broadcast ≡ some f) where
  stop_running-IsTold : (c : CloseCalls) (m : Machine R) → IsTold f (stop_running h c m).0.outer
  unfolding stop_running
  stop_running-IsTold c m =
      set_state-IsTold h f b stopped
        (stop_proxy h c m.tailnet.socks_proxy (record_user_state h user_disabled m)).0

  stop_in-IsTold :
      (k : State) (c : CloseCalls) (m : Machine R)
      → ((stop_in h k c m).0 ≡ m) ⊎ IsTold f (stop_in h k c m).0.outer
  unfolding stop_in
  stop_in-IsTold connected c m = inr (stop_running-IsTold c m)
  stop_in-IsTold started c m = inr (stop_running-IsTold c m)
  stop_in-IsTold needs_login c m = inr (stop_running-IsTold c m)
  stop_in-IsTold needs_machine_auth c m = inr (stop_running-IsTold c m)
  stop_in-IsTold _ c m = inl refl

  pub stop-IsTold :
      (c : CloseCalls) (m : Machine R) → ((stop h c m).0 ≡ m) ⊎ IsTold f (stop h c m).0.outer
  unfolding stop
  stop-IsTold c m = stop_in-IsTold m.tailnet.current_state c m
