-- ===== src/Ts/Stop/Kept.antt =====
-- Stop keeps a relation with the outer state that the hooks keep.
use tailhopper.Base.{ℕ, ℤ, Option, none, some, Option-cases, inl, inr}
use tailhopper.Ts.State.{
  State, connected, needs_login, needs_machine_auth, started, stopped, user_disabled,
}
use tailhopper.Ts.Tailnet.{Machine, Hooks, record_user_state}
use tailhopper.Ts.Persist.{Persist, IsKept, Holds, set_state-Holds, record_user_state-Holds}
use tailhopper.Ts.Stop.{
  CloseCalls, stop, stop_in, stop_running, stop_proxy, stop_watcher, stop_server,
}

module _ {R : Type 0} (h : Hooks R) (id : ℤ) (Q : Persist → R → Type 0) (k : IsKept h id Q) where
  stop_server-Holds :
      (c : CloseCalls) (s : Option ℕ) (m : Machine R)
      → Holds id Q m
      → Holds id Q (stop_server h c s m).0
  unfolding stop_server
  stop_server-Holds c none m v = v
  stop_server-Holds c (some s) m v = elim (Option-cases c.server_close) [
    | inr (e, q) ↦ rw q v
    | inl q ↦ rw q v
  ]

  stop_proxy-Holds :
      (c : CloseCalls) (p : Option ℕ) (m : Machine R)
      → Holds id Q m
      → Holds id Q (stop_proxy h c p m).0
  unfolding stop_proxy stop_watcher
  stop_proxy-Holds c none m v = stop_server-Holds c m.tailnet.server _ v
  stop_proxy-Holds c (some p) m v = elim (Option-cases c.proxy_close) [
    | inr (e, q) ↦ rw q v
    | inl q ↦ rw q (stop_server-Holds c m.tailnet.server _ v)
  ]

  stop_running-Holds :
      (c : CloseCalls) (m : Machine R) → Holds id Q m → Holds id Q (stop_running h c m).0
  unfolding stop_running
  stop_running-Holds c m v =
      set_state-Holds h id Q k stopped
        (stop_proxy h c m.tailnet.socks_proxy (record_user_state h user_disabled m)).0
        (stop_proxy-Holds c m.tailnet.socks_proxy _
          (record_user_state-Holds h id Q k user_disabled m v))

  stop_in-Holds :
      (s : State) (c : CloseCalls) (m : Machine R) → Holds id Q m → Holds id Q (stop_in h s c m).0
  unfolding stop_in
  stop_in-Holds connected c m v = stop_running-Holds c m v
  stop_in-Holds started c m v = stop_running-Holds c m v
  stop_in-Holds needs_login c m v = stop_running-Holds c m v
  stop_in-Holds needs_machine_auth c m v = stop_running-Holds c m v
  stop_in-Holds _ c m v = v

  pub stop-Holds : (c : CloseCalls) (m : Machine R) → Holds id Q m → Holds id Q (stop h c m).0
  unfolding stop
  stop-Holds c m v = stop_in-Holds m.tailnet.current_state c m v
