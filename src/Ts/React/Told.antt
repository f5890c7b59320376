-- ===== src/Ts/React/Told.antt =====
-- A reaction that changes what a snapshot shows ends with a broadcast.
use tailhopper.Base.{◌≡◌, ◌⊎◌, inl, inr, refl, ap, ◌∙◌, some, Bool-cases}
use tailhopper.Ts.Ipn.{IpnState}
use tailhopper.Ts.Tailnet.{Machine, Hooks, snapshot}
use tailhopper.Ts.Told.{IsTold, notify-IsTold}
use tailhopper.Ts.Stop.{CloseCalls}
use tailhopper.Ts.React.{process_in, terminal_cleanup, react_to_ipn_state_change}
use tailhopper.Ts.React.Honest.{process_in_honest}
use tailhopper.Ts.State.{is_terminal}

module _ {R : Type 0} where
  cleanup_shown :
      (c : CloseCalls) (m : Machine R)
      → snapshot (terminal_cleanup c m).tailnet ≡ snapshot m.tailnet
  unfolding terminal_cleanup snapshot
  cleanup_shown c m = elim (Bool-cases (is_terminal m.tailnet.current_state)) [
    | inl e ↦ rw e refl
    | inr e ↦ rw e refl
  ]

module _ {R : Type 0} (h : Hooks R) (f : R → R) (b : h.broadcast ≡ some f) where
  pub react-IsTold :
      (c : CloseCalls) (s : IpnState) (m : Machine R)
      → (snapshot (react_to_ipn_state_change h c s m).tailnet ≡ snapshot m.tailnet)
        ⊎ IsTold f (react_to_ipn_state_change h c s m).outer
  unfolding react_to_ipn_state_change
  react-IsTold c s m =
      let p = process_in h m.tailnet.current_state s m in
      elim (Bool-cases p.1) [
        | inl e ↦ rw e (inr (notify-IsTold h f b (terminal_cleanup c p.0)))
        | inr e ↦ rw e (
            inl (
              cleanup_shown c p.0
              ∙ ap snapshot (process_in_honest h m.tailnet.current_state s m e)))
      ]
