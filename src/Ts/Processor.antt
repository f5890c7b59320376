-- ===== src/Ts/Processor.antt =====
-- internal/ts/processor.go. An operation is a method that may change the state `S` and says
-- whether it did.
pub mod Laws
use tailhopper.Base.{Bool, true, false, ◌||◌, List, [], ◌∷◌, ◌++◌, if◌then◌else◌}
use tailhopper.Ts.Ipn.{IpnState}

module _ (S : Type 0) where
  abbrev pub Op : Type 0
  Op = IpnState → S → S × Bool

  pub record IpnProcessor : Type 0 where
    pub ipn_state : IpnState
    pub always_ops : List Op
    pub one_of_ops : List Op

module _ {S : Type 0} where
  unfoldable pub process_ipn : IpnState → IpnProcessor S
  process_ipn s = record { ipn_state = s; always_ops = []; one_of_ops = [] }

  unfoldable pub always : List (Op S) → IpnProcessor S → IpnProcessor S
  always ops p = record p { always_ops = p.always_ops ++ ops }

  unfoldable pub one_of : List (Op S) → IpnProcessor S → IpnProcessor S
  one_of transitions p = record p { one_of_ops = p.one_of_ops ++ transitions }

  -- The first loop of `Process`: every operation runs.
  unfoldable pub run_always : IpnState → List (Op S) → S → Bool → S × Bool
  run_always s [] m changed = (m, changed)
  run_always s (op ∷ ops) m changed = let (m', c) = op s m in run_always s ops m' (c || changed)

  -- The second loop: up to the first transition that succeeds.
  unfoldable pub run_one_of : IpnState → List (Op S) → S → Bool → S × Bool
  run_one_of s [] m changed = (m, changed)
  run_one_of s (op ∷ ops) m changed =
      let (m', c) = op s m in
      let rest = run_one_of s ops m' changed in if c then (m', true) else rest

  unfoldable pub process : IpnProcessor S → S → S × Bool
  unfolding run_always run_one_of
  process p m =
      let (m', changed) = run_always p.ipn_state p.always_ops m false in
      run_one_of p.ipn_state p.one_of_ops m' changed
