-- ===== src/System.antt =====
-- The registry and its tailnets together: critical sections of the tailnets, adds and deletes, in
-- any order and with any outcome of the external calls.
pub mod Inv
pub mod Kept
pub mod Entries
pub mod Grown
pub mod Laws
pub mod Pac
pub mod Boot
pub mod File
pub mod Saved
pub mod Life
pub mod MapOrder
pub mod Events
pub mod Told
pub mod Heard
use tailhopper.Base.{ℕ, ℤ, pos, max_int, Str, ◌<ℤ◌, Option, none, some}
use tailhopper.Ts.Ipn.{IpnState}
use tailhopper.Ts.Tailnet.{Machine, Hooks}
use tailhopper.Ts.Start.{StartCalls, start}
use tailhopper.Ts.Stop.{CloseCalls, stop}
use tailhopper.Ts.Logout.{LogoutCalls, logout_start, logout_end, in_flight}
use tailhopper.Ts.React.{react_to_ipn_state_change}
use tailhopper.Registry.Config.{Broadcaster, Store}
use tailhopper.Registry.World.{World}
use tailhopper.Registry.Running.{run_at}
use tailhopper.Registry.Changes.{Outside, AddCalls, add, delete_tailnet}

-- A critical section of a tailnet.
pub data Action : Type 0 where
  starts : StartCalls → Action
  stops : CloseCalls → Action
  begins_logout : Action
  ends_logout : LogoutCalls → ℕ → Action
  reacts : CloseCalls → IpnState → Action

unfoldable pub act : {R : Type 0} → Action → Hooks R → Machine R → Machine R
act (starts c) h m = (start h c m).0
act (stops c) h m = (stop h c m).0
act begins_logout h m = (logout_start h m).0
act (ends_logout c s) h m = (logout_end h c (in_flight s) m).0
act (reacts c s) h m = react_to_ipn_state_change h c s m

-- A pointer to nothing does not occur.
abbrev world_of : {B : Type 0} → World B → Option (World B × Unit {0}) → World B
world_of w none = w
world_of w (some (w', x)) = w'

module _ {B : Type 0} (b : Option (Broadcaster B)) (o : Outside) where
  -- The tailnet at an address acts, also after it has been deleted.
  unfoldable pub act_at : Action → ℕ → World B → World B
  unfolding run_at act
  act_at x a w = world_of w (run_at b (λ h m. (act x h m, tt)) a w)

  pub data Step (w : World B) : World B → Type 0 where
    acts : (x : Action) (a : ℕ) → Step w (act_at x a w)
    adds :
        (c : AddCalls) (hostname : Str)
        → w.store.registry.next_id <ℤ pos max_int
        → Step w (add b o c hostname w).0
    deletes : (id : ℤ) → Step w (delete_tailnet b id w).0

  pub data Reach (w : World B) : World B → Type 0 where
    here : Reach w w
    next : {p q : World B} → Reach w p → Step p q → Reach w q
