-- ===== src/Ts/Told.antt =====
-- What it means that the last thing a method does outside its tailnet is the broadcast.
use tailhopper.Base.{◌≡◌, some}
use tailhopper.Ts.State.{State}
use tailhopper.Ts.Tailnet.{Machine, Hooks, notify, set_state}

-- The outer state as the broadcast `f` leaves one.
pub data IsTold {R : Type 0} (f : R → R) : R → Type 0 where
  told : (r : R) → IsTold f (f r)

module _ {R : Type 0} (h : Hooks R) (f : R → R) (b : h.broadcast ≡ some f) where
  pub notify-IsTold : (m : Machine R) → IsTold f (notify h m).outer
  unfolding notify
  notify-IsTold m = simp b (told m.outer)

  pub set_state-IsTold : (s : State) (m : Machine R) → IsTold f (set_state h s m).outer
  unfolding set_state
  set_state-IsTold s m = notify-IsTold _
