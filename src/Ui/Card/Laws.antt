-- ===== src/Ui/Card/Laws.antt =====
-- What the toggle of a card asks for, against what the tailnet accepts.
use tailhopper.Base.{codes, Str, false, ◌≡◌, ◌≢◌, some, arith}
use tailhopper.Ts.State.{started, stopped, unable_to_stop}
use tailhopper.Ts.Tailnet.{Machine, Hooks}
use tailhopper.Ts.Start.{StartCalls, start}
use tailhopper.Ts.Stop.{CloseCalls, stop}
use tailhopper.Ui.Card.{is_toggle_disabled, toggle_action}
use tailhopper.Ui.Dashboard.{card_of}

module _ {R : Type 0} (h : Hooks R) (to_lower : Str → Str) where
  -- If a stopped tailnet is started and does not end in the started state, then the toggle of its
  -- card is not disabled and asks for a stop, and a stop is refused and changes nothing.
  pub failed_start_stuck :
      (c : StartCalls) (d : CloseCalls) (m : Machine R)
      → m.tailnet.current_state ≡ stopped
      → (start h c m).0.tailnet.current_state ≢ started
      → let m' = (start h c m).0 in
        (toggle_action (card_of to_lower m'.tailnet) ≡ codes "stop")
        × (is_toggle_disabled (card_of to_lower m'.tailnet) ≡ false)
        × (stop h d m' ≡ (m', some (unable_to_stop stopped)))
  unfolding toggle_action is_toggle_disabled card_of start stop
  failed_start_stuck c d m s l = ground arith
