-- ===== src/Registry/Running.antt =====
-- How a tailnet of the registry is operated, and `RestoreEnabledTailnets`.
pub mod Restore
use tailhopper.Base.{
  ℕ, ℤ, get_elem?, set, Bool, true, false, Option, none, some, List, [], ◌∷◌, ◌&&◌, if◌then◌else◌,
}
use tailhopper.Ts.State.{State, stopped, is_user_enabled, Error}
use tailhopper.Ts.Tailnet.{Tailnet, Machine, Hooks, snapshot}
use tailhopper.Ts.Start.{StartCalls, start}
use tailhopper.Registry.Config.{Broadcaster, Store}
use tailhopper.Registry.Store.{hooks}
use tailhopper.Registry.World.{World, list}

abbrev is_stopped : State → Bool
is_stopped stopped = true
is_stopped _ = false

module _ {B : Type 0} (b : Option (Broadcaster B)) where
  put_back : {A : Type 0} → ℕ → World B → Machine (Store B) × A → World B × A
  put_back a w (m, x) =
      (record { store = m.outer; heap = set w.heap a m.tailnet; host = m.host }, x)

  run_on :
      {A : Type 0}
      → (Hooks (Store B) → Machine (Store B) → Machine (Store B) × A)
      → Option Tailnet
      → ℕ
      → World B
      → Option (World B × A)
  run_on f none a w = none
  run_on f (some t) a w =
      some
        (put_back a w (f (hooks b t.id) (record { tailnet = t; host = w.host; outer = w.store })))

  -- A method of the tailnet at an address, with the hooks that it was made with; `none` is a
  -- pointer to nothing, which does not occur.
  unfoldable pub run_at :
      {A : Type 0}
      → (Hooks (Store B) → Machine (Store B) → Machine (Store B) × A)
      → ℕ
      → World B
      → Option (World B × A)
  unfolding run_on put_back
  run_at f a w = run_on f (get_elem? w.heap a) a w

  -- One round of the loop of `RestoreEnabledTailnets`; the error of `Start` is logged only.
  restarted : Option (World B × Option Error) → World B → World B
  restarted none w = w
  restarted (some (w', e)) w = w'

  unfoldable pub restore_at : (ℤ → StartCalls) → Option Tailnet → ℕ → World B → World B
  unfolding restarted run_at
  restore_at calls none a w = w
  restore_at calls (some t) a w =
      if is_user_enabled (snapshot t).user_state && is_stopped (snapshot t).state
      then restarted (run_at (λ h. start h (calls t.id)) a w) w
      else w

  unfoldable pub restore_all : (ℤ → StartCalls) → List ℕ → World B → World B
  unfolding restore_at
  restore_all calls [] w = w
  restore_all calls (a ∷ rest) w =
      restore_all calls rest (restore_at calls (get_elem? w.heap a) a w)

  -- `RestoreEnabledTailnets`
  unfoldable pub restore_enabled_tailnets : (ℤ → StartCalls) → World B → World B
  unfolding restore_all
  restore_enabled_tailnets calls w = restore_all calls (list w) w
