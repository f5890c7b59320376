-- ===== src/Ts/Watcher.antt =====
-- The goroutine of a watcher and `Close`, of internal/ts/watcher.go, with the two callers of
-- `Close`: `Stop`, which holds the lock of the tailnet while it waits, and the cleanup after a fatal
-- error, which the callback of the goroutine itself runs (internal/ts/tailnet.go).
pub mod Laws
use tailhopper.Base.{◌≡◌, Bool, true, false, ◌||◌, Option, none, some, if◌then◌else◌}
use tailhopper.Ts.State.{Error}
use tailhopper.Ts.Ipn.{IpnState, Notify, refresh}

-- Where the goroutine stands: before the subscription, in `Next`, in the callback before it has the
-- lock of the tailnet, in the callback after it has given it up, or gone.
pub data Loop : Type 0 where
  subscribing waiting locking cleaning exited : Loop

-- `w.cancel` is not nil; the context is cancelled; `Stop` holds the lock of the tailnet and waits in
-- `Close`; the callback waits in `Close`.
pub record Watcher : Type 0 where
  pub can_cancel : Bool
  pub cancelled : Bool
  pub loop : Loop
  pub state : IpnState
  pub stop_waits : Bool
  pub callback_waits : Bool

-- How the next calls of the bus end: `WatchIPNBus`, and `Next`, where `none` is an error.
pub record Bus : Type 0 where
  pub subscribe : Option Error
  pub next_notify : Option Notify

-- `start`
unfoldable pub started_watcher : IpnState → Watcher
started_watcher zero_state = record {
  can_cancel = true;
  cancelled = false;
  loop = subscribing;
  state = zero_state;
  stop_waits = false;
  callback_waits = false;
}

subscribed : Option Error → Watcher → Watcher
subscribed none w = record w { loop = waiting }
subscribed (some e) w = record w { loop = exited }

received : Option Notify → Watcher → Watcher
received none w = record w { loop = exited }
received (some n) w = record w { state = refresh w.state n; loop = locking }

-- What the goroutine does next. A callback waits for the lock that `Stop` holds, and while it is in
-- `Close`.
advance_in : Loop → Bus → Watcher → Watcher
unfolding subscribed received
advance_in subscribing b w = subscribed b.subscribe w
advance_in waiting b w = received b.next_notify w
advance_in locking b w = if w.stop_waits then w else record w { loop = cleaning }
advance_in cleaning b w = if w.callback_waits then w else record w { loop = waiting }
advance_in exited b w = w

unfoldable pub advance : Bus → Watcher → Watcher
unfolding advance_in
advance b w = advance_in w.loop b w

-- `Close`, until it waits.
unfoldable pub begin_close : Watcher → Watcher
begin_close w = record w { cancelled = w.cancelled || w.can_cancel; can_cancel = false }

abbrev has_exited : Loop → Bool
has_exited exited = true
has_exited _ = false

-- The wait of `Close`: whether it ends because the goroutine is gone, and not after five seconds.
unfoldable pub is_done : Watcher → Bool
is_done w = has_exited w.loop

-- `Stop`
unfoldable pub stop_closes : Watcher → Watcher
unfolding begin_close
stop_closes w = record (begin_close w) { stop_waits = true }

-- `terminalCleanup.run` in the callback
unfoldable pub callback_closes : Watcher → Watcher
unfolding begin_close
callback_closes w = record (begin_close w) { callback_waits = true }

pub data Step (w : Watcher) : Watcher → Type 0 where
  advances : (b : Bus) → Step w (advance b w)
  stop_enters : w.stop_waits ≡ false → Step w (stop_closes w)
  stop_leaves : w.stop_waits ≡ true → Step w (record w { stop_waits = false })
  callback_enters : w.loop ≡ cleaning → w.callback_waits ≡ false → Step w (callback_closes w)
  callback_leaves : w.callback_waits ≡ true → Step w (record w { callback_waits = false })

pub data Reach (w : Watcher) : Watcher → Type 0 where
  here : Reach w w
  next : {p q : Watcher} → Reach w p → Step p q → Reach w q

-- As long as `Stop` waits.
pub data Waits (w : Watcher) : Watcher → Type 0 where
  begins : Waits w w
  goes : {p q : Watcher} → Waits w p → Step p q → q.stop_waits ≡ true → Waits w q
