-- ===== src/Tests/Watcher.antt =====
-- A watcher and the two ways in which its `Close` waits in vain.
use tailhopper.Base.{◌≡◌, ◌≢◌, inl, inr, if◌then◌else◌, arith, refl, true, false, none, some, []}
use tailhopper.Ts.Ipn.{IpnState, Notify}
use tailhopper.Ts.Watcher.{
  Watcher, Bus, locking, started_watcher, advance, is_done, stop_closes, callback_closes, Reach,
  here, next, advances, stop_enters, callback_enters, Waits, begins, goes,
}
use tailhopper.Ts.Watcher.Laws.{close_in_vain, close_succeeds}

abbrev no_state : IpnState
no_state = record {
  state = none;
  err_message = none;
  browse_to_url = none;
  self_node = none;
  magic_dns_suffix = [];
  peers = [];
  display_messages = [];
}

abbrev silent : Notify
silent = record { state = none; err_message = none; browse_to_url = none; net_map = none }

abbrev talking : Bus
talking = record { subscribe = none; next_notify = some silent }

abbrev broken : Bus
broken = record { subscribe = none; next_notify = none }

abbrev listening : Watcher
listening = advance talking (started_watcher no_state)

abbrev notified : Watcher
notified = advance talking listening

abbrev in_cleanup : Watcher
in_cleanup = callback_closes (advance talking notified)

enters_close : Reach (started_watcher no_state) in_cleanup
unfolding started_watcher advance
enters_close =
    next (next (next (next here (advances talking)) (advances talking)) (advances talking))
      (callback_enters refl refl)

closing : in_cleanup.callback_waits ≡ true
unfolding callback_closes
closing = refl

close_in_vain_example : is_done in_cleanup ≡ false
close_in_vain_example = close_in_vain no_state in_cleanup enters_close (inl closing)

at_the_lock : notified.loop ≡ locking
unfolding started_watcher advance
at_the_lock = refl

abbrev stuck : Watcher
stuck = advance talking (stop_closes notified)

no_end_yet : Waits (stop_closes notified) stuck
unfolding started_watcher advance stop_closes
no_end_yet = goes begins (advances talking) refl

gets_stuck : Reach (started_watcher no_state) stuck
unfolding started_watcher advance
gets_stuck =
    next (next (next (next here (advances talking)) (advances talking)) (stop_enters refl))
      (advances talking)

stop_stuck : is_done stuck ≡ false
stop_stuck = close_in_vain no_state stuck gets_stuck (inr (notified, at_the_lock, no_end_yet))

-- The bus fails once the context is cancelled.
abbrev bus : Watcher → Bus
bus w = if w.cancelled then broken else talking

listens : Reach (started_watcher no_state) listening
listens = next here (advances talking)

not_locking : listening.loop ≢ locking
unfolding started_watcher advance
not_locking e = cc

no_callback : listening.callback_waits ≡ false
unfolding started_watcher advance
no_callback = refl

close_succeeds_example :
    let v = stop_closes listening in let u = advance (bus v) v in is_done (advance (bus u) u) ≡ true
close_succeeds_example =
    close_succeeds no_state listening bus listens (λ v e. ground (arith, e)) not_locking no_callback
