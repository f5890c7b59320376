-- ===== src/Ts/Watcher/Laws.antt =====
-- When `Close` ends because the goroutine is gone, and when only after five seconds.
use tailhopper.Base.{◌≡◌, ◌≢◌, ◌⊎◌, inl, inr, refl, ◌∙◌, true, false, none, arith}
use tailhopper.Ts.Ipn.{IpnState}
use tailhopper.Ts.Watcher.{
  locking, cleaning, Watcher, Bus, started_watcher, advance, begin_close, is_done, stop_closes,
  callback_closes, Step, advances, stop_enters, stop_leaves, callback_enters, callback_leaves,
  Reach, here, next, Waits, begins, goes,
}

-- A callback that waits in `Close` has not returned.
abbrev Inv : Watcher → Type 0
Inv w = w.callback_waits ≡ true → w.loop ≡ cleaning

advance-Inv : (b : Bus) (w : Watcher) → Inv w → Inv (advance b w)
unfolding advance
advance-Inv b w v e = ground (arith, v)

Step-Inv : {w w' : Watcher} → Step w w' → Inv w → Inv w'
unfolding stop_closes callback_closes
Step-Inv {w} (advances b) v = advance-Inv b w v
Step-Inv {w} (stop_enters e) v = v
Step-Inv {w} (stop_leaves e) v = v
Step-Inv {w} (callback_enters f e) v = λ g. f
Step-Inv {w} (callback_leaves e) v = λ g. cc

Reach-Inv : (z : IpnState) {w : Watcher} → Reach (started_watcher z) w → Inv w
unfolding started_watcher
Reach-Inv z here e = cc
Reach-Inv z (next r s) e = Step-Inv s (Reach-Inv z r) e

advance-locking :
    (b : Bus) (w : Watcher) → w.loop ≡ locking → w.stop_waits ≡ true → (advance b w).loop ≡ locking
unfolding advance
advance-locking b w e f = ground (arith, e, f)

advance-stop_waits : (b : Bus) (w : Watcher) → (advance b w).stop_waits ≡ w.stop_waits
unfolding advance
advance-stop_waits b w = ground arith

record IsStuck (w : Watcher) : Type 0 where
  loop : w.loop ≡ locking
  stop_waits : w.stop_waits ≡ true

Step-IsStuck : {w w' : Watcher} → Step w w' → w'.stop_waits ≡ true → IsStuck w → IsStuck w'
unfolding stop_closes callback_closes
Step-IsStuck {w} (advances b) e s = record {
  loop = advance-locking b w s.loop s.stop_waits;
  stop_waits = e;
}
Step-IsStuck {w} (stop_enters f) e s = record { loop = s.loop; stop_waits = e }
Step-IsStuck {w} (stop_leaves f) e s = cc
Step-IsStuck {w} (callback_enters f g) e s = record { loop = s.loop; stop_waits = e }
Step-IsStuck {w} (callback_leaves f) e s = record { loop = s.loop; stop_waits = e }

Waits-IsStuck : {w w' : Watcher} → IsStuck w → Waits w w' → IsStuck w'
Waits-IsStuck s begins = s
Waits-IsStuck s (goes p q e) = Step-IsStuck q e (Waits-IsStuck s p)

-- In every state that a watcher reaches from its start in which its own callback waits in `Close`,
-- or in which `Stop` has been waiting in `Close` since a state with the callback just before the
-- lock of the tailnet, the goroutine is not gone.
pub close_in_vain :
    (z : IpnState) (w : Watcher)
    → Reach (started_watcher z) w
    → (w.callback_waits ≡ true) ⊎ ((v : Watcher) × (v.loop ≡ locking) × Waits (stop_closes v) w)
    → is_done w ≡ false
unfolding stop_closes is_done
close_in_vain z w r (inl e) = ground (arith, Reach-Inv z r e)
close_in_vain z w r (inr (v, e, p)) =
    let s = Waits-IsStuck (record { loop = e; stop_waits = refl }) p in ground (arith, s.loop)

-- The context can be cancelled, or is.
abbrev CanEnd : Watcher → Type 0
CanEnd w = (w.can_cancel ≡ true) ⊎ (w.cancelled ≡ true)

Step-CanEnd : {w w' : Watcher} → Step w w' → CanEnd w → CanEnd w'
unfolding stop_closes callback_closes begin_close advance
Step-CanEnd {w} (advances b) v = ground (arith, v)
Step-CanEnd {w} (stop_enters e) v = ground (arith, v)
Step-CanEnd {w} (stop_leaves e) v = v
Step-CanEnd {w} (callback_enters f e) v = ground (arith, v)
Step-CanEnd {w} (callback_leaves e) v = v

Reach-CanEnd : (z : IpnState) {w : Watcher} → Reach (started_watcher z) w → CanEnd w
unfolding started_watcher
Reach-CanEnd z here = inl refl
Reach-CanEnd z (next r s) = Step-CanEnd s (Reach-CanEnd z r)

cancels : (w : Watcher) → CanEnd w → (stop_closes w).cancelled ≡ true
unfolding stop_closes begin_close
cancels w v = ground (arith, v)

advance-cancelled : (b : Bus) (w : Watcher) → (advance b w).cancelled ≡ w.cancelled
unfolding advance
advance-cancelled b w = ground arith

exits :
    (w : Watcher) (b c : Bus)
    → w.loop ≢ locking
    → w.callback_waits ≡ false
    → b.next_notify ≡ none
    → c.next_notify ≡ none
    → is_done (advance c (advance b (stop_closes w))) ≡ true
unfolding stop_closes begin_close advance is_done
exits w b c ne e f g = ground (arith, ne, e, f, g)

-- If the bus fails once the context of the watcher is cancelled, then from a watcher that is not
-- just before the lock of the tailnet in its callback, and whose callback is not in `Close`,
-- reached from its start, the goroutine is gone at most two of its steps after `Stop` has called
-- `Close`.
pub close_succeeds :
    (z : IpnState) (w : Watcher) (bus : Watcher → Bus)
    → Reach (started_watcher z) w
    → ((v : Watcher) → v.cancelled ≡ true → (bus v).next_notify ≡ none)
    → w.loop ≢ locking
    → w.callback_waits ≡ false
    → let v = stop_closes w in let u = advance (bus v) v in is_done (advance (bus u) u) ≡ true
close_succeeds z w bus r ends ne e =
    let v = stop_closes w in
    let u = advance (bus v) v in
    let done = cancels w (Reach-CanEnd z r) in
    exits w (bus v) (bus u) ne e (ends v done) (ends u (advance-cancelled (bus v) v ∙ done))
