-- ===== src/Sse/Race.antt =====
-- What happens when a client leaves between the two parts of a broadcast.
use tailhopper.Base.{
  ℕ, zero, suc, Str, str_eq, get_elem?, set, get_elem?-set_ne, ◌≡◌, ◌≢◌, inl, inr, refl, ap, true,
  false, none, some, List, [], ◌∷◌, ◌++◌, map, arith, Bool-cases, Option-cases,
}
use tailhopper.Sse.{Channel, SseBroadcaster, unsubscribe, find, snapshot, enqueue, send, deliver}
use tailhopper.Sse.Laws.{send_open}

-- A channel that is there and has been closed.
abbrev IsClosedAt : List Channel → ℕ → Type 0
IsClosedAt cs a = (ch : Channel) × (get_elem? cs a ≡ some ch) × (ch.closed ≡ true)

close_closed :
    (cs : List Channel) (a : ℕ) (ch : Channel)
    → get_elem? cs a ≡ some ch
    → get_elem? (set cs a (record ch { closed = true })) a ≡ some (record ch { closed = true })
close_closed [] a ch e = cc
close_closed (c ∷ cs) zero ch e = refl
close_closed (c ∷ cs) (suc a) ch e = close_closed cs a ch e

unsubscribe-channels :
    (id : Str) (b : SseBroadcaster) (a : ℕ) (ch : Channel)
    → find id b.subscribers ≡ some a
    → get_elem? b.channels a ≡ some ch
    → (unsubscribe id b).channels ≡ set b.channels a (record ch { closed = true })
unfolding unsubscribe
unsubscribe-channels id b a ch found e = ground arith

send_closed : (event : Str) (ch : Channel) → ch.closed ≡ true → send event ch ≡ none
unfolding send
send_closed event ch e = ground arith

deliver-cons_none :
    (event : Str) (cs : List Channel) (x : ℕ) (rest : List ℕ)
    → get_elem? cs x ≡ none
    → deliver event (x ∷ rest) cs ≡ deliver event rest cs
unfolding deliver
deliver-cons_none event cs x rest e = rw e

deliver-cons_closed :
    (event : Str) (cs : List Channel) (x : ℕ) (rest : List ℕ)
    → IsClosedAt cs x
    → deliver event (x ∷ rest) cs ≡ none
unfolding deliver
deliver-cons_closed event cs x rest (ch, e, c) = rw e (rw (send_closed event ch c))

deliver-cons_open :
    (event : Str) (cs : List Channel) (x : ℕ) (rest : List ℕ) (ch : Channel)
    → get_elem? cs x ≡ some ch
    → ch.closed ≡ false
    → deliver event (x ∷ rest) cs ≡ deliver event rest (set cs x (enqueue event ch))
unfolding deliver
deliver-cons_open event cs x rest ch e o = rw e (rw (send_open event ch o))

-- A closed channel stays closed under a send to an open one.
still_closed :
    (cs : List Channel) (a x : ℕ) (new ch : Channel)
    → get_elem? cs x ≡ some ch
    → ch.closed ≡ false
    → IsClosedAt cs a
    → IsClosedAt (set cs x new) a
still_closed cs a x new ch e o (k, at_a, c) =
    (k, rw (get_elem?-set_ne cs {i = x} {j = a} new (apart cs a x ch k e o at_a c)) at_a, c)
  where
    apart :
        (cs : List Channel) (a x : ℕ) (ch k : Channel)
        → get_elem? cs x ≡ some ch
        → ch.closed ≡ false
        → get_elem? cs a ≡ some k
        → k.closed ≡ true
        → x ≢ a
    apart cs a x ch k e o at_a c same = ground (arith, ap (get_elem? cs) same)

-- A send to a channel that is closed, somewhere in the loop, ends the loop in a panic.
deliver_closed :
    (event : Str) (before after : List ℕ) (a : ℕ) (cs : List Channel)
    → IsClosedAt cs a
    → deliver event (before ++ a ∷ after) cs ≡ none
deliver_closed event [] after a cs h = deliver-cons_closed event cs a after h
deliver_closed event (x ∷ before) after a cs h = elim (Option-cases (get_elem? cs x)) [
  | inl e ↦
      rw (deliver-cons_none event cs x (before ++ a ∷ after) e)
        (deliver_closed event before after a cs h)
  | inr (ch, e) ↦ elim (Bool-cases ch.closed) [
    | inl c ↦ deliver-cons_closed event cs x (before ++ a ∷ after) (ch, e, c)
    | inr o ↦ rw (deliver-cons_open event cs x (before ++ a ∷ after) ch e o) (
        deliver_closed event before after a (set cs x (enqueue event ch))
          (still_closed cs a x (enqueue event ch) ch e o h))
  ]
]

-- A subscriber's channel is among those that a broadcast copies.
copied :
    (id : Str) (m : List (Str × ℕ)) (a : ℕ)
    → find id m ≡ some a
    → (before : List ℕ) × (after : List ℕ) × (map (λ e. e.1) m ≡ before ++ a ∷ after)
unfolding find
copied id [] a e = cc
copied id ((k, x) ∷ m) a e = elim (Bool-cases (str_eq k id)) [
  | inl hit ↦
      let same : x ≡ a = ground arith in ([], map (λ e. e.1) m, ap (λ t. t ∷ map (λ e. e.1) m) same)
  | inr miss ↦
      let (before, after, split) = copied id m a (ground arith) in
      (x ∷ before, after, ap (◌∷◌ x) split)
]

-- If a client with a channel unsubscribes after a broadcast has copied the channels and before the
-- sends, then the sends of that broadcast panic.
pub broadcast_race :
    (event id : Str) (b : SseBroadcaster) (a : ℕ) (ch : Channel)
    → find id b.subscribers ≡ some a
    → get_elem? b.channels a ≡ some ch
    → deliver event (snapshot b) (unsubscribe id b).channels ≡ none
unfolding snapshot
broadcast_race event id b a ch found e =
    let (before, after, split) = copied id b.subscribers a found in
    rw split (
      deliver_closed event before after a (unsubscribe id b).channels (
        rw (unsubscribe-channels id b a ch found e)
          (record ch { closed = true }, close_closed b.channels a ch e, refl)))
