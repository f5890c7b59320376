-- ===== src/Sse/Laws.antt =====
-- What subscribers can rely on, and the race between a broadcast and an unsubscription.
use tailhopper.Base.{
  ℕ, zero, suc, Str, length, length-append, get_elem?, set, ◌≤◌, ◌≡◌, refl, ap, ◌∙◌, false, Option,
  none, some, List, [], ◌∷◌, All, All-map, arith,
}
use tailhopper.Sse.{Channel, capacity, enqueue, send, deliver}

abbrev pub IsOpenChannel : Option Channel → Type 0
IsOpenChannel none = ⊥
IsOpenChannel (some ch) = (ch.closed ≡ false) × (length ch.buffer ≤ capacity)

-- The channels at these addresses exist, are open, and hold no more than they can.
abbrev pub AllOpen : List ℕ → List Channel → Type 0
AllOpen addresses cs = All (λ a. IsOpenChannel (get_elem? cs a)) addresses

enqueue-Open :
    (event : Str) (ch : Channel) → IsOpenChannel (some ch) → IsOpenChannel (some (enqueue event ch))
unfolding enqueue
enqueue-Open event ch h = ground (arith, length-append ch.buffer (event ∷ []))

-- The channels after a send to one of them.
unfoldable pub sent_to : Str → List Channel → ℕ → List Channel
sent_to event [] a = []
sent_to event (c ∷ cs) zero = enqueue event c ∷ cs
sent_to event (c ∷ cs) (suc a) = c ∷ sent_to event cs a

sent_to-get :
    (event : Str) (cs : List Channel) (a x : ℕ)
    → IsOpenChannel (get_elem? cs x)
    → IsOpenChannel (get_elem? (sent_to event cs a) x)
unfolding sent_to
sent_to-get event [] a x h = h
sent_to-get event (c ∷ cs) zero zero h = enqueue-Open event c h
sent_to-get event (c ∷ cs) zero (suc x) h = h
sent_to-get event (c ∷ cs) (suc a) zero h = h
sent_to-get event (c ∷ cs) (suc a) (suc x) h = sent_to-get event cs a x h

sent_to-set :
    (event : Str) (cs : List Channel) (a : ℕ) (ch : Channel)
    → get_elem? cs a ≡ some ch
    → set cs a (enqueue event ch) ≡ sent_to event cs a
unfolding sent_to
sent_to-set event [] a ch e = cc
sent_to-set event (c ∷ cs) zero ch e = ground arith
sent_to-set event (c ∷ cs) (suc a) ch e = ap (◌∷◌ c) (sent_to-set event cs a ch e)

-- What `Broadcast` leaves in the channels, when all are open.
unfoldable pub delivered : Str → List ℕ → List Channel → List Channel
delivered event [] cs = cs
delivered event (a ∷ rest) cs = delivered event rest (sent_to event cs a)

AllOpen-sent_to :
    (event : Str) (cs : List Channel) (a : ℕ) (addresses : List ℕ)
    → AllOpen addresses cs
    → AllOpen addresses (sent_to event cs a)
AllOpen-sent_to event cs a addresses h = All-map _ _ (λ x. sent_to-get event cs a x) addresses h

pub send_open :
    (event : Str) (ch : Channel) → ch.closed ≡ false → send event ch ≡ some (enqueue event ch)
unfolding send
send_open event ch h = ground arith

deliver_one :
    (event : Str) (cs : List Channel) (a : ℕ) (rest : List ℕ) (o : Option Channel)
    → get_elem? cs a ≡ o
    → IsOpenChannel o
    → deliver event (a ∷ rest) cs ≡ deliver event rest (sent_to event cs a)
unfolding deliver
deliver_one event cs a rest none e h = elim h [ ]
deliver_one event cs a rest (some ch) e h =
    rw e (rw (send_open event ch h.0) (rw (sent_to-set event cs a ch e)))

-- A broadcast does not panic while every channel that it has copied is open.
pub deliver_open :
    (event : Str) (addresses : List ℕ) (cs : List Channel)
    → AllOpen addresses cs
    → deliver event addresses cs ≡ some (delivered event addresses cs)
unfolding delivered deliver
deliver_open event [] cs h = refl
deliver_open event (a ∷ rest) cs h =
    deliver_one event cs a rest (get_elem? cs a) refl h.0
    ∙ deliver_open event rest (sent_to event cs a) (AllOpen-sent_to event cs a rest h.1)

pub delivered-AllOpen :
    (event : Str) (addresses watched : List ℕ) (cs : List Channel)
    → AllOpen watched cs
    → AllOpen watched (delivered event addresses cs)
unfolding delivered
delivered-AllOpen event [] watched cs h = h
delivered-AllOpen event (a ∷ rest) watched cs h =
    delivered-AllOpen event rest watched (sent_to event cs a) (AllOpen-sent_to event cs a watched h)
