-- ===== src/Sse/Delivery.antt =====
-- Who receives a broadcast.
use tailhopper.Base.{
  ℕ, zero, suc, Str, str_eq, get_elem?, ◌≡◌, ◌≢◌, inl, inr, refl, sym, ap, ◌∙◌, some, List, [], ◌∷◌,
  map, All, arith, Bool-cases,
}
use tailhopper.Sse.{Channel, SseBroadcaster, find, snapshot, enqueue, broadcast}
use tailhopper.Sse.Laws.{sent_to, delivered, deliver_open}
use tailhopper.Sse.Invariant.{Inv, HasDistinct, AllOpen-snapshot, find-ne}

sent_to_self :
    (event : Str) (cs : List Channel) (a : ℕ) (ch : Channel)
    → get_elem? cs a ≡ some ch
    → get_elem? (sent_to event cs a) a ≡ some (enqueue event ch)
unfolding sent_to
sent_to_self event [] a ch e = cc
sent_to_self event (c ∷ cs) zero ch e = ground arith
sent_to_self event (c ∷ cs) (suc a) ch e = sent_to_self event cs a ch e

sent_to_other :
    (event : Str) (cs : List Channel) (a x : ℕ)
    → a ≢ x
    → get_elem? (sent_to event cs a) x ≡ get_elem? cs x
unfolding sent_to
sent_to_other event [] a x ne = refl
sent_to_other event (c ∷ cs) zero zero ne = absurd (ne refl)
sent_to_other event (c ∷ cs) zero (suc x) ne = refl
sent_to_other event (c ∷ cs) (suc a) zero ne = refl
sent_to_other event (c ∷ cs) (suc a) (suc x) ne = sent_to_other event cs a x (λ e. ne (ap suc e))

delivered_others :
    (event : Str) (m : List (Str × ℕ)) (cs : List Channel) (x : ℕ)
    → All (λ d. d.1 ≢ x) m
    → get_elem? (delivered event (map (λ e. e.1) m) cs) x ≡ get_elem? cs x
unfolding delivered
delivered_others event [] cs x n = refl
delivered_others event ((k, a) ∷ m) cs x n =
    delivered_others event m (sent_to event cs a) x n.1 ∙ sent_to_other event cs a x n.0

delivered_to :
    (event id : Str) (m : List (Str × ℕ)) (cs : List Channel) (a : ℕ) (ch : Channel)
    → HasDistinct m
    → find id m ≡ some a
    → get_elem? cs a ≡ some ch
    → get_elem? (delivered event (map (λ e. e.1) m) cs) a ≡ some (enqueue event ch)
unfolding delivered find
delivered_to event id [] cs a ch d e g = cc
delivered_to event id ((k, x) ∷ m) cs a ch d e g = elim (Bool-cases (str_eq k id)) [
  | inl hit ↦
      let same : x ≡ a = ground arith in
      rw same (
        delivered_others event m (sent_to event cs a) a (rw (← same) d.0)
        ∙ sent_to_self event cs a ch g)
  | inr miss ↦
      let later : find id m ≡ some a = ground arith in
      delivered_to event id m (sent_to event cs x) a ch d.1 later
        (sent_to_other event cs x a (λ q. find-ne id m a x d.0 later (sym q)) ∙ g)
]

-- If every subscriber has an open channel of its own, then a broadcast that ends puts the event
-- into the channel of each subscriber as `enqueue` does, once, and leaves every channel that is no
-- subscriber's as it was.
pub broadcast_delivers :
    (event id : Str) (b b' : SseBroadcaster) (a : ℕ) (ch : Channel)
    → Inv b
    → find id b.subscribers ≡ some a
    → get_elem? b.channels a ≡ some ch
    → broadcast event b ≡ some b'
    → (get_elem? b'.channels a ≡ some (enqueue event ch))
      × ((x : ℕ)
          → All (λ d. d.1 ≢ x) b.subscribers
          → get_elem? b'.channels x ≡ get_elem? b.channels x)
unfolding broadcast snapshot
broadcast_delivers event id b b' a ch v found g e =
    let all = map (λ d. d.1) b.subscribers in
    let sent =
      deliver_open event all b.channels (AllOpen-snapshot b.channels b.subscribers v.opened) in
    let same : b'.channels ≡ delivered event all b.channels = ground arith in
    (
      rw same (delivered_to event id b.subscribers b.channels a ch v.distinct found g),
      λ x n. rw same (delivered_others event b.subscribers b.channels x n),
    )
