-- ===== src/Sse/Before.antt =====
-- What a broadcast that has ended says of the channels before it.
use tailhopper.Base.{
  ℕ, zero, suc, Str, str_eq, get_elem?, set, length-append, ◌≡◌, inl, inr, refl, sym, subst,
  Bool-cases, Option, Option-cases, none, some, List, [], ◌∷◌, All-map, arith,
}
use tailhopper.Sse.{Channel, SseBroadcaster, find, send, enqueue, deliver, broadcast, snapshot}
use tailhopper.Sse.Laws.{IsOpenChannel}
use tailhopper.Sse.Invariant.{Inv, HasOpen}
use tailhopper.Sse.Delivery.{broadcast_delivers}

send_back :
    (event : Str) (ch ch' : Channel)
    → send event ch ≡ some ch'
    → IsOpenChannel (some ch')
    → IsOpenChannel (some ch)
unfolding send enqueue
send_back event ch ch' e h = ground (arith, length-append ch.buffer (event ∷ []))

set_back :
    (cs : List Channel) (a x : ℕ) (ch ch' : Channel)
    → get_elem? cs a ≡ some ch
    → (IsOpenChannel (some ch') → IsOpenChannel (some ch))
    → IsOpenChannel (get_elem? (set cs a ch') x)
    → IsOpenChannel (get_elem? cs x)
set_back [] a x ch ch' e f h = h
set_back (c ∷ cs) zero zero ch ch' e f h = subst IsOpenChannel (sym e) (f h)
set_back (c ∷ cs) zero (suc x) ch ch' e f h = h
set_back (c ∷ cs) (suc a) zero ch ch' e f h = h
set_back (c ∷ cs) (suc a) (suc x) ch ch' e f h = set_back cs a x ch ch' e f h

deliver_back :
    (event : Str) (to : List ℕ) (cs cs' : List Channel) (x : ℕ)
    → deliver event to cs ≡ some cs'
    → IsOpenChannel (get_elem? cs' x)
    → IsOpenChannel (get_elem? cs x)
unfolding deliver
deliver_back event [] cs cs' x e h = let same : cs ≡ cs' = ground arith in rw same h
deliver_back event (a ∷ to) cs cs' x e h = elim (Option-cases (get_elem? cs a)) [
  | inl q ↦
      let skipped : deliver event to cs ≡ some cs' = ground arith in
      deliver_back event to cs cs' x skipped h
  | inr (ch, q) ↦ elim (Option-cases (send event ch)) [
    | inl r ↦ ground arith
    | inr (ch', r) ↦
        let later : deliver event to (set cs a ch') ≡ some cs' = ground arith in
        set_back cs a x ch ch' q (send_back event ch ch' r)
          (deliver_back event to (set cs a ch') cs' x later h)
  ]
]

found_open :
    (cs : List Channel) (id : Str) (m : List (Str × ℕ)) (a : ℕ)
    → HasOpen cs m
    → find id m ≡ some a
    → (ch : Channel) × (get_elem? cs a ≡ some ch)
unfolding find
found_open cs id [] a h e = cc
found_open cs id ((k, x) ∷ m) a h e = elim (Bool-cases (str_eq k id)) [
  | inl hit ↦ let same : x ≡ a = ground arith in rw (← same) (open_some (get_elem? cs x) h.0)
  | inr miss ↦ let later : find id m ≡ some a = ground arith in found_open cs id m a h.1 later
]
  where
    open_some : (o : Option Channel) → IsOpenChannel o → (ch : Channel) × (o ≡ some ch)
    open_some none h = elim h [ ]
    open_some (some ch) h = (ch, refl)

-- The event stands in the channel of each subscriber, as `enqueue` puts it there.
abbrev pub HaveHeard : Str → SseBroadcaster → Type 0
HaveHeard event b =
    (id : Str) (a : ℕ)
    → find id b.subscribers ≡ some a
    → (ch : Channel) × (get_elem? b.channels a ≡ some (enqueue event ch))

pub broadcast-HaveHeard :
    (event : Str) (b b' : SseBroadcaster)
    → broadcast event b ≡ some b'
    → Inv b'
    → HaveHeard event b'
unfolding broadcast
broadcast-HaveHeard event b b' e v = elim (Option-cases (deliver event (snapshot b) b.channels)) [
  | inl q ↦ ground arith
  | inr (cs, q) ↦
      let after : b' ≡ record b { channels = cs } = ground arith in
      let v' : Inv (record b { channels = cs }) = subst Inv after v in
      let before : Inv b = record {
        opened =
            All-map _ _ (λ d. deliver_back event (snapshot b) b.channels cs d.1 q) b.subscribers
              v'.opened;
        distinct = v'.distinct;
      } in
      λ id a f.
        let known : find id b.subscribers ≡ some a =
          subst (λ y. find id y.subscribers ≡ some a) after f in
        let (ch, at) = found_open b.channels id b.subscribers a before.opened known in
        (ch, (broadcast_delivers event id b b' a ch before known at e).0)
]
