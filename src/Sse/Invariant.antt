-- ===== src/Sse/Invariant.antt =====
-- Between two operations every subscriber has an open channel of its own, so that a broadcast that
-- nothing interrupts cannot panic.
use tailhopper.Base.{
  ℕ, zero, suc, Str, str_eq, length, get_elem?, get_elem?-set_ne, ◌<◌, ◌≡◌, ◌≢◌, inl, inr, refl,
  sym, false, Option, none, some, List, [], ◌∷◌, ◌++◌, map, All, All-map, arith, Bool-cases,
  Option-cases,
}
use tailhopper.Sse.{
  Channel, SseBroadcaster, subscribe, unsubscribe, find, put, take_out, snapshot, broadcast,
  new_sse_broadcaster, close_in,
}
use tailhopper.Sse.Laws.{IsOpenChannel, deliver_open, delivered, delivered-AllOpen, AllOpen}

-- Each entry's channel is open, and is no other entry's.
abbrev pub HasOpen : List Channel → List (Str × ℕ) → Type 0
HasOpen cs = All (λ e. IsOpenChannel (get_elem? cs e.1))

abbrev pub HasDistinct : List (Str × ℕ) → Type 0
HasDistinct [] = Unit
HasDistinct (e ∷ m) = All (λ d. d.1 ≢ e.1) m × HasDistinct m

pub record Inv (b : SseBroadcaster) : Type 0 where
  pub opened : HasOpen b.channels b.subscribers
  pub distinct : HasDistinct b.subscribers

new-Inv : Inv new_sse_broadcaster
unfolding new_sse_broadcaster
new-Inv = record { opened = tt; distinct = tt }

module _ {κ} (P : Str × ℕ → Type κ) where
  All-put : (id : Str) (a : ℕ) (m : List (Str × ℕ)) → P (id, a) → All P m → All P (put id a m)
  unfolding put
  All-put id a [] p h = (p, tt)
  All-put id a ((k, c) ∷ m) p h = elim (Bool-cases (str_eq k id)) [
    | inl e ↦ rw e (p, h.1)
    | inr e ↦ rw e (h.0, All-put id a m p h.1)
  ]

  All-take_out : (id : Str) (m : List (Str × ℕ)) → All P m → All P (take_out id m)
  unfolding take_out
  All-take_out id [] h = tt
  All-take_out id ((k, c) ∷ m) h = elim (Bool-cases (str_eq k id)) [
    | inl e ↦ rw e (All-take_out id m h.1)
    | inr e ↦ rw e (h.0, All-take_out id m h.1)
  ]

HasDistinct-put :
    (id : Str) (a : ℕ) (m : List (Str × ℕ))
    → All (λ d. d.1 ≢ a) m
    → HasDistinct m
    → HasDistinct (put id a m)
unfolding put
HasDistinct-put id a [] n d = (tt, tt)
HasDistinct-put id a ((k, c) ∷ m) n d = elim (Bool-cases (str_eq k id)) [
  | inl e ↦ rw e (n.1, d.1)
  | inr e ↦
      rw e (All-put (λ x. x.1 ≢ c) id a m (λ q. n.0 (sym q)) d.0, HasDistinct-put id a m n.1 d.1)
]

HasDistinct-take_out : (id : Str) (m : List (Str × ℕ)) → HasDistinct m → HasDistinct (take_out id m)
unfolding take_out
HasDistinct-take_out id [] d = tt
HasDistinct-take_out id ((k, c) ∷ m) d = elim (Bool-cases (str_eq k id)) [
  | inl e ↦ rw e (HasDistinct-take_out id m d.1)
  | inr e ↦ rw e (All-take_out (λ x. x.1 ≢ c) id m d.0, HasDistinct-take_out id m d.1)
]

pub find-ne :
    (id : Str) (m : List (Str × ℕ)) (a c : ℕ) → All (λ d. d.1 ≢ c) m → find id m ≡ some a → a ≢ c
unfolding find
find-ne id [] a c n e q = cc
find-ne id ((k, x) ∷ m) a c n e q = ground (arith, find-ne id m a c n.1, n.0)

-- The other entries have other channels.
take_out-ne :
    (id : Str) (m : List (Str × ℕ)) (a : ℕ)
    → HasDistinct m
    → find id m ≡ some a
    → All (λ d. d.1 ≢ a) (take_out id m)
unfolding take_out find
take_out-ne id [] a d e = tt
take_out-ne id ((k, x) ∷ m) a d e = elim (Bool-cases (str_eq k id)) [
  | inl hit ↦
      let same : x ≡ a = ground arith in rw hit (All-take_out (λ c. c.1 ≢ a) id m (rw (← same) d.0))
  | inr miss ↦
      let later : find id m ≡ some a = ground arith in
      rw miss ((λ q. find-ne id m a x d.0 later (sym q)), take_out-ne id m a d.1 later)
]

close_other :
    (cs : List Channel) (a x : ℕ) (o : Option Channel)
    → x ≢ a
    → IsOpenChannel (get_elem? cs x)
    → IsOpenChannel (get_elem? (close_in cs a o) x)
close_other cs a x none ne h = h
close_other cs a x (some ch) ne h = rw (get_elem?-set_ne cs {i = a} {j = x} _ (λ q. ne (sym q))) h

open_lt : (cs : List Channel) (a : ℕ) → IsOpenChannel (get_elem? cs a) → a < length cs
open_lt [] a h = elim h [ ]
open_lt (c ∷ cs) zero h = omega arith
open_lt (c ∷ cs) (suc a) h = omega (arith, open_lt cs a h)

open_append :
    (cs : List Channel) (c : Channel) (a : ℕ)
    → IsOpenChannel (get_elem? cs a)
    → IsOpenChannel (get_elem? (cs ++ c ∷ []) a)
open_append [] c a h = elim h [ ]
open_append (x ∷ cs) c zero h = h
open_append (x ∷ cs) c (suc a) h = open_append cs c a h

open_last :
    (cs : List Channel)
    → IsOpenChannel (get_elem? (cs ++ record { buffer = []; closed = false } ∷ []) (length cs))
open_last [] = (refl, omega arith)
open_last (c ∷ cs) = open_last cs

subscribe-Inv : (b : SseBroadcaster) → Inv b → Inv (subscribe b).0
unfolding subscribe
subscribe-Inv b v =
    let fresh : ℕ = length b.channels in
    record {
      opened =
          All-put _ _ fresh b.subscribers (open_last b.channels)
            (All-map _ _ (λ e. open_append b.channels _ e.1) b.subscribers v.opened);
      distinct =
          HasDistinct-put _ fresh b.subscribers
            (All-map _ _ (λ e h q. below e.1 h q) b.subscribers v.opened) v.distinct;
    }
  where
    below : (a : ℕ) → IsOpenChannel (get_elem? b.channels a) → a ≢ length b.channels
    below a h q = omega (arith, open_lt b.channels a h, q)

AllBoth :
    {A : Type 0} (P Q R : A → Type 0)
    → ((a : A) → P a → Q a → R a)
    → (xs : List A) → All P xs
    → All Q xs
    → All R xs
AllBoth P Q R f [] h k = tt
AllBoth P Q R f (x ∷ xs) h k = (f x h.0 k.0, AllBoth P Q R f xs h.1 k.1)

unsubscribe-found :
    (id : Str) (b : SseBroadcaster) (a : ℕ)
    → find id b.subscribers ≡ some a
    → unsubscribe id b ≡ record b {
      subscribers = take_out id b.subscribers;
      channels = close_in b.channels a (get_elem? b.channels a);
    }
unfolding unsubscribe
unsubscribe-found id b a e = simp e

unsubscribe-unknown :
    (id : Str) (b : SseBroadcaster) → find id b.subscribers ≡ none → unsubscribe id b ≡ b
unfolding unsubscribe
unsubscribe-unknown id b e = simp e

unsubscribe-Inv : (id : Str) (b : SseBroadcaster) → Inv b → Inv (unsubscribe id b)
unsubscribe-Inv id b v = elim (Option-cases (find id b.subscribers)) [
  | inl e ↦ rw (unsubscribe-unknown id b e) v
  | inr (a, e) ↦ rw (unsubscribe-found id b a e) (record {
    opened =
        AllBoth _ _ _ (λ d. close_other b.channels a d.1 (get_elem? b.channels a))
          (take_out id b.subscribers) (take_out-ne id b.subscribers a v.distinct e)
          (All-take_out _ id b.subscribers v.opened);
    distinct = HasDistinct-take_out id b.subscribers v.distinct;
  })
]

pub AllOpen-snapshot :
    (cs : List Channel) (m : List (Str × ℕ)) → HasOpen cs m → AllOpen (map (λ e. e.1) m) cs
AllOpen-snapshot cs [] h = tt
AllOpen-snapshot cs (e ∷ m) h = (h.0, AllOpen-snapshot cs m h.1)

HasOpen-snapshot :
    (cs : List Channel) (m : List (Str × ℕ)) → AllOpen (map (λ e. e.1) m) cs → HasOpen cs m
HasOpen-snapshot cs [] h = tt
HasOpen-snapshot cs (e ∷ m) h = (h.0, HasOpen-snapshot cs m h.1)

-- An uninterrupted broadcast does not panic, and keeps every channel open.
pub broadcast-Inv :
    (event : Str) (b : SseBroadcaster)
    → Inv b
    → (b' : SseBroadcaster) × (broadcast event b ≡ some b')
      × Inv b'
      × (b'.subscribers ≡ b.subscribers)
unfolding broadcast snapshot
broadcast-Inv event b v =
    let all = map (λ e. e.1) b.subscribers in
    let o = AllOpen-snapshot b.channels b.subscribers v.opened in
    (
      record b { channels = delivered event all b.channels },
      rw (deliver_open event all b.channels o),
      record {
        opened = HasOpen-snapshot _ b.subscribers (delivered-AllOpen event all all b.channels o);
        distinct = v.distinct;
      },
      refl,
    )

-- The operations of clients and broadcasts, each run to its end before the next.
pub data Request : Type 0 where
  subscribes : Request
  unsubscribes broadcasts : Str → Request

abbrev and_run :
    Option SseBroadcaster → (SseBroadcaster → Option SseBroadcaster) → Option SseBroadcaster
and_run none f = none
and_run (some b) f = f b

perform : Request → SseBroadcaster → Option SseBroadcaster
perform subscribes b = some (subscribe b).0
perform (unsubscribes id) b = some (unsubscribe id b)
perform (broadcasts event) b = broadcast event b

unfoldable pub perform_all : List Request → SseBroadcaster → Option SseBroadcaster
unfolding perform
perform_all [] b = some b
perform_all (r ∷ rs) b = and_run (perform r b) (perform_all rs)

perform-Inv :
    (r : Request) (b : SseBroadcaster)
    → Inv b
    → (b' : SseBroadcaster) × (perform r b ≡ some b') × Inv b'
unfolding perform
perform-Inv subscribes b v = ((subscribe b).0, refl, subscribe-Inv b v)
perform-Inv (unsubscribes id) b v = (unsubscribe id b, refl, unsubscribe-Inv id b v)
perform-Inv (broadcasts event) b v = let (b', e, w, _) = broadcast-Inv event b v in (b', e, w)

-- From a broadcaster in which every subscriber has an open channel of its own, every sequence of
-- subscriptions, unsubscriptions and broadcasts, each run to its end before the next, ends with no
-- panic in such a broadcaster.
pub perform_all-Inv :
    (rs : List Request) (b : SseBroadcaster)
    → Inv b
    → (b' : SseBroadcaster) × (perform_all rs b ≡ some b') × Inv b'
unfolding perform_all
perform_all-Inv [] b v = (b, refl, v)
perform_all-Inv (r ∷ rs) b v =
    let (b1, e1, v1) = perform-Inv r b v in
    let (b2, e2, v2) = perform_all-Inv rs b1 v1 in (b2, rw e1 e2, v2)
