-- ===== src/Sse/Bounds.antt =====
-- What a channel holds when nobody receives: it has room for ten events.
use tailhopper.Base.{
  ℕ, zero, suc, ◌-◌, Str, get_elem?, length, length-append, leb, ◌≤◌, ◌≡◌, inl, inr, refl, sym,
  subst, ap, ◌∙◌, some, List, [], ◌∷◌, ◌++◌, map, arith, Bool-cases,
}
use mathlib.Core.List.{append_assoc, append-nil}
use tailhopper.Sse.{Channel, SseBroadcaster, find, enqueue}
use tailhopper.Sse.Invariant.{Inv, broadcast-Inv, perform_all, broadcasts}
use tailhopper.Sse.Delivery.{broadcast_delivers}

-- The first `n` of the events.
abbrev pub take : ℕ → List Str → List Str
take zero xs = []
take (suc n) [] = []
take (suc n) (x ∷ xs) = x ∷ take n xs

-- The channel once the events have come, in their order, and those that found it full are gone.
abbrev pub filled : Channel → List Str → Channel
filled ch events = record ch { buffer = ch.buffer ++ take (10 - length ch.buffer) events }

take-more :
    (n : ℕ) (e : Str) (es : List Str) → n ≤ 9 → take (10 - n) (e ∷ es) ≡ e ∷ take (10 - suc n) es
take-more n e es h =
    let more : 10 - n ≡ suc (10 - suc n) = omega (arith, h) in ap (λ k. take k (e ∷ es)) more

filled-enqueue :
    (e : Str) (es : List Str) (ch : Channel) → filled (enqueue e ch) es ≡ filled ch (e ∷ es)
unfolding enqueue
filled-enqueue e es ch = elim (Bool-cases (leb 10 (length ch.buffer))) [
  | inl full ↦
      let none_left : 10 - length ch.buffer ≡ 0 = ground arith in rw full (rw none_left refl)
  | inr room ↦
      let below : length ch.buffer ≤ 9 = ground arith in
      rw room (
        ap (λ (s : List Str). record ch { buffer = s })
          (append_assoc ch.buffer (e ∷ []) _
            ∙ ap (λ (k : ℕ). ch.buffer ++ e ∷ take (10 - k) es)
                (omega (arith, length-append ch.buffer (e ∷ [])))
            ∙ ap (λ (s : List Str). ch.buffer ++ s)
                (sym (take-more (length ch.buffer) e es below))))
]

take-nil : (n : ℕ) → take n [] ≡ []
take-nil zero = refl
take-nil (suc n) = refl

filled-nil : (ch : Channel) → ch ≡ filled ch []
filled-nil ch =
    ap (λ (s : List Str). record ch { buffer = s })
      (sym (
        ap (λ (s : List Str). ch.buffer ++ s) (take-nil (10 - length ch.buffer))
        ∙ append-nil ch.buffer))

-- If every subscriber has an open channel of its own, and nobody receives meanwhile, then
-- broadcasts, one after another, end without a panic, and the channel of a subscriber then holds
-- what it held before and after it the first events that fit into ten places, in order; the later
-- ones are dropped.
pub broadcasts_bounded :
    (id : Str) (events : List Str) (a : ℕ) (ch : Channel) (b : SseBroadcaster)
    → Inv b
    → find id b.subscribers ≡ some a
    → get_elem? b.channels a ≡ some ch
    → (b' : SseBroadcaster) × (perform_all (map broadcasts events) b ≡ some b')
      × (get_elem? b'.channels a ≡ some (filled ch events))
unfolding perform_all
broadcasts_bounded id [] a ch b v found at = (b, refl, at ∙ ap some (filled-nil ch))
broadcasts_bounded id (e ∷ es) a ch b v found at =
    let (b1, sent, v1, same) = broadcast-Inv e b v in
    let at1 = (broadcast_delivers e id b b1 a ch v found at sent).0 in
    let found1 = subst (λ m. find id m ≡ some a) (sym same) found in
    let (b2, done, at2) = broadcasts_bounded id es a (enqueue e ch) b1 v1 found1 at1 in
    (b2, rw sent done, at2 ∙ ap some (filled-enqueue e es ch))
