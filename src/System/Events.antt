-- ===== src/System/Events.antt =====
-- The registry with the broadcaster that `main` gives it: who hears of a change.
use tailhopper.Base.{
  ℕ, ℤ, Str, get_elem?, ◌≡◌, ◌⊎◌, inl, inr, ap, ◌∙◌, Bool, true, false, Option, none, some, arith,
}
use tailhopper.Registry.Config.{Broadcaster, write_file}
use tailhopper.Registry.Store.{claim, save_locked, announce_global}
use tailhopper.Registry.World.{World}
use tailhopper.Registry.Changes.{Outside, AddCalls, add, delete_tailnet}
use tailhopper.Registry.Changes.Ends.{is_added}
use tailhopper.Sse
use tailhopper.Sse.{
  SseBroadcaster, find, enqueue, broadcast_tailnet_change, broadcast_global_change, global_event,
}
use tailhopper.Sse.Invariant.{Inv, broadcast-Inv}
use tailhopper.Sse.Delivery.{broadcast_delivers}

-- `none` once a broadcast has panicked.
abbrev pub alive :
    Option SseBroadcaster → (SseBroadcaster → Option SseBroadcaster) → Option SseBroadcaster
alive none f = none
alive (some s) f = f s

-- The `SSEBroadcaster` as the broadcaster of the registry.
unfoldable pub hub : Broadcaster (Option SseBroadcaster)
unfolding broadcast_tailnet_change broadcast_global_change
hub = record {
  broadcast_tailnet_change = λ id x. alive x (broadcast_tailnet_change id);
  broadcast_global_change = λ x. alive x broadcast_global_change;
}

-- The changes of the registry that it announces to all.
pub data Change : Type 0 where
  adds : Outside → AddCalls → Str → Change
  deletes : ℤ → Change
  claims : ℤ → Str → Change

abbrev is_nil : {A : Type 0} → Option A → Bool
is_nil none = true
is_nil (some e) = false

-- The world after a change, and whether it has succeeded.
unfoldable pub make : {B : Type 0} → Broadcaster B → Change → World B → World B × Bool
make b (adds o c given) w = let (w', x) = add (some b) o c given w in (w', is_added x)
make b (deletes id) w = let (w', e) = delete_tailnet (some b) id w in (w', is_nil e)
make b (claims id s) w =
    let (st, e) = claim (some b) id s w.store in (record w { store = st }, is_nil e)

make-events :
    {B : Type 0} (b : Broadcaster B) (x : Change) (w : World B)
    → let (w', ok) = make b x w in
      ((ok ≡ true) × (w'.store.events ≡ b.broadcast_global_change w.store.events))
      ⊎ ((ok ≡ false) × (w'.store.events ≡ w.store.events))
unfolding make add delete_tailnet claim save_locked write_file announce_global
make-events b (adds o c given) w = ground arith
make-events b (deletes id) w = ground arith
make-events b (claims id s) w = ground arith

-- Each subscriber has the event in its channel, as `enqueue` puts it there.
abbrev pub AllHear : Str → SseBroadcaster → SseBroadcaster → Type 0
AllHear event s s' =
    (id : Str) (a : ℕ) (ch : Sse.Channel)
    → find id s.subscribers ≡ some a
    → get_elem? s.channels a ≡ some ch
    → get_elem? s'.channels a ≡ some (enqueue event ch)

-- If the broadcaster of the registry is a `SSEBroadcaster` in which every subscriber has an open
-- channel of its own, then an `Add`, a `Delete` or a `Claim` either succeeds, and then no send has
-- panicked, the subscribers are the same, each has an open channel of its own, and the global event
-- is in the channel of each as `enqueue` puts it there; or it fails, and then the broadcaster is as
-- before.
pub changes_announced :
    (x : Change) (w : World (Option SseBroadcaster)) (s : SseBroadcaster)
    → w.store.events ≡ some s
    → Inv s
    → let (w', ok) = make hub x w in
      ((ok ≡ true)
        × (s' : SseBroadcaster) × (w'.store.events ≡ some s')
        × Inv s'
        × (s'.subscribers ≡ s.subscribers)
        × AllHear global_event s s')
      ⊎ ((ok ≡ false) × (w'.store.events ≡ some s))
unfolding broadcast_global_change hub
changes_announced x w s e v =
    let (s', sent, v', same) = broadcast-Inv global_event s v in
    elim (make-events hub x w) [
      | inl (ok, after) ↦ inl (
        ok,
        s',
        after ∙ ap (λ y. alive y broadcast_global_change) e ∙ sent,
        v',
        same,
        λ id a ch found at. (broadcast_delivers global_event id s s' a ch v found at sent).0,
      )
      | inr (failed, after) ↦ inr (failed, after ∙ e)
    ]
