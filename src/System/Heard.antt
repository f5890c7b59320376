-- ===== src/System/Heard.antt =====
-- Who hears of what a tailnet does, when the registry has the broadcaster of Sse.
use tailhopper.Base.{
  ℕ, ℤ, Str, get_elem?, ◌≡◌, ◌⊎◌, inl, inr, refl, sym, subst, ap, ◌∙◌, Option, Option-cases, none,
  some, List, arith,
}
use tailhopper.Base.Maps.{lookup}
use tailhopper.Ts.State.{UserState}
use tailhopper.Ts.Tailnet.{Tailnet, Machine, snapshot}
use tailhopper.Ts.Persist.{Persist, IsKept}
use tailhopper.Ts.Told.{IsTold, told}
use tailhopper.Registry.Config.{Broadcaster, Store}
use tailhopper.Registry.Store.{
  claim, hooks, user_state_change, terminal_error_change, announce_tailnet, announce_global,
  save_locked, set_config,
}
use tailhopper.Registry.World.{World}
use tailhopper.Registry.Running.{run_at}
use tailhopper.Registry.Running.Restore.{get_elem?-set}
use tailhopper.Registry.Changes.{Outside}
use tailhopper.Sse.{
  SseBroadcaster, broadcast, broadcast_tailnet_change, broadcast_global_change, global_event,
  tailnet_event,
}
use tailhopper.Sse.Invariant.{Inv, broadcast-Inv}
use tailhopper.Sse.Before.{HaveHeard, broadcast-HaveHeard}
use tailhopper.System.{Action, act, act_at}
use tailhopper.System.Laws.{act-Holds}
use tailhopper.System.Told.{HasClient, act-IsTold}
use tailhopper.System.Events.{hub, alive}

-- No send has panicked, every subscriber has an open channel of its own, and these are the
-- subscribers.
abbrev pub Works : List (Str × ℕ) → Option SseBroadcaster → Type 0
Works subscribers none = ⊥
Works subscribers (some s) = Inv s × (s.subscribers ≡ subscribers)

module _ (subscribers : List (Str × ℕ)) where
  Works-broadcast :
      (event : Str) (x : Option SseBroadcaster)
      → Works subscribers x
      → Works subscribers (alive x (broadcast event))
  Works-broadcast event none h = h
  Works-broadcast event (some s) (v, same) =
      let (s', sent, v', kept) = broadcast-Inv event s v in
      subst (Works subscribers) (sym sent) (v', kept ∙ same)

  module _ (id : ℤ) where
    user-events :
        {B : Type 0} (u : UserState) (st : Store B) → (user_state_change id u st).events ≡ st.events
    unfolding user_state_change save_locked set_config
    user-events u st = elim (Option-cases (lookup id st.registry.tailnets)) [
      | inl e ↦ rw e refl
      | inr (r, e) ↦ rw e refl
    ]

    error-events :
        {B : Type 0} (text : Str) (st : Store B)
        → (terminal_error_change id text st).events ≡ st.events
    unfolding terminal_error_change save_locked set_config
    error-events text st = elim (Option-cases (lookup id st.registry.tailnets)) [
      | inl e ↦ rw e refl
      | inr (r, e) ↦ rw e refl
    ]

    claim-events :
        {B : Type 0} (k : Broadcaster B) (s : Str) (st : Store B)
        → ((claim (some k) id s st).0.events ≡ k.broadcast_global_change st.events)
          ⊎ ((claim (some k) id s st).0.events ≡ st.events)
    unfolding claim save_locked announce_global
    claim-events k s st = ground arith

    Works-claim :
        (s : Str) (st : Store (Option SseBroadcaster))
        → Works subscribers st.events
        → Works subscribers (claim (some hub) id s st).0.events
    unfolding hub broadcast_global_change
    Works-claim s st w = elim (claim-events hub s st) [
      | inl e ↦ subst (Works subscribers) (sym e) (Works-broadcast global_event st.events w)
      | inr e ↦ subst (Works subscribers) (sym e) w
    ]

    hooks-IsKept :
        IsKept
          (hooks (some hub) id)
          id
          (λ (p : Persist) (st : Store (Option SseBroadcaster)). Works subscribers st.events)
    unfolding hooks announce_tailnet hub broadcast_tailnet_change
    hooks-IsKept = record {
      broadcast = λ p st w. Works-broadcast (tailnet_event id) st.events w;
      user = λ p st u w. subst (Works subscribers) (sym (user-events u st)) w;
      error = λ p st text ne w. subst (Works subscribers) (sym (error-events text st)) w;
      granted = λ p st s w none_yet ne e. Works-claim s st w;
      refused = λ p st s w none_yet ne e. Works-claim s st w;
    }

    told-HaveHeard :
        (st : Store (Option SseBroadcaster)) (s : SseBroadcaster)
        → IsTold (announce_tailnet (some hub) id) st
        → st.events ≡ some s
        → Inv s
        → HaveHeard (tailnet_event id) s
    unfolding announce_tailnet hub broadcast_tailnet_change
    told-HaveHeard st s (told r) e v = elim (Option-cases r.events) [
      | inl q ↦ absurd (cc (ap (λ x. alive x (broadcast (tailnet_event id))) (sym q) ∙ e))
      | inr (s0, q) ↦
          broadcast-HaveHeard (tailnet_event id) s0 s
            (ap (λ x. alive x (broadcast (tailnet_event id))) (sym q) ∙ e) v
    ]

Works-some :
    (subscribers : List (Str × ℕ)) (x : Option SseBroadcaster)
    → Works subscribers x
    → (s : SseBroadcaster) × (x ≡ some s) × Inv s × (s.subscribers ≡ subscribers)
Works-some subscribers none w = elim w [ ]
Works-some subscribers (some s) (v, same) = (s, refl, v, same)

-- If the broadcaster of the registry is a `SSEBroadcaster` in which every subscriber has an open
-- channel of its own, a tailnet of the registry acts, and a local client that comes back without an
-- error is not nil, then no send panics, the subscribers are the same, each has an open channel of
-- its own, and the tailnet shows the same snapshot as before or the event of that tailnet is in the
-- channel of each subscriber as `enqueue` puts it there.
pub act_heard :
    (o : Outside) (x : Action) (a : ℕ) (w : World (Option SseBroadcaster)) (t : Tailnet)
    (s : SseBroadcaster)
    → get_elem? w.heap a ≡ some t
    → HasClient x
    → w.store.events ≡ some s
    → Inv s
    → let w' = act_at (some hub) o x a w in
      (t' : Tailnet) × (s' : SseBroadcaster) × (get_elem? w'.heap a ≡ some t')
      × (w'.store.events ≡ some s')
      × Inv s'
      × (s'.subscribers ≡ s.subscribers)
      × ((snapshot t' ≡ snapshot t) ⊎ HaveHeard (tailnet_event t.id) s')
unfolding act_at run_at hooks
act_heard o x a w t s at n e v =
    let h = hooks (some hub) t.id in
    let m : Machine (Store (Option SseBroadcaster)) = record {
      tailnet = t;
      host = w.host;
      outer = w.store;
    } in
    let m' = act x h m in
    let (_, works) =
      act-Holds h t.id
        (λ (p : Persist) (st : Store (Option SseBroadcaster)). Works s.subscribers st.events)
        (hooks-IsKept s.subscribers t.id) x m
        (refl, subst (Works s.subscribers) (sym e) (v, refl)) in
    let (s', e', v', same) = Works-some s.subscribers m'.outer.events works in
    let shown = act-IsTold x h (announce_tailnet (some hub) t.id) m refl n in
    rw at (
      m'.tailnet,
      s',
      get_elem?-set w.heap a t m'.tailnet at,
      e',
      v',
      same,
      elim shown [
        | inl q ↦ inl q
        | inr i ↦ inr (told-HaveHeard s.subscribers t.id m'.outer s' i e' v')
      ],
    )
