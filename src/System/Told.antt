-- ===== src/System/Told.antt =====
-- No critical section of a tailnet changes silently what the dashboard shows of it.
use tailhopper.Base.{ℕ, get_elem?, ◌≡◌, ◌≢◌, ◌⊎◌, inl, inr, refl, ap, none, some}
use tailhopper.Ts.Tailnet.{Tailnet, Machine, Hooks, snapshot}
use tailhopper.Ts.Told.{IsTold, told}
use tailhopper.Ts.Start.Told.{start-IsTold}
use tailhopper.Ts.Stop.Told.{stop-IsTold}
use tailhopper.Ts.Logout.Told.{logout_start-IsTold, logout_end-IsTold}
use tailhopper.Ts.React.Told.{react-IsTold}
use tailhopper.Registry.Config.{Broadcaster, Store}
use tailhopper.Registry.Store.{hooks, announce_tailnet}
use tailhopper.Registry.World.{World}
use tailhopper.Registry.Running.{run_at}
use tailhopper.Registry.Running.Restore.{get_elem?-set}
use tailhopper.Registry.Changes.{Outside}
use tailhopper.System.{Action, starts, stops, begins_logout, ends_logout, reacts, act, act_at}

-- A local client that comes back without an error is not nil.
abbrev pub HasClient : Action → Type 0
HasClient (starts c) = c.local_client ≡ none → c.client ≢ none
HasClient _ = Unit

module _ {R : Type 0} where
  shown :
      {P : Type 0} {m m' : Machine R}
      → (m' ≡ m) ⊎ P
      → (snapshot m'.tailnet ≡ snapshot m.tailnet) ⊎ P
  shown (inl e) = inl (ap (λ x. snapshot x.tailnet) e)
  shown (inr p) = inr p

  pub act-IsTold :
      (x : Action) (h : Hooks R) (f : R → R) (m : Machine R)
      → h.broadcast ≡ some f
      → HasClient x
      → (snapshot (act x h m).tailnet ≡ snapshot m.tailnet) ⊎ IsTold f (act x h m).outer
  unfolding act
  act-IsTold (starts c) h f m b n = shown (start-IsTold h f b c m n)
  act-IsTold (stops c) h f m b n = shown (stop-IsTold h f b c m)
  act-IsTold begins_logout h f m b n = shown (logout_start-IsTold h f b m)
  act-IsTold (ends_logout c s) h f m b n = inr (logout_end-IsTold h f b c s m)
  act-IsTold (reacts c s) h f m b n = react-IsTold h f b c s m

-- What holds at the end, if the last thing was a broadcast of that tailnet's change.
heard :
    {B : Type 0} (k : Broadcaster B) (t : Tailnet) (st : Store B)
    → IsTold (announce_tailnet (some k) t.id) st
    → (v : B) × (st.events ≡ k.broadcast_tailnet_change t.id v)
unfolding announce_tailnet
heard k t st (told r) = (r.events, refl)

-- If a tailnet of the registry acts, and a local client that comes back without an error is not
-- nil, then the tailnet shows the same snapshot afterwards, or the last thing that the broadcaster
-- has been asked for is to announce a change of that tailnet.
pub act_announced :
    {B : Type 0} (k : Broadcaster B) (o : Outside) (x : Action) (a : ℕ) (w : World B) (t : Tailnet)
    → get_elem? w.heap a ≡ some t
    → HasClient x
    → let w' = act_at (some k) o x a w in
      (t' : Tailnet) × (get_elem? w'.heap a ≡ some t')
      × ((snapshot t' ≡ snapshot t)
          ⊎ ((v : B) × (w'.store.events ≡ k.broadcast_tailnet_change t.id v)))
unfolding act_at run_at hooks
act_announced k o x a w t e n =
    let m : Machine (Store _) = record { tailnet = t; host = w.host; outer = w.store } in
    let m' = act x (hooks (some k) t.id) m in
    let kept = act-IsTold x (hooks (some k) t.id) (announce_tailnet (some k) t.id) m refl n in
    rw e (
      m'.tailnet,
      get_elem?-set w.heap a t m'.tailnet e,
      elim kept [ inl s ↦ inl s | inr i ↦ inr (heard k t m'.outer i) ],
    )
