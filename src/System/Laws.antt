-- ===== src/System/Laws.antt =====
-- What holds in every state that the registry and its tailnets can reach.
use tailhopper.Base.{
  ℕ, zero, suc, ℤ, pos, max_int, Str, length, get_elem?, set, ◌<ℤ◌, ◌≡◌, inl, inr, refl, sym, subst,
  ap, ◌∙◌, false, Option-cases, Option, some, List, [], ◌∷◌, ◌++◌, arith,
}
use tailhopper.Base.Maps.{lookup}
use tailhopper.Ts.Tailnet.{Tailnet, Machine, Hooks, new_tailnet}
use tailhopper.Ts.Persist.{Persist, persist, IsKept, Holds}
use tailhopper.Ts.Start.Kept.{start-Holds}
use tailhopper.Ts.Stop.Kept.{stop-Holds}
use tailhopper.Ts.Logout.Kept.{logout_start-Holds, logout_end-Holds}
use tailhopper.Ts.React.Kept.{react-Holds}
use tailhopper.Registry.Config.{RegisteredTailnet, Broadcaster, Store}
use tailhopper.Registry.Store.{hooks}
use tailhopper.Registry.World.{World}
use tailhopper.Registry.Running.{run_at}
use tailhopper.Registry.Changes.{Outside, AddCalls, add, delete_tailnet, new_config, hostname_for}
use tailhopper.Registry.Changes.Laws.{entries}
use tailhopper.Registry.Changes.Ends.{add-ends, add-next, delete-ends}
use tailhopper.System.{
  Action, starts, stops, begins_logout, ends_logout, reacts, act, act_at, Step, acts, adds, deletes,
  Reach, here, next,
}
use tailhopper.System.Inv.{put, Agrees, Inv}
use tailhopper.System.Kept.{Related, hooks-IsKept}
use tailhopper.System.Grown.{
  view_of, Inv-ext, Inv-grown, Inv-added, Inv-skipped, Inv-deleted, id_free,
}
use tailhopper.System.Entries.{delete-insert}

-- Entries and tailnets belong together.
abbrev pub IsJoined : {B : Type 0} → World B → Type 0
IsJoined w = Inv w.store.registry.tailnets w.store.registry.next_id (view_of w.heap)

pub act-Holds :
    {R : Type 0} (h : Hooks R) (id : ℤ) (Q : Persist → R → Type 0) (k : IsKept h id Q) (x : Action)
    (m : Machine R)
    → Holds id Q m
    → Holds id Q (act x h m)
unfolding act
act-Holds h id Q k (starts c) m v = start-Holds h id Q k c m v
act-Holds h id Q k (stops c) m v = stop-Holds h id Q k c m v
act-Holds h id Q k begins_logout m v = logout_start-Holds h id Q k m v
act-Holds h id Q k (ends_logout c s) m v = logout_end-Holds h id Q k c s m v
act-Holds h id Q k (reacts c s) m v = react-Holds h id Q k c s m v

view_of-set :
    (heap : List Tailnet) (a : ℕ) (s t : Tailnet) (i : ℕ)
    → get_elem? heap a ≡ some s
    → put (view_of heap) a (t.id, persist t) i ≡ view_of (set heap a t) i
view_of-set [] a s t i e = cc
view_of-set (x ∷ heap) zero s t zero e = refl
view_of-set (x ∷ heap) zero s t (suc i) e = ground arith
view_of-set (x ∷ heap) (suc a) s t zero e = ground arith
view_of-set (x ∷ heap) (suc a) s t (suc i) e = ground (arith, view_of-set heap a s t i e)

pub view_of-here :
    (heap : List Tailnet) (a : ℕ) (s : Tailnet) (i : ℕ)
    → get_elem? heap a ≡ some s
    → view_of heap i ≡ put (view_of heap) a (s.id, persist s) i
view_of-here [] a s i e = cc
view_of-here (x ∷ heap) zero s zero e = ground arith
view_of-here (x ∷ heap) zero s (suc i) e = ground arith
view_of-here (x ∷ heap) (suc a) s zero e = ground arith
view_of-here (x ∷ heap) (suc a) s (suc i) e = ground (arith, view_of-here heap a s i e)

IsJoined-as :
    {B : Type 0} (w : World B) (heap : List Tailnet) (m : List (ℤ × RegisteredTailnet)) (n : ℤ)
    → w.heap ≡ heap
    → entries w ≡ m
    → w.store.registry.next_id ≡ n
    → Inv m n (view_of heap)
    → IsJoined w
IsJoined-as w heap m n e f g i =
    subst (λ x. Inv (entries w) w.store.registry.next_id (view_of x)) (sym e)
      (subst (λ x. Inv x w.store.registry.next_id (view_of heap)) (sym f)
        (subst (λ x. Inv m x (view_of heap)) (sym g) i))

module _ {B : Type 0} (b : Option (Broadcaster B)) (o : Outside) where
  pub delete-IsJoined : (id : ℤ) (w : World B) → IsJoined w → IsJoined (delete_tailnet b id w).0
  delete-IsJoined id w i =
      let w' = (delete_tailnet b id w).0 in
      let (heap, same, left) = delete-ends b id w in
      elim left [
        | inl e ↦
            IsJoined-as w' w.heap _ _ heap e same (Inv-deleted id (entries w) _ (view_of w.heap) i)
        | inr e ↦ IsJoined-as w' w.heap _ _ heap e same i
      ]

  pub add-IsJoined :
      (c : AddCalls) (given : Str) (w : World B)
      → w.store.registry.next_id <ℤ pos max_int
      → IsJoined w
      → IsJoined (add b o c given w).0
  unfolding new_config new_tailnet
  add-IsJoined c given w room i =
      let n = w.store.registry.next_id in
      let p = new_config o w.store.registry.path n (hostname_for o c.os_hostname given) c.port in
      let r : RegisteredTailnet = record { tailnet = length w.heap; config = p } in
      let t = new_tailnet n p.state_dir p.hostname [] [] false p.socks_port in
      let w' = (add b o c given w).0 in
      let grown = add-next b o c given w in
      elim (add-ends b o c given w) [
        | inl (_, heap, e) ↦ IsJoined-as w' (w.heap ++ t ∷ []) _ _ heap e grown (
            Inv-added (entries w) w.heap t i room r refl refl refl
              (record { suffix = inl refl; error = refl; wish = inl refl }))
        | inr (inl (_, heap, e)) ↦
            IsJoined-as w' w.heap _ _ heap e grown
              (Inv-skipped (entries w) n (view_of w.heap) room i)
        | inr (inr (_, heap, e)) ↦
            IsJoined-as w' (w.heap ++ t ∷ []) (entries w) _ heap
              (e ∙ delete-insert n r (entries w) (id_free (entries w) w.heap t i room)) grown
              (Inv-grown (entries w) w.heap t i room)
      ]

  act_at-IsJoined : (x : Action) (a : ℕ) (w : World B) → IsJoined w → IsJoined (act_at b o x a w)
  unfolding act_at run_at
  act_at-IsJoined x a w i = elim (Option-cases (get_elem? w.heap a)) [
    | inl e ↦ rw e i
    | inr (t, e) ↦
        let m : Machine (Store B) = record { tailnet = t; host = w.host; outer = w.store } in
        let v = view_of w.heap in
        let before =
          Inv-ext (entries w) w.store.registry.next_id v (put v a (t.id, persist t))
            (λ j. view_of-here w.heap a t j e) i in
        let h = hooks b t.id in
        let (same, after) =
          act-Holds h t.id (Related b t.id v a) (hooks-IsKept b t.id v a) x m (refl, before) in
        let m' = act x h m in
        rw e (
          Inv-ext m'.outer.registry.tailnets m'.outer.registry.next_id _
            (view_of (set w.heap a m'.tailnet))
            (λ j.
              ap (λ k. put v a (k, persist m'.tailnet) j) (sym same)
              ∙ view_of-set w.heap a t m'.tailnet j e)
            after)
  ]

  pub Step-IsJoined : {w w' : World B} → Step b o w w' → IsJoined w → IsJoined w'
  Step-IsJoined {w} (acts x a) i = act_at-IsJoined x a w i
  Step-IsJoined {w} (adds c given room) i = add-IsJoined c given w room i
  Step-IsJoined {w} (deletes id) i = delete-IsJoined id w i

  pub Reach-IsJoined : {w w' : World B} → IsJoined w → Reach b o w w' → IsJoined w'
  Reach-IsJoined i here = i
  Reach-IsJoined i (next r s) = Step-IsJoined s (Reach-IsJoined i r)

view_of-some :
    (heap : List Tailnet) (a : ℕ) (k : ℤ) (p : Persist)
    → view_of heap a ≡ some (k, p)
    → (t : Tailnet) × (get_elem? heap a ≡ some t) × (t.id ≡ k) × (persist t ≡ p)
view_of-some [] a k p e = cc
view_of-some (t ∷ heap) zero k p e = (t, refl, ground arith, ground arith)
view_of-some (t ∷ heap) (suc a) k p e = view_of-some heap a k p e

module _ {B : Type 0} (b : Option (Broadcaster B)) (o : Outside) where
  -- From a world whose entries and tailnets belong together (`IsJoined`), after any critical
  -- sections of the tailnets and any adds and deletes, in any order and with any outcome of the
  -- external calls, each add at a next id below the largest `int`, the entry of an id stands for a
  -- tailnet in the heap with that id, has that id, and agrees with it: a suffix that the tailnet
  -- has claimed is that of the entry, the text of the fatal error is the same, and the wish of the
  -- user is the same unless there is a fatal error.
  pub Reach-Agrees :
      {w w' : World B} (k : ℤ) (r : RegisteredTailnet)
      → IsJoined w
      → Reach b o w w'
      → lookup k (entries w') ≡ some r
      → (t : Tailnet) × (get_elem? w'.heap r.tailnet ≡ some t)
        × (t.id ≡ k)
        × (r.config.id ≡ k)
        × Agrees (persist t) r.config
  Reach-Agrees {w' = w'} k r i path e =
      let j = Reach-IsJoined b o i path in
      let (p, at, agree) = j.linked k r e in
      let (t, there, id, same) = view_of-some w'.heap r.tailnet k p at in
      (t, there, id, j.keyed k r e, subst (λ q. Agrees q r.config) (sym same) agree)
