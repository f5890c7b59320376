-- ===== src/System/Saved.antt =====
-- Every step leaves a file that can be loaded.
use tailhopper.Base.{
  ℕ, zero, suc, ℤ, pos, negsuc, max_int, int_succ, Str, get_elem?, ◌<ℤ◌, ◌≡◌, inl, inr, refl, sym,
  subst, Option-cases, Option, arith,
}
use tailhopper.Ts.Tailnet.{Machine}
use tailhopper.Ts.Persist.{Persist, persist, IsKept}
use tailhopper.Registry.Config.{Broadcaster, Store, write_file}
use tailhopper.Registry.Store.{
  claim, hooks, user_state_change, terminal_error_change, announce_tailnet, save_locked,
}
use tailhopper.Registry.World.{World}
use tailhopper.Registry.Running.{run_at}
use tailhopper.Registry.Changes.{Outside, AddCalls, add, delete_tailnet}
use tailhopper.Registry.Changes.Laws.{entries}
use tailhopper.Registry.Changes.Ends.{add-next, delete-ends}
use tailhopper.System.{Action, act_at, Step, acts, adds, deletes}
use tailhopper.System.Inv.{View, put}
use tailhopper.System.Kept.{
  Related, hooks-IsKept, announced-entries, user-entries, error-entries, claim-entries,
}
use tailhopper.System.Grown.{view_of, Inv-ext}
use tailhopper.System.Laws.{IsJoined, act-Holds, view_of-here, add-IsJoined, delete-IsJoined}
use tailhopper.System.File.{
  FileEnd, IsSafe, HasRoom, FileEnd-IsSafe, announced-FileEnd, user-FileEnd, error-FileEnd,
  claim-FileEnd,
}

module _ {B : Type 0} (b : Option (Broadcaster B)) (id : ℤ) (v : View) (a : ℕ) where
  abbrev IsSafelyRelated : Persist → Store B → Type 0
  IsSafelyRelated p st = Related b id v a p st × IsSafe st

  safely :
      (q : Persist) (st st' : Store B)
      → st'.registry.next_id ≡ st.registry.next_id
      → FileEnd st.disk.file st'
      → IsSafe st
      → Related b id v a q st'
      → IsSafelyRelated q st'
  safely q st st' same ends s r = (
    r,
    FileEnd-IsSafe st.disk.file st' (put v a (id, q)) s.loadable (subst HasRoom (sym same) s.room) r
        ends,
  )

  hooks-IsSafelyKept : IsKept (hooks b id) id IsSafelyRelated
  unfolding hooks
  hooks-IsSafelyKept =
      let k = hooks-IsKept b id v a in
      record {
        broadcast = λ p st (r, s).
            safely p st (announce_tailnet b id st) (announced-entries b id st).1
              (announced-FileEnd b id st) s (k.broadcast p st r);
        user = λ p st u (r, s).
            safely (record p { wish = u }) st (user_state_change id u st) (user-entries b id u st).0
              (user-FileEnd b id u st) s (k.user p st u r);
        error = λ p st text ne (r, s).
            safely (record p { error = text }) st (terminal_error_change id text st)
              (error-entries b id text st).0 (error-FileEnd b id text st) s
              (k.error p st text ne r);
        granted = λ p st t (r, s) c ne ok.
            safely (record p { claimed = t }) st (claim b id t st).0 (claim-entries b id t st).0
              (claim-FileEnd b id t st) s (k.granted p st t r c ne ok);
        refused = λ p st t (r, s) c ne bad.
            safely p st (claim b id t st).0 (claim-entries b id t st).0 (claim-FileEnd b id t st) s
              (k.refused p st t r c ne bad);
      }

pub succ-HasRoom : (n : ℤ) → n <ℤ pos max_int → HasRoom (int_succ n)
unfolding int_succ
succ-HasRoom (pos n) h = ground arith
succ-HasRoom (negsuc zero) h = omega arith
succ-HasRoom (negsuc (suc n)) h = omega arith

module _ {B : Type 0} (b : Option (Broadcaster B)) (o : Outside) where
  add-FileEnd :
      (c : AddCalls) (given : Str) (w : World B)
      → FileEnd w.store.disk.file (add b o c given w).0.store
  unfolding add save_locked write_file
  add-FileEnd c given w = ground arith

  delete-FileEnd :
      (id : ℤ) (w : World B) → FileEnd w.store.disk.file (delete_tailnet b id w).0.store
  unfolding delete_tailnet save_locked write_file
  delete-FileEnd id w = ground arith

  act_at-IsSafe :
      (x : Action) (a : ℕ) (w : World B)
      → IsJoined w
      → IsSafe w.store
      → IsSafe (act_at b o x a w).store
  unfolding act_at run_at
  act_at-IsSafe x a w i s = elim (Option-cases (get_elem? w.heap a)) [
    | inl e ↦ rw e s
    | inr (t, e) ↦
        let m : Machine (Store B) = record { tailnet = t; host = w.host; outer = w.store } in
        let v = view_of w.heap in
        let before =
          Inv-ext (entries w) w.store.registry.next_id v (put v a (t.id, persist t))
            (λ j. view_of-here w.heap a t j e) i in
        let (same, kept) =
          act-Holds (hooks b t.id) t.id (IsSafelyRelated b t.id v a) (hooks-IsSafelyKept b t.id v a)
            x m (refl, (before, s)) in
        rw e kept.1
  ]

  pub Step-IsSafe : {w w' : World B} → Step b o w w' → IsJoined w → IsSafe w.store → IsSafe w'.store
  Step-IsSafe {w} (acts x a) i s = act_at-IsSafe x a w i s
  Step-IsSafe {w} (adds c given room) i s =
      let w' = (add b o c given w).0 in
      FileEnd-IsSafe w.store.disk.file w'.store (view_of w'.heap) s.loadable
        (subst HasRoom (sym (add-next b o c given w)) (succ-HasRoom w.store.registry.next_id room))
        (add-IsJoined b o c given w room i) (add-FileEnd c given w)
  Step-IsSafe {w} (deletes id) i s =
      let w' = (delete_tailnet b id w).0 in
      FileEnd-IsSafe w.store.disk.file w'.store (view_of w'.heap) s.loadable
        (subst HasRoom (sym (delete-ends b id w).1) s.room) (delete-IsJoined b o id w i)
        (delete-FileEnd id w)
