-- ===== src/Web/Handlers/Race.antt =====
-- Two add requests that both look for an unconfigured tailnet before either adds one.
use tailhopper.Base.{
  ℕ, suc, ℤ, pos, max_int, int_eq_iff, int_succ, int_succ-lt, ◌<ℤ◌, Str, codes, length, get_elem?,
  ◌≡◌, ◌≢◌, inl, inr, refl, sym, subst, ap, ◌∙◌, false, none, some, List, [], ◌∷◌, map, All, arith,
}
use tailhopper.Base.Maps.{insert}
use tailhopper.Ts.Tailnet.{Tailnet, Machine, new_tailnet}
use tailhopper.Ts.Start.{StartCalls}
use tailhopper.Registry.Config.{RegisteredTailnet, Broadcaster, Store}
use tailhopper.Registry.World.{World}
use tailhopper.Registry.Running.{run_at}
use tailhopper.Registry.Changes.{
  Outside, AddCalls, Added, added, not_added, add, new_config, hostname_for,
}
use tailhopper.Registry.Changes.Laws.{HasRoom}
use tailhopper.Registry.Changes.Ends.{is_added, add-ends, add-next}
use tailhopper.Web.Handlers.{Response, answer_add, started_new, check_add, after_check}
use tailhopper.Web.Handlers.Frame.{bare, bare_entries, Kept, start-Keeps}
use tailhopper.Registry.Store.{announce_global, has_unconfigured_tailnets}
use tailhopper.Web.Handlers.Wired.{IsAt-last, unconfigured, unconfigured-any}
use tailhopper.Web.Handlers.Adding.{check_add-none}

-- All keys lie below `n`.
abbrev AreBelow : ℤ → List (ℤ × ℕ × Str) → Type 0
AreBelow n = All (λ e. e.0 <ℤ n)

-- A new entry without a suffix is one more.
unconfigured-new :
    (n : ℤ) (r : RegisteredTailnet) (m : List (ℤ × RegisteredTailnet))
    → r.config.claimed_magic_dns_suffix ≡ []
    → AreBelow n (map bare m)
    → unconfigured (map bare (insert n r m)) ≡ suc (unconfigured (map bare m))
unfolding unconfigured insert
unconfigured-new n r [] e a = ground (arith, e)
unconfigured-new n r ((k, x) ∷ m) e a =
    ground (arith, e, int_eq_iff k n, unconfigured-new n r m e a.1)

AreBelow-insert :
    (n k : ℤ) (r : RegisteredTailnet) (m : List (ℤ × RegisteredTailnet))
    → n <ℤ k
    → AreBelow n (map bare m)
    → AreBelow k (map bare (insert n r m))
unfolding insert
AreBelow-insert n k r [] l a = (l, tt)
AreBelow-insert n k r ((j, x) ∷ m) l a =
    ground (arith, AreBelow-insert n k r m l a.1, int_eq_iff j n)

AreBelow-bare :
    (n : ℤ) (m : List (ℤ × RegisteredTailnet)) → All (λ e. e.0 <ℤ n) m → AreBelow n (map bare m)
AreBelow-bare n [] a = tt
AreBelow-bare n (e ∷ m) a = (a.0, AreBelow-bare n m a.1)

module _ {B : Type 0} (b : Broadcaster B) where
  answer-Kept :
      (c : StartCalls) (w w' : World B) (x : Added) (a : ℕ) (t : Tailnet) (r : Response)
      → x ≡ added a
      → get_elem? w.heap a ≡ some t
      → answer_add b c (w, x) ≡ some (w', r)
      → Kept w.store w'.store
  unfolding answer_add started_new run_at announce_global
  answer-Kept c w w' x a t r e at f =
      let m : Machine (Store B) = record { tailnet = t; host = w.host; outer = w.store } in
      let (_, kept) = start-Keeps (some b) t.id c m in ground (arith, e, at, f, kept)

  answer-refused :
      (c : StartCalls) (w w' : World B) (x : Added) (r : Response)
      → is_added x ≡ false
      → answer_add b c (w, x) ≡ some (w', r)
      → r.status ≢ 201
  unfolding answer_add
  answer-refused c w w' (added a) r e f = cc
  answer-refused c w w' (not_added x) r e f = ground (arith, f)

  -- An add that is answered by 201 leaves one more entry without a suffix.
  created :
      (o : Outside) (a : AddCalls) (c : StartCalls) (w w' : World B) (r : Response)
      → w.store.registry.next_id <ℤ pos max_int
      → AreBelow w.store.registry.next_id (bare_entries w.store)
      → after_check b none o a c w ≡ some (w', r)
      → r.status ≡ 201
      → (unconfigured (bare_entries w'.store) ≡ suc (unconfigured (bare_entries w.store)))
        × AreBelow w'.store.registry.next_id (bare_entries w'.store)
  unfolding after_check new_config
  created o a c w w' r room below e s =
      let n = w.store.registry.next_id in
      let p = new_config o w.store.registry.path n (hostname_for o a.os_hostname []) a.port in
      let entry : RegisteredTailnet = record { tailnet = length w.heap; config = p } in
      let t = new_tailnet n p.state_dir p.hostname [] [] false p.socks_port in
      let m = w.store.registry.tailnets in
      let (w1, x) = add (some b) o a [] w in
      elim (add-ends (some b) o a [] w) [
        | inl (f, heap, left) ↦
            let (s, at, _) = IsAt-last w.heap t in
            let (same, next) =
              answer-Kept c w1 w' x (length w.heap) s r f
                (ap (λ h. get_elem? h (length w.heap)) heap ∙ at) e in
            let bare_same : bare_entries w'.store ≡ map bare (insert n entry m) =
              same ∙ ap (map bare) left in
            let next_same : w'.store.registry.next_id ≡ int_succ n =
              next ∙ add-next (some b) o a [] w in
            (
              ap unconfigured bare_same ∙ unconfigured-new n entry m refl below,
              subst (λ k. AreBelow k (bare_entries w'.store)) (sym next_same)
                  (subst (AreBelow (int_succ n)) (sym bare_same)
                    (AreBelow-insert n (int_succ n) entry m (int_succ-lt n room) below)),
            )
        | inr (inl (f, _, _)) ↦ absurd (answer-refused c w1 w' x r f e s)
        | inr (inr (f, _, _)) ↦ absurd (answer-refused c w1 w' x r f e s)
      ]

  -- If all ids lie below the next id, which is below the largest `int`, two POST requests for an
  -- add both check before either adds, there is no unconfigured tailnet then, and both are answered
  -- by 201, the second add at a next id below the largest `int`, then there are two unconfigured
  -- tailnets.
  pub add_race :
      (o : Outside) (a a' : AddCalls) (c c' : StartCalls) (w w' w'' : World B) (r r' : Response)
      → HasRoom w
      → w'.store.registry.next_id <ℤ pos max_int
      → check_add b (codes "POST") w ≡ none
      → after_check b (check_add b (codes "POST") w) o a c w ≡ some (w', r)
      → r.status ≡ 201
      → after_check b (check_add b (codes "POST") w) o a' c' w' ≡ some (w'', r')
      → r'.status ≡ 201
      → unconfigured (bare_entries w''.store) ≡ 2
  unfolding has_unconfigured_tailnets
  add_race o a a' c c' w w' w'' r r' v room unchecked e s e' s' =
      let none_before =
        unconfigured-any w.store.registry.tailnets (check_add-none b (codes "POST") w unchecked) in
      let (one_more, below) =
        created o a c w w' r v.room
          (AreBelow-bare w.store.registry.next_id w.store.registry.tailnets v.below)
          (subst (λ x. after_check b x o a c w ≡ some (w', r)) unchecked e) s in
      let (two_more, _) =
        created o a' c' w' w'' r' room below
          (subst (λ x. after_check b x o a' c' w' ≡ some (w'', r')) unchecked e') s' in
      two_more ∙ ap suc one_more ∙ ap (λ k. suc (suc k)) none_before
