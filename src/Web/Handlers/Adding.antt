-- ===== src/Web/Handlers/Adding.antt =====
-- The handler that adds a tailnet answers, and keeps the registry sound.
use tailhopper.Base.{
  subst, get_elem?, int_eq_refl, ℕ, ◌≤◌, ℤ, int_eq_iff, Str, length, ◌≡◌, ◌⊎◌, refl, sym, ◌∙◌,
  false, Option, none, some, [], ◌∷◌, ◌++◌, map, arith, inl, inr,
}
use tailhopper.Base.Maps.{lookup, insert, delete, lookup-insert}
use tailhopper.Ts.Tailnet.{Tailnet, new_tailnet}
use tailhopper.Ts.Start.{StartCalls, start}
use tailhopper.Registry.Config.{PersistedTailnet, RegisteredTailnet, Broadcaster}
use tailhopper.Registry.Store.{has_unconfigured_tailnets}
use tailhopper.Registry.World.{World, get, address_of}
use tailhopper.Registry.Changes.{
  Outside, AddCalls, Added, added, not_added, add, new_config, hostname_for,
}
use tailhopper.Registry.Changes.Ends.{is_added, add-ends}
use tailhopper.Web.Handlers.{
  Response, answer_add, started_new, check_add, after_check, add_tailnet_handler,
}
use tailhopper.Web.Handlers.Frame.{bare, bare_entries, start-Keeps}
use tailhopper.Web.Handlers.Wired.{
  IsSound, IsAt, IsAt-append, IsAt-last, run_at-Ran, unconfigured, unconfigured-insert,
  unconfigured-delete, unconfigured-any,
}
use tailhopper.Web.Handlers.Answers.{
  Answered, entries, IsSound-fewer, lookup_fewer, announced-IsSound,
}

new_tailnet-id :
    (n : ℤ) (p : PersistedTailnet)
    → (new_tailnet n p.state_dir p.hostname [] [] false p.socks_port).id ≡ n
unfolding new_tailnet
new_tailnet-id n p = refl

module _ {B : Type 0} (w w' : World B) (n : ℤ) (r : RegisteredTailnet) (t : Tailnet) (v : IsSound w)
    (none_unconfigured : unconfigured (bare_entries w.store) ≡ 0) (here : r.tailnet ≡ length w.heap)
    (id : t.id ≡ n) (heap : w'.heap ≡ w.heap ++ t ∷ []) where
  found_in :
      (k : ℤ) (a : ℕ)
      → address_of (lookup k (insert n r (entries w))) ≡ some a
      → ((k ≡ n) × (a ≡ length w.heap)) ⊎ (address_of (lookup k (entries w)) ≡ some a)
  found_in k a e = ground (arith, lookup-insert n k r (entries w), int_eq_iff n k)

  placed-IsAt :
      (k : ℤ) (a : ℕ)
      → ((k ≡ n) × (a ≡ length w.heap)) ⊎ (address_of (lookup k (entries w)) ≡ some a)
      → IsAt (w.heap ++ t ∷ []) a k
  unfolding get
  placed-IsAt k a (inl (e, f)) =
      let (s, g, i) = IsAt-last w.heap t in
      (s, subst (λ x. get_elem? (w.heap ++ t ∷ []) x ≡ some s) (sym f) g, i ∙ id ∙ sym e)
  placed-IsAt k a (inr e) = IsAt-append w.heap a t k (v.wired k a e)

  placed-IsSound :
      entries w' ≡ insert n r (entries w) → IsSound w' × (get n w' ≡ some (length w.heap))
  unfolding get
  placed-IsSound e = (
    record {
      wired = λ k a g.
          subst (λ x. IsAt x a k) (sym heap)
            (placed-IsAt k a (found_in k a (subst (λ m. address_of (lookup k m) ≡ some a) e g)));
      few =
          subst (λ m. unconfigured (map bare m) ≤ 1) (sym e)
            (omega (arith, unconfigured-insert n r (entries w), none_unconfigured));
    },
    subst (λ m. address_of (lookup n m) ≡ some (length w.heap)) (sym e)
        (ground (arith, lookup-insert n n r (entries w), int_eq_refl n)),
  )

  undone-IsSound : entries w' ≡ delete n (insert n r (entries w)) → IsSound w'
  unfolding get
  undone-IsSound e = record {
    wired = λ k a g.
        subst (λ x. IsAt x a k) (sym heap)
          (placed-IsAt k a (
            found_in k a (
              lookup_fewer n k a (insert n r (entries w))
                (subst (λ m. address_of (lookup k m) ≡ some a) e g))));
    few =
        subst (λ m. unconfigured (map bare m) ≤ 1) (sym e)
          (omega (
            arith,
            unconfigured-delete n (insert n r (entries w)),
            unconfigured-insert n r (entries w),
            none_unconfigured,
          ));
  }

module _ {B : Type 0} (b : Broadcaster B) where
  same-IsSound :
      (w w' : World B) → IsSound w → w'.heap ≡ w.heap → entries w' ≡ entries w → IsSound w'
  unfolding get
  same-IsSound w w' v heap left =
      IsSound-fewer w w' v (λ k a g. subst (λ m. address_of (lookup k m) ≡ some a) left g)
        (λ k a h. subst (λ x. IsAt x a k) (sym heap) h)
        (subst (λ m. unconfigured (map bare m) ≤ unconfigured (map bare (entries w))) (sym left)
          (omega arith))

  Answered-added :
      (c : StartCalls) (w : World B) (x : Added) (a : ℕ) (n : ℤ)
      → x ≡ added a
      → IsSound w
      → get n w ≡ some a
      → Answered (answer_add b c (w, x))
  unfolding answer_add started_new
  Answered-added c w x a n e v g =
      let r = run_at-Ran (some b) (λ h. start h c) (λ k m. start-Keeps (some b) k c m) w a n v g in
      rw (e, answer_add)
        (rw (r.ran, started_new)
          (record {
            world = _;
            response = _;
            answered = refl;
            sound = announced-IsSound b r.world r.sound;
          }))

  Answered-not_added :
      (c : StartCalls) (w : World B) (x : Added)
      → is_added x ≡ false
      → IsSound w
      → Answered (answer_add b c (w, x))
  unfolding answer_add
  Answered-not_added c w (added a) e v = absurd (ground arith)
  Answered-not_added c w (not_added x) e v = record {
    world = w;
    response = _;
    answered = refl;
    sound = v;
  }

  answer_add-Answered :
      (o : Outside) (a : AddCalls) (c : StartCalls) (w : World B)
      → IsSound w
      → has_unconfigured_tailnets w.store ≡ false
      → Answered (answer_add b c (add (some b) o a [] w))
  unfolding has_unconfigured_tailnets new_config
  answer_add-Answered o a c w v u =
      let n = w.store.registry.next_id in
      let p = new_config o w.store.registry.path n (hostname_for o a.os_hostname []) a.port in
      let r : RegisteredTailnet = record { tailnet = length w.heap; config = p } in
      let t = new_tailnet n p.state_dir p.hostname [] [] false p.socks_port in
      let z = unconfigured-any (entries w) u in
      let (w', x) = add (some b) o a [] w in
      elim (add-ends (some b) o a [] w) [
        | inl (e, heap, left) ↦
            let (v', g) = placed-IsSound w w' n r t v z refl (new_tailnet-id n p) heap left in
            Answered-added c w' x (length w.heap) n e v' g
        | inr (inl (e, heap, left)) ↦ Answered-not_added c w' x e (same-IsSound w w' v heap left)
        | inr (inr (e, heap, left)) ↦
            Answered-not_added c w' x e
              (undone-IsSound w w' n r t v z refl (new_tailnet-id n p) heap left)
      ]

  pub check_add-none :
      (method : Str) (w : World B)
      → check_add b method w ≡ none
      → has_unconfigured_tailnets w.store ≡ false
  unfolding check_add
  check_add-none method w e = ground (arith, e)

  after_check-Answered :
      (x : Option Response) (o : Outside) (a : AddCalls) (c : StartCalls) (w : World B)
      → IsSound w
      → (x ≡ none → has_unconfigured_tailnets w.store ≡ false)
      → Answered (after_check b x o a c w)
  unfolding after_check
  after_check-Answered (some r) o a c w v u = record {
    world = w;
    response = r;
    answered = refl;
    sound = v;
  }
  after_check-Answered none o a c w v u = answer_add-Answered o a c w v (u refl)

  pub add_tailnet_handler-Answered :
      (o : Outside) (a : AddCalls) (c : StartCalls) (method : Str) (w : World B)
      → IsSound w
      → Answered (add_tailnet_handler b o a c method w)
  unfolding add_tailnet_handler
  add_tailnet_handler-Answered o a c method w v =
      after_check-Answered (check_add b method w) o a c w v (check_add-none method w)
