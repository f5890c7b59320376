-- ===== src/Registry/Running/Restore.antt =====
-- What a restart of the program brings back.
use tailhopper.Base.{
  ℕ, zero, suc, ◌==◌, ==_iff, ℤ, get_elem?, set, ◌≡◌, ◌≢◌, ◌⊎◌, inl, inr, refl, sym, subst, ap, ◌∙◌,
  Bool, true, false, ◌&&◌, Bool-cases, Option-cases, Option, none, some, List, [], ◌∷◌, any, map,
  get_elem?-set_ne, arith,
}
use tailhopper.Base.Maps.{lookup}
use tailhopper.Base.Sort.{any-sort}
use tailhopper.Ts.State.{started, stopped, user_enabled, is_user_enabled}
use tailhopper.Ts.Tailnet.{Tailnet, Machine, snapshot}
use tailhopper.Ts.Start.{StartCalls, start}
use tailhopper.Ts.Start.Laws.{start-IsStarted}
use tailhopper.Registry.Config.{RegisteredTailnet, Broadcaster, Store}
use tailhopper.Registry.Store.{hooks}
use tailhopper.Registry.World.{World, list}
use tailhopper.Registry.Running.{
  is_stopped, restore_at, restore_all, restore_enabled_tailnets, run_at,
}

-- Whether `RestoreEnabledTailnets` starts it.
abbrev pub is_due : Tailnet → Bool
is_due t = is_user_enabled t.user_state && is_stopped t.current_state

-- The calls of a start all succeed.
pub record AreOk (c : StartCalls) : Type 0 where
  pub listen : c.listen ≡ none
  pub server_start : c.server_start ≡ none
  pub local_client : c.local_client ≡ none
  pub client : c.client ≢ none

-- It runs, and the user wants it to.
pub record IsUp (t : Tailnet) : Type 0 where
  pub state : t.current_state ≡ started
  pub wish : t.user_state ≡ user_enabled
  pub proxy : t.socks_proxy ≢ none
  pub server : t.server ≢ none
  pub watcher : t.watcher ≢ none

pub get_elem?-set :
    (heap : List Tailnet) (a : ℕ) (s t : Tailnet)
    → get_elem? heap a ≡ some s
    → get_elem? (set heap a t) a ≡ some t
get_elem?-set [] a s t e = cc
get_elem?-set (x ∷ heap) zero s t e = refl
get_elem?-set (x ∷ heap) (suc a) s t e = get_elem?-set heap a s t e

module _ {B : Type 0} (b : Option (Broadcaster B)) (calls : ℤ → StartCalls) where
  machine : Tailnet → World B → Machine (Store B)
  machine t w = record { tailnet = t; host = w.host; outer = w.store }

  -- The tailnet that a start leaves.
  after_start : Tailnet → World B → Tailnet
  unfolding machine
  after_start t w = (start (hooks b t.id) (calls t.id) (machine t w)).0.tailnet

  abbrev pub round : ℕ → World B → World B
  round c w = restore_at b calls (get_elem? w.heap c) c w

  round-due :
      (t : Tailnet) (a : ℕ) (w : World B)
      → is_due t ≡ true
      → get_elem? w.heap a ≡ some t
      → (round a w).heap ≡ set w.heap a (after_start t w)
  unfolding restore_at snapshot run_at after_start
  round-due t a w d e = rw e (rw d (rw e refl))

  pub round-idle :
      (t : Tailnet) (a : ℕ) (w : World B)
      → is_due t ≡ false
      → get_elem? w.heap a ≡ some t
      → round a w ≡ w
  unfolding restore_at snapshot
  round-idle t a w d e = rw e (rw d refl)

  after_start-IsUp :
      (t : Tailnet) (w : World B) → is_due t ≡ true → AreOk (calls t.id) → IsUp (after_start t w)
  unfolding after_start machine
  after_start-IsUp t w d ok = elim (Option-cases (calls t.id).client) [
    | inl e ↦ absurd (ok.client e)
    | inr (lc, e) ↦
        let (up, none_left) =
          start-IsStarted (hooks b t.id) (calls t.id) (machine t w) lc (ground (arith, d)) ok.listen
            ok.server_start ok.local_client e in
        record {
          state = up.state;
          wish = up.wish;
          proxy = ground (arith, up.proxy);
          server = ground (arith, up.server);
          watcher = ground (arith, up.watcher);
        }
  ]

  -- A round of the loop leaves the other addresses alone.
  round-other : (c a : ℕ) (w : World B) → c ≢ a → get_elem? (round c w).heap a ≡ get_elem? w.heap a
  unfolding restore_at
  round-other c a w ne = elim (Option-cases (get_elem? w.heap c)) [
    | inl e ↦ rw e refl
    | inr (t, e) ↦ elim (Bool-cases (is_due t)) [
      | inl d ↦
          ap (λ h. get_elem? h a) (round-due t c w d e)
          ∙ get_elem?-set_ne w.heap (after_start t w) ne
      | inr d ↦ ap (λ v. get_elem? v.heap a) (round-idle t c w d e)
    ]
  ]

  -- A tailnet that the loop does not start stays as it is.
  restore_all-idle :
      (l : List ℕ) (a : ℕ) (t : Tailnet) (w : World B)
      → is_due t ≡ false
      → get_elem? w.heap a ≡ some t
      → get_elem? (restore_all b calls l w).heap a ≡ some t
  unfolding restore_all
  restore_all-idle [] a t w d e = e
  restore_all-idle (c ∷ rest) a t w d e = elim (Bool-cases (c == a)) [
    | inl f ↦
        let same = (==_iff c a).0 f in
        let at = ap (λ x. get_elem? w.heap x) same ∙ e in
        subst (λ v. get_elem? (restore_all b calls rest v).heap a ≡ some t)
          (sym (round-idle t c w d at)) (restore_all-idle rest a t w d e)
    | inr f ↦
        restore_all-idle rest a t (round c w) d
          (round-other c a w (ground (arith, f, ==_iff c a)) ∙ e)
  ]

  -- A tailnet that the loop comes to is started, once.
  restore_all-due :
      (l : List ℕ) (a : ℕ) (t : Tailnet) (w : World B)
      → is_due t ≡ true
      → AreOk (calls t.id)
      → any (λ c. c == a) l ≡ true
      → get_elem? w.heap a ≡ some t
      → (t' : Tailnet) × (get_elem? (restore_all b calls l w).heap a ≡ some t') × IsUp t'
  unfolding restore_all
  restore_all-due [] a t w d ok m e = cc
  restore_all-due (c ∷ rest) a t w d ok m e = elim (Bool-cases (c == a)) [
    | inl f ↦
        let same = (==_iff c a).0 f in
        let at = ap (λ x. get_elem? w.heap x) same ∙ e in
        let t' = after_start t w in
        let up = after_start-IsUp t w d ok in
        let there : get_elem? (round c w).heap a ≡ some t' =
          ap (λ h. get_elem? h a) (round-due t c w d at)
          ∙ ap (λ x. get_elem? (set w.heap x t') a) same
          ∙ get_elem?-set w.heap a t t' e in
        (t', restore_all-idle rest a t' (round c w) (ground (arith, up.state)) there, up)
    | inr f ↦
        restore_all-due rest a t (round c w) d ok (ground (arith, f, m))
          (round-other c a w (ground (arith, f, ==_iff c a)) ∙ e)
  ]

  listed :
      (m : List (ℤ × RegisteredTailnet)) (k : ℤ) (r : RegisteredTailnet)
      → lookup k m ≡ some r
      → any (λ c. c == r.tailnet) (map (λ x. x.1.tailnet) m) ≡ true
  unfolding lookup
  listed [] k r e = cc
  listed ((j, s) ∷ m) k r e = ground (arith, e, ==_iff s.tailnet r.tailnet, listed m k r)

  -- If an id of the registry stands for a tailnet in the heap, and the calls of a start of that
  -- tailnet succeed, then after `RestoreEnabledTailnets` either the user wanted the tailnet to run
  -- and it was stopped, and now it is started and enabled and holds proxy, server and watcher; or
  -- one of the two was not so, and it is the tailnet from before.
  pub restore_lem :
      (w : World B) (k : ℤ) (r : RegisteredTailnet) (t : Tailnet)
      → lookup k w.store.registry.tailnets ≡ some r
      → get_elem? w.heap r.tailnet ≡ some t
      → AreOk (calls t.id)
      → ((t.user_state ≡ user_enabled)
          × (t.current_state ≡ stopped)
          × (t' : Tailnet) × (get_elem? (restore_enabled_tailnets b calls w).heap r.tailnet
              ≡ some t')
          × IsUp t')
        ⊎ (((t.user_state ≢ user_enabled) ⊎ (t.current_state ≢ stopped))
            × (get_elem? (restore_enabled_tailnets b calls w).heap r.tailnet ≡ some t))
  unfolding restore_enabled_tailnets list
  restore_lem w k r t found at ok = elim (Bool-cases (is_due t)) [
    | inl d ↦
        let member =
          any-sort _ (λ c. c == r.tailnet) _ ∙ listed w.store.registry.tailnets k r found in
        let (t', there, up) = restore_all-due (list w) r.tailnet t w d ok member at in
        inl (ground (arith, d), ground (arith, d), t', there, up)
    | inr d ↦ inr (ground (arith, d), restore_all-idle (list w) r.tailnet t w d at)
  ]
