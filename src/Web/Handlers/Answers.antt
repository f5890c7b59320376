-- ===== src/Web/Handlers/Answers.antt =====
-- Every handler answers, and keeps the registry sound.
use tailhopper.Base.{
  subst, ℕ, ◌≤◌, ℤ, Str, ◌≡◌, refl, sym, Option, none, some, List, map, arith, Bool-cases,
  Option-cases, inl, inr,
}
use tailhopper.Base.Decimal.{atoi}
use tailhopper.Base.Maps.{lookup, delete, lookup-delete}
use tailhopper.Ts.State.{Error, is_terminal}
use tailhopper.Ts.Tailnet.{Machine, Hooks, snapshot}
use tailhopper.Ts.Start.{StartCalls, start}
use tailhopper.Ts.Stop.{CloseCalls, stop}
use tailhopper.Ts.Logout.{LogoutCalls, logout}
use tailhopper.Registry.Config.{RegisteredTailnet, Broadcaster, Store}
use tailhopper.Registry.Store.{hooks, announce_global}
use tailhopper.Registry.World.{World, get, address_of}
use tailhopper.Registry.Changes.{delete_tailnet}
use tailhopper.Registry.Changes.Ends.{delete-ends}
use tailhopper.Web.Handlers.{
  Response, LogoutResult, skipped, ended, command_on, command_at, answer_command, finish_delete,
  delete_in, delete_at, delete_on, after_logout, tailnet_start_handler, tailnet_stop_handler,
  tailnet_delete_handler,
}
use tailhopper.Web.Handlers.Frame.{Keeps, bare, bare_entries, start-Keeps, stop-Keeps, logout-Keeps}
use tailhopper.Web.Handlers.Wired.{IsSound, IsAt, run_at-Ran, unconfigured, unconfigured-delete}

-- A request is answered, and the registry is sound after it.
pub record Answered {B : Type 0} (r : Option (World B × Response)) : Type 0 where
  pub world : World B
  pub response : Response
  pub answered : r ≡ some (world, response)
  pub sound : IsSound world

abbrev pub entries : {B : Type 0} → World B → List (ℤ × RegisteredTailnet)
entries w = w.store.registry.tailnets

-- Entries may go.
pub IsSound-fewer :
    {B : Type 0} (w w' : World B)
    → IsSound w
    → ((k : ℤ) (a : ℕ) → get k w' ≡ some a → get k w ≡ some a)
    → ((k : ℤ) (a : ℕ) → IsAt w.heap a k → IsAt w'.heap a k)
    → unconfigured (bare_entries w'.store) ≤ unconfigured (bare_entries w.store)
    → IsSound w'
IsSound-fewer w w' v sub heap le = record {
  wired = λ k a e. heap k a (v.wired k a (sub k a e));
  few = omega (arith, le, v.few);
}

pub lookup_fewer :
    (id k : ℤ) (a : ℕ) (m : List (ℤ × RegisteredTailnet))
    → address_of (lookup k (delete id m)) ≡ some a
    → address_of (lookup k m) ≡ some a
lookup_fewer id k a m e = ground (arith, lookup-delete id k m)

module _ {B : Type 0} (b : Broadcaster B) where
  pub announced-IsSound :
      (w : World B) → IsSound w → IsSound (record w { store = announce_global (some b) w.store })
  unfolding announce_global get
  announced-IsSound w v = record { wired = v.wired; few = v.few }

  command_on-Answered :
      (f : Hooks (Store B) → Machine (Store B) → Machine (Store B) × Option Error)
      → ((id : ℤ) (m : Machine (Store B)) → Keeps m (f (hooks (some b) id) m).0)
      → (id : Option ℤ) (w : World B) → IsSound w
      → Answered (command_on b f id w)
  unfolding command_on command_at answer_command
  command_on-Answered f keeps none w v = record {
    world = w;
    response = _;
    answered = refl;
    sound = v;
  }
  command_on-Answered f keeps (some id) w v = elim (Option-cases (get id w)) [
    | inl e ↦ rw e (record { world = w; response = _; answered = refl; sound = v })
    | inr (a, e) ↦
        let r = run_at-Ran (some b) f keeps w a id v e in
        rw e (rw r.ran (record { world = r.world; response = _; answered = refl; sound = r.sound }))
  ]

  delete-IsSound : (id : ℤ) (w : World B) → IsSound w → IsSound (delete_tailnet (some b) id w).0
  unfolding get
  delete-IsSound id w v =
      let w' = (delete_tailnet (some b) id w).0 in
      let (heap, _, left) = delete-ends (some b) id w in
      elim left [
        | inl e ↦
            IsSound-fewer w w' v
              (λ k a g. lookup_fewer id k a (entries w) (subst_entries k a w' e g))
              (λ k a h. subst (λ x. IsAt x a k) (sym heap) h)
              (subst (λ m. unconfigured (map bare m) ≤ unconfigured (map bare (entries w))) (sym e)
                (unconfigured-delete id (entries w)))
        | inr e ↦
            IsSound-fewer w w' v (λ k a g. subst_entries k a w' e g)
              (λ k a h. subst (λ x. IsAt x a k) (sym heap) h)
              (subst (λ m. unconfigured (map bare m) ≤ unconfigured (map bare (entries w))) (sym e)
                (omega arith))
      ]
    where
      subst_entries :
          (k : ℤ) (a : ℕ) (w' : World B) {m : List (ℤ × RegisteredTailnet)}
          → entries w' ≡ m
          → address_of (lookup k (entries w')) ≡ some a
          → address_of (lookup k m) ≡ some a
      subst_entries k a w' e g = subst (λ m. address_of (lookup k m) ≡ some a) e g

  finish_delete-Answered :
      (toast : Str → Str → Option Str) (id : ℤ) (w : World B) (l : LogoutResult)
      → IsSound w
      → Answered (finish_delete b toast id w l)
  unfolding finish_delete
  finish_delete-Answered toast id w l v =
      let sound = delete-IsSound id w v in
      elim (Option-cases (delete_tailnet (some b) id w).1) [
        | inl e ↦
            rw (e, finish_delete)
              (record {
                world = _;
                response = _;
                answered = refl;
                sound = announced-IsSound (delete_tailnet (some b) id w).0 sound;
              })
        | inr (x, e) ↦
            rw (e, finish_delete)
              (record { world = _; response = _; answered = refl; sound = sound })
      ]

  delete_on-Answered :
      (toast : Str → Str → Option Str) (c : LogoutCalls) (id : Option ℤ) (w : World B)
      → IsSound w
      → Answered (delete_on b toast c id w)
  unfolding delete_on delete_at delete_in after_logout
  delete_on-Answered toast c none w v = record {
    world = w;
    response = _;
    answered = refl;
    sound = v;
  }
  delete_on-Answered toast c (some id) w v = elim (Option-cases (get id w)) [
    | inl e ↦ rw e (record { world = w; response = _; answered = refl; sound = v })
    | inr (a, e) ↦
        let (t, at, same) = v.wired id a e in
        rw e (
          rw at (elim (Bool-cases (is_terminal (snapshot t).state)) [
            | inl s ↦ rw s (finish_delete-Answered toast id w skipped v)
            | inr s ↦
                let r =
                  run_at-Ran (some b) (λ h. logout h c) (λ k m. logout-Keeps (some b) k c m) w a id
                    v e in
                rw s (rw r.ran (finish_delete-Answered toast id r.world (ended r.value) r.sound))
          ]))
  ]

module _ {B : Type 0} (b : Broadcaster B) where
  pub start_handler-Answered :
      (c : StartCalls) (id : Str) (w : World B)
      → IsSound w
      → Answered (tailnet_start_handler b c id w)
  unfolding tailnet_start_handler
  start_handler-Answered c id w v =
      command_on-Answered b (λ h. start h c) (λ k m. start-Keeps (some b) k c m) (atoi id) w v

  pub stop_handler-Answered :
      (c : CloseCalls) (id : Str) (w : World B)
      → IsSound w
      → Answered (tailnet_stop_handler b c id w)
  unfolding tailnet_stop_handler
  stop_handler-Answered c id w v =
      command_on-Answered b (λ h. stop h c) (λ k m. stop-Keeps (some b) k c m) (atoi id) w v

  pub delete_handler-Answered :
      (toast : Str → Str → Option Str) (c : LogoutCalls) (id : Str) (w : World B)
      → IsSound w
      → Answered (tailnet_delete_handler b toast c id w)
  unfolding tailnet_delete_handler
  delete_handler-Answered toast c id w v = delete_on-Answered b toast c (atoi id) w v
