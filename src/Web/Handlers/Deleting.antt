-- ===== src/Web/Handlers/Deleting.antt =====
-- What the handler that deletes a tailnet does, however the logout ends.
use tailhopper.Base.{
  List, get_elem?, ℕ, ℤ, int_eq_iff, int_eq_refl, Str, ◌≡◌, ◌≢◌, refl, sym, ap, ◌∙◌, Bool-cases,
  inl, inr, Option, none, some, arith,
}
use tailhopper.Base.Decimal.{atoi}
use tailhopper.Base.Maps.{lookup, delete, lookup-delete}
use tailhopper.Ts.State.{is_terminal}
use tailhopper.Ts.Tailnet.{snapshot}
use tailhopper.Ts.Logout.{LogoutCalls, logout}
use tailhopper.Registry.Config.{Broadcaster, RegisteredTailnet}
use tailhopper.Registry.Store.{announce_global}
use tailhopper.Registry.World.{World, get, address_of}
use tailhopper.Registry.Changes.{delete_tailnet}
use tailhopper.Web.Handlers.{
  Response, LogoutResult, skipped, ended, finish_delete, delete_on, delete_at, delete_in,
  after_logout, toast_response, tailnet_delete_handler,
}
use tailhopper.Web.Handlers.Frame.{logout-Keeps}
use tailhopper.Web.Handlers.Wired.{IsSound, run_at-Ran, get-bare, bare_get}
use tailhopper.Web.Handlers.Answers.{entries}

-- The answer to a delete, and what is left.
pub record Deleted {B : Type 0} (id : ℤ) (w : World B) (r : Option (World B × Response))
    : Type 0 where
  pub world : World B
  pub response : Response
  pub answered : r ≡ some (world, response)
  pub success : response.status ≡ 200
  pub gone : get id world ≡ none
  pub others : (j : ℤ) → j ≢ id → get j world ≡ get j w

gone_after :
    (id : ℤ) (m : List (ℤ × RegisteredTailnet)) → address_of (lookup id (delete id m)) ≡ none
gone_after id m = ground (arith, lookup-delete id id m, int_eq_refl id)

kept_after :
    (id j : ℤ) (m : List (ℤ × RegisteredTailnet))
    → j ≢ id
    → address_of (lookup j (delete id m)) ≡ address_of (lookup j m)
kept_after id j m ne = ground (arith, lookup-delete id j m, int_eq_iff id j)

module _ {B : Type 0} (b : Broadcaster B) (toast : Str → Str → Option Str) where
  delete_known_lem :
      (id : ℤ) (w : World B) (a : ℕ)
      → get id w ≡ some a
      → (entries (delete_tailnet (some b) id w).0 ≡ delete id (entries w))
        × ((delete_tailnet (some b) id w).1 ≡ none)
  unfolding delete_tailnet get
  delete_known_lem id w a e = ground arith

  toast-status : (html : Option Str) → (toast_response html).status ≡ 200
  toast-status none = refl
  toast-status (some html) = refl

  finish_delete-Deleted :
      (id : ℤ) (w : World B) (a : ℕ) (l : LogoutResult)
      → get id w ≡ some a
      → Deleted id w (finish_delete b toast id w l)
  unfolding finish_delete announce_global get
  finish_delete-Deleted id w a l e =
      let (left, done) = delete_known_lem id w a e in
      rw (done, finish_delete)
        (record {
          world = _;
          response = _;
          answered = refl;
          success = toast-status _;
          gone = rw left (gone_after id (entries w));
          others = λ j ne. rw left (kept_after id j (entries w) ne);
        })

  delete_in-Deleted :
      (c : LogoutCalls) (id : ℤ) (w : World B) (a : ℕ)
      → IsSound w
      → get id w ≡ some a
      → Deleted id w (delete_in b toast c id (get_elem? w.heap a) a w)
  unfolding delete_in after_logout
  delete_in-Deleted c id w a v e =
      let (t, at, same) = v.wired id a e in
      rw at (elim (Bool-cases (is_terminal (snapshot t).state)) [
        | inl s ↦ rw s (finish_delete-Deleted id w a skipped e)
        | inr s ↦
            let r =
              run_at-Ran (some b) (λ h. logout h c) (λ k m. logout-Keeps (some b) k c m) w a id v
                e in
            let here =
              λ (j : ℤ). get-bare j r.world ∙ ap (bare_get j) r.same ∙ sym (get-bare j w) in
            let d = finish_delete-Deleted id r.world a (ended r.value) (here id ∙ e) in
            rw s (
              rw r.ran (record {
                world = d.world;
                response = d.response;
                answered = d.answered;
                success = d.success;
                gone = d.gone;
                others = λ j ne. d.others j ne ∙ here j;
              }))
      ])

  -- If every id of the registry stands for a tailnet with that id in the heap, and at most one
  -- entry has no suffix, and the text of a delete request reads as an id that is known, then
  -- however the logout ends the answer is 200, the id is no longer known, and every other id stands
  -- for the same tailnet as before.
  pub delete_handler-Deleted :
      (c : LogoutCalls) (text : Str) (id : ℤ) (w : World B) (a : ℕ)
      → IsSound w
      → atoi text ≡ some id
      → get id w ≡ some a
      → Deleted id w (tailnet_delete_handler b toast c text w)
  unfolding tailnet_delete_handler delete_on delete_at
  delete_handler-Deleted c text id w a v t e = rw t (rw e (delete_in-Deleted c id w a v e))
