-- ===== src/Web/Handlers.antt =====
-- The handlers of internal/web/handlers.go. `none` is a nil dereference, which the laws rule out.
-- The registry announces to the broadcaster that the handlers get, as `main` sets it up.
pub mod Frame
pub mod Wired
pub mod Answers
pub mod Adding
pub mod Race
pub mod Deleting
use tailhopper.Base.{
  ℕ, ℤ, Str, codes, str_eq, get_elem?, Option, none, some, [], ◌∷◌, ◌++◌, not, if◌then◌else◌,
}
use tailhopper.Base.Decimal.{atoi}
use tailhopper.Ts.State.{Error, error_text, is_terminal}
use tailhopper.Ts.Tailnet.{Tailnet, TailnetSnapshot, Machine, Hooks, snapshot}
use tailhopper.Ts.Start.{StartCalls, start}
use tailhopper.Ts.Stop.{CloseCalls, stop}
use tailhopper.Ts.Logout.{LogoutCalls, logout}
use tailhopper.Registry.Config.{Broadcaster, Store}
use tailhopper.Registry.Store.{has_unconfigured_tailnets, announce_global}
use tailhopper.Registry.World.{World, get}
use tailhopper.Registry.Running.{run_at}
use tailhopper.Registry.Changes.{Outside, AddCalls, Added, added, not_added, add, delete_tailnet}

pub record Response : Type 0 where
  pub status : ℕ
  pub body : Str

-- `http.Error`
abbrev pub http_error : ℕ → Str → Response
http_error code text = record { status = code; body = text ++ 10 ∷ [] }

abbrev pub only_status : ℕ → Response
only_status code = record { status = code; body = [] }

abbrev pub invalid_id : Response
invalid_id = http_error 400 (codes "invalid tailnet id")

abbrev pub not_found : Response
not_found = http_error 404 (codes "tailnet not found")

-- What a command on a tailnet is answered with.
unfoldable pub command_response : Option Error → Response
command_response none = only_status 204
command_response (some e) = http_error 409 (error_text e)

-- The toast of a delete: the message and its type.
pub data LogoutResult : Type 0 where
  skipped : LogoutResult
  ended : Option Error → LogoutResult

toast_type : LogoutResult → Str
toast_type (ended (some e)) = codes "warning"
toast_type _ = codes "success"

toast_message : LogoutResult → Str
toast_message skipped = codes "Tailnet deleted successfully"
toast_message (ended none) = codes "Tailnet deleted and logged out successfully"
toast_message (ended (some e)) = codes "Tailnet deleted, but logout failed: " ++ error_text e

abbrev toast_response : Option Str → Response
toast_response none = only_status 200
toast_response (some html) = record { status = 200; body = html }

module _ {B : Type 0} (b : Broadcaster B) where
  answer_command : Option (World B × Option Error) → Option (World B × Response)
  unfolding command_response
  answer_command none = none
  answer_command (some (w, e)) = some (w, command_response e)

  command_at :
      (Hooks (Store B) → Machine (Store B) → Machine (Store B) × Option Error)
      → Option ℕ
      → World B
      → Option (World B × Response)
  unfolding answer_command run_at
  command_at f none w = some (w, not_found)
  command_at f (some a) w = answer_command (run_at (some b) f a w)

  command_on :
      (Hooks (Store B) → Machine (Store B) → Machine (Store B) × Option Error)
      → Option ℤ
      → World B
      → Option (World B × Response)
  unfolding command_at get
  command_on f none w = some (w, invalid_id)
  command_on f (some id) w = command_at f (get id w) w

  -- `tailnetStartHandler`
  unfoldable pub tailnet_start_handler : StartCalls → Str → World B → Option (World B × Response)
  unfolding command_on start
  tailnet_start_handler c id_text w = command_on (λ h. start h c) (atoi id_text) w

  -- `tailnetStopHandler`
  unfoldable pub tailnet_stop_handler : CloseCalls → Str → World B → Option (World B × Response)
  unfolding command_on stop
  tailnet_stop_handler c id_text w = command_on (λ h. stop h c) (atoi id_text) w

  abbrev announce : World B → World B
  announce w = record w { store = announce_global (some b) w.store }

  -- The delete and its answer.
  finish_delete :
      (Str → Str → Option Str) → ℤ → World B → LogoutResult → Option (World B × Response)
  unfolding announce_global delete_tailnet toast_type toast_message
  finish_delete toast id w l =
      let (w', e) = delete_tailnet (some b) id w in
      elim e [
        | some e ↦ some (w', http_error 500 (error_text e))
        | none ↦ some (announce w', toast_response (toast (toast_type l) (toast_message l)))
      ]

  after_logout :
      (Str → Str → Option Str) → ℤ → Option (World B × Option Error) → Option (World B × Response)
  unfolding finish_delete
  after_logout toast id none = none
  after_logout toast id (some (w, e)) = finish_delete toast id w (ended e)

  delete_in :
      (Str → Str → Option Str)
      → LogoutCalls
      → ℤ
      → Option Tailnet
      → ℕ
      → World B
      → Option (World B × Response)
  unfolding after_logout finish_delete logout run_at
  delete_in toast c id none a w = none
  delete_in toast c id (some t) a w =
      if is_terminal (snapshot t).state
      then finish_delete toast id w skipped
      else after_logout toast id (run_at (some b) (λ h. logout h c) a w)

  delete_at :
      (Str → Str → Option Str) → LogoutCalls → ℤ → Option ℕ → World B → Option (World B × Response)
  unfolding delete_in
  delete_at toast c id none w = some (w, not_found)
  delete_at toast c id (some a) w = delete_in toast c id (get_elem? w.heap a) a w

  delete_on :
      (Str → Str → Option Str) → LogoutCalls → Option ℤ → World B → Option (World B × Response)
  unfolding delete_at get
  delete_on toast c none w = some (w, invalid_id)
  delete_on toast c (some id) w = delete_at toast c id (get id w) w

  -- `tailnetDeleteHandler`; `toast` is `ui.RenderToast`, whose template may fail.
  unfoldable pub tailnet_delete_handler :
      (Str → Str → Option Str) → LogoutCalls → Str → World B → Option (World B × Response)
  unfolding delete_on
  tailnet_delete_handler toast c id_text w = delete_on toast c (atoi id_text) w

  started_new : Option (World B × Option Error) → Option (World B × Response)
  unfolding announce_global
  started_new none = none
  started_new (some (w, e)) = some (announce w, only_status 201)

  answer_add : StartCalls → World B × Added → Option (World B × Response)
  unfolding started_new run_at start
  answer_add c (w, not_added e) =
      some (w, http_error 400 (codes "failed to add tailnet: " ++ error_text e))
  answer_add c (w, added a) = started_new (run_at (some b) (λ h. start h c) a w)

  -- The early returns of `addTailnetHandler`.
  unfoldable pub check_add : Str → World B → Option Response
  unfolding has_unconfigured_tailnets str_eq
  check_add method w =
      if not (str_eq method (codes "POST"))
      then some (http_error 405 (codes "method not allowed"))
      else if has_unconfigured_tailnets w.store
      then some (
          http_error 409
            (codes "cannot create new tailnet while an existing tailnet is unconfigured"))
      else none

  -- What follows them.
  unfoldable pub after_check :
      Option Response → Outside → AddCalls → StartCalls → World B → Option (World B × Response)
  unfolding answer_add add
  after_check (some r) o a c w = some (w, r)
  after_check none o a c w = answer_add c (add (some b) o a [] w)

  -- `addTailnetHandler`
  unfoldable pub add_tailnet_handler :
      Outside → AddCalls → StartCalls → Str → World B → Option (World B × Response)
  unfolding check_add after_check
  add_tailnet_handler o a c method w = after_check (check_add method w) o a c w
