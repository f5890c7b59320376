-- ===== src/Ui/Assets.antt =====
-- The toasts of internal/ui/ui.go and the static files of internal/ui/static.go.
use tailhopper.Base.{Str, codes, Bool, true, false, Option, none, some}

-- What the template of a toast gets.
pub record Toast : Type 0 where
  pub toast_type : Str
  pub message : Str

-- `RenderToast`; `execute` runs a template by its name, and is `none` if it fails.
unfoldable pub render_toast : (Str → Toast → Option Str) → Str → Str → Option Str
render_toast execute toast_type message =
    execute (codes "toast") (record { toast_type = toast_type; message = message })

-- What serves the static files: all of them without their prefix, or none.
pub data StaticHandler : Type 0 where
  not_found_handler : StaticHandler
  file_server : Str → StaticHandler

made_handler : Bool → StaticHandler
made_handler true = file_server (codes "/static/")
made_handler false = not_found_handler

-- `StaticHandler`, with the handler that `staticOnce` keeps; the argument is whether `fs.Sub` ends
-- without an error.
unfoldable pub static_handler : Bool → Option StaticHandler → Option StaticHandler × StaticHandler
unfolding made_handler
static_handler ok (some h) = (some h, h)
static_handler ok none = (some (made_handler ok), made_handler ok)
