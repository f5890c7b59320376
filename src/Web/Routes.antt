-- ===== src/Web/Routes.antt =====
-- The routes of internal/web/server.go, but for the event stream: which handler a request gets. The
-- outcomes of the external calls that its handler makes come with the request, as does what the
-- libraries give for a page.
pub mod Laws
use tailhopper.Base.{Str, codes, Option, none, some, List, [], ◌∷◌}
use tailhopper.Ts.Start.{StartCalls}
use tailhopper.Ts.Stop.{CloseCalls}
use tailhopper.Ts.Logout.{LogoutCalls}
use tailhopper.Registry.Config.{Broadcaster}
use tailhopper.Registry.World.{World}
use tailhopper.Registry.Changes.{Outside, AddCalls}
use tailhopper.Pac.{handler}
use tailhopper.Ui.Dashboard.{DashboardData, serve_dashboard}
use tailhopper.Web.Handlers.{
  Response, http_error, only_status, tailnet_start_handler, tailnet_stop_handler,
  tailnet_delete_handler, add_tailnet_handler,
}

-- What the libraries give: `strings.ToLower`, the text of a template, unless its execution fails, the answer of the
-- file server, and the body of a redirect.
pub record Pages : Type 0 where
  pub to_lower : Str → Str
  pub execute : DashboardData → Option Str
  pub static_handler : Str → Response
  pub redirect_body : Str

-- The routes that read only, and those that are no route.
pub data Page : Type 0 where
  static_file : Str → Page
  old_ui pac_file dashboard noop unknown wrong_method : Page

-- `renderTemplate`, and the answer if it fails.
render_template : Option Str → Response
render_template none = http_error 500 (codes "internal server error")
render_template (some text) = record { status = 200; body = text }

unfoldable pub page : {B : Type 0} → Pages → Str → Page → World B → Response
unfolding render_template serve_dashboard handler
page p addr (static_file path) w = p.static_handler path
page p addr old_ui w = record { status = 307; body = p.redirect_body }
page p addr pac_file w = record { status = 200; body = (handler w).0 }
page p addr dashboard w = render_template (p.execute (serve_dashboard p.to_lower addr w))
page p addr noop w = only_status 200
page p addr unknown w = http_error 404 (codes "not found")
page p addr wrong_method w = http_error 405 (codes "method not allowed")

pub data Request : Type 0 where
  add_request : AddCalls → StartCalls → Str → Request
  start_request : StartCalls → Str → Request
  stop_request : CloseCalls → Str → Request
  delete_request : LogoutCalls → Str → Request
  page_request : Pages → Str → Page → Request

module _ {B : Type 0} (b : Broadcaster B) (toast : Str → Str → Option Str) (o : Outside) where
  unfoldable pub serve : Request → World B → Option (World B × Response)
  unfolding page tailnet_start_handler tailnet_stop_handler tailnet_delete_handler
      add_tailnet_handler
  serve (add_request a c method) w = add_tailnet_handler b o a c method w
  serve (start_request c id) w = tailnet_start_handler b c id w
  serve (stop_request c id) w = tailnet_stop_handler b c id w
  serve (delete_request c id) w = tailnet_delete_handler b toast c id w
  serve (page_request p addr q) w = some (w, page p addr q w)

  next_request : (World B → Option (World B)) → Option (World B × Response) → Option (World B)
  next_request go none = none
  next_request go (some (w, r)) = go w

  -- Requests one after the other; `none` if one of them meets a nil pointer.
  unfoldable pub serve_all : List Request → World B → Option (World B)
  unfolding serve next_request
  serve_all [] w = some w
  serve_all (q ∷ qs) w = next_request (serve_all qs) (serve q w)
