-- ===== src/Tests/Logged.antt =====
-- A handler of log/slog that keeps the records, a request that it logs, and a proxied connection.
use tailhopper.Base.{
  ℕ, pos, negsuc, Str, codes, ◌≡◌, refl, true, false, none, some, List, [], ◌∷◌, ◌++◌,
}
use tailhopper.Ts.State.{message, started}
use tailhopper.Base.Decimal.{print_int}
use tailhopper.Ts.Tailnet.{new_tailnet}
use tailhopper.Registry.Store.{hooks}
use tailhopper.Ts.Start.{start}
use tailhopper.Ts.Invariant.{here, next, starts}
use tailhopper.Logging.{LogAttr}
use tailhopper.Logging.Handler.{Context, LogRecord, SlogHandler}
use tailhopper.Web.Middleware.{write_header}
use tailhopper.Web.Middleware.Logged.{HttpRequest, Ran}
use tailhopper.Socks.{DialEnd, Listened, bound, Server, new_server, dialer_of, logging_dialer}
use tailhopper.Socks.Laws.{ThroughProxy, proxied_dial}
use tailhopper.Main.{log_level, exit_code, exits}
use tailhopper.Web
use tailhopper.Tests.Fixtures.{calls_ok, idle_host, two_tailnets}
use tailhopper.Tests.Ts.{second_hooks, blank_machine}

-- The attributes of a derived handler come first.
abbrev keeping : SlogHandler (List LogAttr) (List LogRecord)
keeping = record {
  enabled = λ h c level. true;
  handle = λ h c r sink. (sink ++ record r { attrs = h ++ r.attrs } ∷ [], none);
  with_attrs = λ h attrs. h ++ attrs;
  with_group = λ h name. h;
}

abbrev get_login : HttpRequest
get_login = record { method = codes "GET"; path = codes "/login"; remote_addr = codes "[::1]:5" }

abbrev not_there : Context → List LogRecord → Ran (List LogRecord)
not_there c sink = record { calls = write_header 404 ∷ []; panicked = false; sink = sink }

abbrev no_id : Context
no_id = record { request_id = none }

abbrev the_id : Str
the_id = codes "host/1"

abbrev log_all : LogRecord → List LogRecord → List LogRecord
log_all r sink = sink ++ r ∷ []

abbrev dials_seven : ℕ → Str → Str → DialEnd
dials_seven s network addr = record { conn = some 7; err = none }

abbrev listening : Str → Listened
listening addr = bound addr

abbrev proxy : Server (List LogRecord)
proxy = record {
  dialer =
      logging_dialer log_all
        (dialer_of dials_seven (start second_hooks calls_ok blank_machine).0.tailnet);
  addr = codes "127.0.0.1:1081";
}

proxied_dial_example :
    ThroughProxy log_all dials_seven started
      (some 6)
      (pos 1000)
      (codes "tcp")
      (codes "db:5432")
      []
      (proxy.dialer (pos 1000) (codes "tcp") (codes "db:5432") [])
unfolding start new_server print_int new_tailnet second_hooks hooks
proxied_dial_example =
    proxied_dial log_all dials_seven second_hooks (pos 2) [] [] [] [] true (pos 1081) idle_host
      two_tailnets listening proxy (pos 1000) (codes "tcp") (codes "db:5432") []
      (next here (starts calls_ok)) refl

levels : (log_level none ≡ pos 0) × (log_level (some (negsuc 3)) ≡ negsuc 3)
unfolding log_level
levels = (refl, refl)

server_fails : exit_code {B = Unit {0}} (exits (message [])) none ≡ 1
unfolding exit_code
server_fails = refl

announced : (Web.Server.start log_all (codes "127.0.0.1:8888") none []).1 ≡ none
unfolding Web.Server.start
announced = refl
