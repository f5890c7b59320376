-- ===== src/Web/Server.antt =====
-- `Start` of internal/web/server.go, and what it logs of requests without a route. How
-- `ListenAndServe` ends is an argument.
use tailhopper.Base.{Str, codes, Option, [], ◌∷◌, ◌++◌}
use tailhopper.Ts.State.{Error}
use tailhopper.Ui.Dashboard.{url_path}
use tailhopper.Logging.{text}
use tailhopper.Logging.Handler.{LogRecord, level_info, level_warn}
use tailhopper.Web.Middleware.Logged.{HttpRequest}

pac_record : Str → LogRecord
pac_record addr = record {
  level = level_info;
  message = codes "PAC file available";
  attrs =
      record { key = codes "component"; value = text (codes "httpserver") }
      ∷ record { key = codes "url"; value = text (codes "http://" ++ addr ++ url_path) }
      ∷ [];
}

dashboard_record : Str → LogRecord
dashboard_record addr = record {
  level = level_info;
  message = codes "Dashboard available";
  attrs =
      record { key = codes "component"; value = text (codes "httpserver") }
      ∷ record { key = codes "url"; value = text (codes "http://" ++ addr) }
      ∷ [];
}

-- `Start`: what is logged, and what it returns.
unfoldable pub start :
    {R : Type 0} → (LogRecord → R → R) → Str → Option Error → R → R × Option Error
unfolding pac_record dashboard_record
start log addr ended sink = (log (dashboard_record addr) (log (pac_record addr) sink), ended)

-- The record of a request that no route answers, by the text of the answer.
unfoldable pub unrouted_record : Str → HttpRequest → LogRecord
unrouted_record message q = record {
  level = level_warn;
  message = message;
  attrs =
      record { key = codes "component"; value = text (codes "httprequests") }
      ∷ record { key = codes "method"; value = text q.method }
      ∷ record { key = codes "path"; value = text q.path }
      ∷ [];
}
