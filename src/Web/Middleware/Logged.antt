-- ===== src/Web/Middleware/Logged.antt =====
-- `withLoggingContext` and `requestLoggingMiddleware` of internal/web/middleware.go.
pub mod Laws
use tailhopper.Base.{pos, ℕ, Str, codes, is_empty, Bool, List, [], ◌∷◌, if◌then◌else◌}
use tailhopper.Logging.{LogAttr, text, int}
use tailhopper.Logging.Handler.{Context, LogRecord, with_request_id, level_info}
use tailhopper.Web.Middleware.{Call, ResponseWriter, new_response_writer, perform_all}

-- `middleware.GetReqID` gives the id, which is empty if there is none.
unfoldable pub with_logging_context : Str → Context → Context
unfolding with_request_id
with_logging_context id c = if is_empty id then c else with_request_id id c

pub record HttpRequest : Type 0 where
  pub method : Str
  pub path : Str
  pub remote_addr : Str

-- What a handler does: its calls of the writer, and whether it ends by a panic.
pub record Ran (R : Type 0) : Type 0 where
  pub calls : List Call
  pub panicked : Bool
  pub sink : R

unfoldable pub request_record : HttpRequest → LogRecord
request_record q = record {
  level = level_info;
  message = codes "Request";
  attrs =
      record { key = codes "component"; value = text (codes "httprequests") }
      ∷ record { key = codes "method"; value = text q.method }
      ∷ record { key = codes "path"; value = text q.path }
      ∷ record { key = codes "remote_addr"; value = text q.remote_addr }
      ∷ [];
}

unfoldable pub response_record : HttpRequest → ℕ → LogRecord
response_record q status = record {
  level = level_info;
  message = codes "Response";
  attrs =
      record { key = codes "component"; value = text (codes "httprequests") }
      ∷ record { key = codes "method"; value = text q.method }
      ∷ record { key = codes "path"; value = text q.path }
      ∷ record { key = codes "status"; value = int (pos status) }
      ∷ [];
}

module _ {R : Type 0} (log : Context → LogRecord → R → R) (next : Context → R → Ran R) where
  -- After `next.ServeHTTP(rw, r)`; a panic goes on to the caller.
  finish_request : HttpRequest → Context → Ran R → Ran R
  unfolding response_record perform_all new_response_writer
  finish_request q c ran =
      let wr = perform_all ran.calls new_response_writer in
      record ran {
        calls = wr.sent;
        sink = if ran.panicked then ran.sink else log c (response_record q wr.status_code) ran.sink;
      }

  -- `requestLoggingMiddleware`, with what reaches the writer that it was given.
  unfoldable pub request_logging_middleware : HttpRequest → Context → R → Ran R
  unfolding finish_request request_record
  request_logging_middleware q c sink = finish_request q c (next c (log c (request_record q) sink))
