-- ===== src/Web/Middleware.antt =====
-- `responseWriter` of internal/web/middleware.go, by which the status of a response is logged.
pub mod Laws
pub mod Logged
use tailhopper.Base.{ℕ, Str, Bool, true, false, List, [], ◌∷◌, ◌++◌, if◌then◌else◌}

-- A call on the writer, and on the one that it wraps.
pub data Call : Type 0 where
  write_header : ℕ → Call
  write : Str → Call
  flush : Call

-- `sent` is what the wrapped writer was called with.
pub record ResponseWriter : Type 0 where
  pub status_code : ℕ
  pub written : Bool
  pub sent : List Call

-- `&responseWriter{ResponseWriter: w, statusCode: http.StatusOK}`
unfoldable pub new_response_writer : ResponseWriter
new_response_writer = record { status_code = 200; written = false; sent = [] }

-- `WriteHeader`, `Write` and `Flush`; the wrapped writer is a `Flusher`.
unfoldable pub perform : Call → ResponseWriter → ResponseWriter
perform (write_header code) wr =
    if wr.written
    then wr
    else record { status_code = code; written = true; sent = wr.sent ++ write_header code ∷ [] }
perform (write text) wr = record {
  status_code = if wr.written then wr.status_code else 200;
  written = true;
  sent = wr.sent ++ write text ∷ [];
}
perform flush wr = record wr { sent = wr.sent ++ flush ∷ [] }

-- What a handler does with the writer.
unfoldable pub perform_all : List Call → ResponseWriter → ResponseWriter
unfolding perform
perform_all [] wr = wr
perform_all (c ∷ cs) wr = perform_all cs (perform c wr)
