-- ===== src/Socks.antt =====
-- internal/socks/socks.go: the proxy of a tailnet up to the library that serves the connections. A
-- connection is a handle, and nil is `none`. How long a dial takes and how a call of net ends are
-- arguments.
pub mod Laws
use tailhopper.Base.{ℕ, ℤ, Str, codes, Option, none, some, List, [], ◌∷◌, ◌++◌}
use tailhopper.Base.Decimal.{print_int}
use tailhopper.Ts.State.{Error}
use tailhopper.Ts.Tailnet.{Tailnet}
use tailhopper.Ts.Logout.{Dialed, refused, forwarded, nil_dereference, dial}
use tailhopper.Logging.{LogAttr, text, duration, error}
use tailhopper.Logging.Handler.{LogRecord, level_debug, level_info, level_error}

pub record DialEnd : Type 0 where
  pub conn : Option ℕ
  pub err : Option Error

-- `Dialer`, on a network and an address; `none` is a panic.
abbrev pub Dialer : Type 0
Dialer = Str → Str → Option DialEnd

-- `t.Dial`, by the tailnet as it is when it is called; `server_dial` is the `Dial` of a server.
ended : (ℕ → Str → Str → DialEnd) → Dialed → Option DialEnd
ended server_dial (refused e) = some (record { conn = none; err = some e })
ended server_dial (forwarded s network addr) = some (server_dial s network addr)
ended server_dial nil_dereference = none

unfoldable pub dialer_of : (ℕ → Str → Str → DialEnd) → Tailnet → Dialer
unfolding ended dial
dialer_of server_dial t network addr = ended server_dial (dial t network addr)

component : LogAttr
component = record { key = codes "component"; value = text (codes "socksserver") }

unfoldable pub attempt_record : Str → Str → LogRecord
unfolding component
attempt_record network addr = record {
  level = level_debug;
  message = codes "SOCKS5 connection attempt";
  attrs =
      component
      ∷ record { key = codes "network"; value = text network }
      ∷ record { key = codes "dest"; value = text addr }
      ∷ [];
}

unfoldable pub failed_record : Str → Str → ℤ → Error → LogRecord
unfolding component
failed_record network addr took e = record {
  level = level_error;
  message = codes "SOCKS5 connection failed";
  attrs =
      component
      ∷ record { key = codes "network"; value = text network }
      ∷ record { key = codes "dest"; value = text addr }
      ∷ record { key = codes "duration"; value = duration took }
      ∷ record { key = codes "error"; value = error e }
      ∷ [];
}

unfoldable pub established_record : Str → Str → ℤ → LogRecord
unfolding component
established_record network addr took = record {
  level = level_debug;
  message = codes "SOCKS5 connection established";
  attrs =
      component
      ∷ record { key = codes "network"; value = text network }
      ∷ record { key = codes "dest"; value = text addr }
      ∷ record { key = codes "duration"; value = duration took }
      ∷ [];
}

-- How `net.Listen` ends: an error, or the address of the listener.
pub data Listened : Type 0 where
  not_bound : Error → Listened
  bound : Str → Listened

module _ {R : Type 0} (log : LogRecord → R → R) where
  after_error : Str → Str → ℤ → DialEnd → Option Error → R → DialEnd × R
  unfolding failed_record established_record
  after_error network addr took d (some e) sink =
      (record { conn = none; err = some e }, log (failed_record network addr took e) sink)
  after_error network addr took d none sink =
      (record { conn = d.conn; err = none }, log (established_record network addr took) sink)

  after_dial : Str → Str → ℤ → Option DialEnd → R → Option (DialEnd × R)
  unfolding after_error
  after_dial network addr took none sink = none
  after_dial network addr took (some d) sink = some (after_error network addr took d d.err sink)

  -- `loggingDialer`
  unfoldable pub logging_dialer : Dialer → ℤ → Str → Str → R → Option (DialEnd × R)
  unfolding after_dial attempt_record
  logging_dialer dial took network addr sink =
      after_dial network addr took (dial network addr) (log (attempt_record network addr) sink)

-- `Server`; `dialer` is that of its `socks5.Server`.
pub record Server (R : Type 0) : Type 0 where
  pub dialer : ℤ → Str → Str → R → Option (DialEnd × R)
  pub addr : Str

pub data Made (R : Type 0) : Type 0 where
  made : Server R → Made R
  not_made : Error → Made R

-- The address that `NewServer` listens on.
unfoldable pub listen_addr : ℤ → Str
listen_addr port = codes "127.0.0.1:" ++ print_int port

module _ {R : Type 0} (log : LogRecord → R → R) where
  made_on : Dialer → Listened → Made R
  unfolding logging_dialer
  made_on dial (not_bound e) = not_made e
  made_on dial (bound addr) = made (record { dialer = logging_dialer log dial; addr = addr })

  -- `NewServer`
  unfoldable pub new_server : (Str → Listened) → Dialer → ℤ → Made R
  unfolding made_on listen_addr
  new_server listen dial port = made_on dial (listen (listen_addr port))

-- `Start`: what it logs.
unfoldable pub start : {R : Type 0} → (LogRecord → R → R) → Str → R → R
unfolding component
start log addr sink =
    log
      (record {
        level = level_info;
        message = codes "SOCKS5 proxy listening";
        attrs = component ∷ record { key = codes "addr"; value = text addr } ∷ [];
      })
      sink

-- The end of its goroutine, by what `Serve` returns.
unfoldable pub serve_ended : {R : Type 0} → (LogRecord → R → R) → Option Error → R → R
unfolding component
serve_ended log none sink = sink
serve_ended log (some e) sink =
    log
      (record {
        level = level_error;
        message = codes "SOCKS5 server error";
        attrs = component ∷ record { key = codes "error"; value = error e } ∷ [];
      })
      sink
