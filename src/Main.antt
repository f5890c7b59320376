-- ===== src/Main.antt =====
-- `main` of cmd/tailhopper/main.go. The flag, the variables of the environment and the disk are
-- arguments, and so is how the server ends; the routes are those of Web.
use tailhopper.Base.{
  ℕ, ℤ, Str, codes, is_empty, Bool, true, false, Option, none, some, ◌++◌, if◌then◌else◌,
}
use tailhopper.Ts.State.{Error}
use tailhopper.Ts.Host.{Host}
use tailhopper.Ts.Start.{StartCalls}
use tailhopper.Logging.Handler.{ContextHandler, new_context_handler, level_info}
use tailhopper.Registry.Config.{Broadcaster, Disk}
use tailhopper.Registry.World.{World, new_registry}
use tailhopper.Registry.Running.{restore_enabled_tailnets}

-- `level`, by what LOG_LEVEL reads as.
unfoldable pub log_level : Option ℤ → ℤ
log_level none = level_info
log_level (some level) = level

-- The handler of the default logger; `text_handler` is the one of log/slog at that level.
unfoldable pub default_handler : {H : Type 0} → (ℤ → H) → Option ℤ → ContextHandler H
unfolding log_level new_context_handler
default_handler text_handler level = new_context_handler (text_handler (log_level level))

pub data Outcome (B : Type 0) : Type 0 where
  shows_version : Outcome B
  exits : Error → Outcome B
  serves : Str → World B → Outcome B

-- `dashboardAddr`
unfoldable pub dashboard_addr : Str → Str
dashboard_addr port = codes "127.0.0.1:" ++ (if is_empty port then codes "8888" else port)

module _ {B : Type 0} (b : Option (Broadcaster B)) where
  come_up : (ℤ → StartCalls) → Str → Option Error → World B → Outcome B
  unfolding dashboard_addr
  come_up calls port (some e) w = exits e
  come_up calls port none w = serves (dashboard_addr port) (restore_enabled_tailnets b calls w)

  unfoldable pub main : Bool → (ℤ → StartCalls) → Str → Disk → B → Host → Outcome B
  unfolding come_up
  main true calls port disk events host = shows_version
  main false calls port disk events host =
      let (e, w) = new_registry (codes "./tailhopper.json") disk events host in
      come_up calls port e w

-- The exit code, by what `dashboardSrv.Start()` returns once the server serves.
unfoldable pub exit_code : {B : Type 0} → Outcome B → Option Error → ℕ
exit_code shows_version ended = 0
exit_code (exits e) ended = 1
exit_code (serves addr w) none = 0
exit_code (serves addr w) (some e) = 1
