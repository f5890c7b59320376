-- ===== src/Ts/State.antt =====
-- internal/ts/state.go: the user's wish and the connection state; and the errors of the package.
use tailhopper.Base.{Str, codes, Bool, true, false, ◌++◌}

pub data UserState : Type 0 where
  user_enabled user_disabled : UserState

pub data State : Type 0 where
  connected has_terminal_error logging_out needs_login needs_machine_auth started stopped : State

-- The string constants that `State` stands for.
unfoldable pub state_text : State → Str
state_text connected = codes "ConnectedState"
state_text has_terminal_error = codes "HasTerminalErrorState"
state_text logging_out = codes "LoggingOutState"
state_text needs_login = codes "NeedsLoginState"
state_text needs_machine_auth = codes "NeedsMachineAuthState"
state_text started = codes "StartedState"
state_text stopped = codes "StoppedState"

-- `s == UserEnabled` and `s == UserDisabled`
abbrev pub is_user_enabled : UserState → Bool
is_user_enabled user_enabled = true
is_user_enabled user_disabled = false

abbrev pub is_user_disabled : UserState → Bool
is_user_disabled user_disabled = true
is_user_disabled user_enabled = false

-- `s == HasTerminalErrorState`
abbrev pub is_terminal : State → Bool
is_terminal has_terminal_error = true
is_terminal _ = false

-- A Go `error`: an `*AlreadyClaimedError`, or any other by its text.
pub data Error : Type 0 where
  already_claimed : Str → Error
  message : Str → Error

unfoldable pub already_claimed_text : Str → Str
already_claimed_text suffix =
    codes "magic DNS suffix '" ++ suffix ++ codes "' is already claimed by another tailnet"

-- `err.Error()`
pub error_text : Error → Str
error_text (already_claimed suffix) = already_claimed_text suffix
error_text (message text) = text

-- The `fmt.Errorf` of a command that the state does not allow.
pub unable_to_start : State → Error
unable_to_start s = message (codes "unable to start: tailnet is in state " ++ state_text s)

pub unable_to_stop : State → Error
unable_to_stop s = message (codes "unable to stop: tailnet is in state " ++ state_text s)

pub unable_to_logout : State → Error
unable_to_logout s = message (codes "unable to logout: tailnet is in state " ++ state_text s)

pub unable_to_dial : State → Error
unable_to_dial s = message (codes "unable to dial: tailnet is in state " ++ state_text s)
