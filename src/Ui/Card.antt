-- ===== src/Ui/Card.antt =====
-- The card of a tailnet, of internal/ui/ui.go, and the methods that the templates call on it.
pub mod Laws
use tailhopper.Base.{ℤ, Str, codes, Bool, true, false, List, ◌||◌, if◌then◌else◌}
use tailhopper.Ts.State.{
  UserState, is_user_enabled, State, is_terminal, connected, has_terminal_error, logging_out,
  needs_login, needs_machine_auth, started, stopped,
}

pub data StateClass : Type 0 where
  class_connected class_needs_login class_needs_auth class_connecting class_disabled class_error
        class_logging_out :
      StateClass

pub record MachineView : Type 0 where
  pub name : Str
  pub dns_name : Str
  pub status_class : Str
  pub status_text : Str
  pub ips : Str

pub record TailnetCard : Type 0 where
  pub id : ℤ
  pub base_domain : Str
  pub socks_addr : Str
  pub socks_host : Str
  pub socks_port : Str
  pub machines : List MachineView
  pub state_name : State
  pub user_state : UserState
  pub hostname : Str
  pub auth_url : Str
  pub error_msg : Str

class_of : State → StateClass
class_of connected = class_connected
class_of has_terminal_error = class_error
class_of needs_login = class_needs_login
class_of needs_machine_auth = class_needs_auth
class_of started = class_connecting
class_of stopped = class_disabled
class_of logging_out = class_logging_out

unfoldable pub state_class : TailnetCard → StateClass
unfolding class_of
state_class c = class_of c.state_name

abbrev is_logging_out : State → Bool
is_logging_out logging_out = true
is_logging_out _ = false

unfoldable pub is_toggle_on : TailnetCard → Bool
is_toggle_on c = is_user_enabled c.user_state

unfoldable pub is_toggle_disabled : TailnetCard → Bool
is_toggle_disabled c = is_terminal c.state_name || is_logging_out c.state_name

unfoldable pub toggle_action : TailnetCard → Str
unfolding is_toggle_on
toggle_action c = if is_toggle_on c then codes "stop" else codes "start"

unfoldable pub is_error_state : TailnetCard → Bool
is_error_state c = is_terminal c.state_name
