-- ===== src/Ts/SnapshotText.antt =====
-- `TailnetSnapshot.String` of internal/ts/tailnet.go.
use tailhopper.Base.{pos, Str, codes, length, ◌++◌}
use tailhopper.Base.Decimal.{print_int}
use tailhopper.Ts.State.{UserState, user_enabled, user_disabled, state_text}
use tailhopper.Ts.Tailnet.{TailnetSnapshot}

user_state_text : UserState → Str
user_state_text user_enabled = codes "enabled"
user_state_text user_disabled = codes "disabled"

unfoldable pub snapshot_text : TailnetSnapshot → Str
unfolding user_state_text
snapshot_text s =
    codes "TailnetSnapshot{ID: "
    ++ print_int s.id
    ++ codes ", State: "
    ++ state_text s.state
    ++ codes ", UserState: "
    ++ user_state_text s.user_state
    ++ codes ", MagicDNSSuffix: "
    ++ s.magic_dns_suffix
    ++ codes ", Hostname: "
    ++ s.hostname
    ++ codes ", LoginURL: "
    ++ s.login_url
    ++ codes ", Peers: "
    ++ print_int (pos (length s.peers))
    ++ codes ", TerminalError: "
    ++ s.terminal_error
    ++ codes "}"
