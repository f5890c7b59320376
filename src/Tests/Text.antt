-- ===== src/Tests/Text.antt =====
-- Log lines and the paths in them.
use tailhopper.Base.{
  true, pos, Str, codes, List, [], ◌∷◌, ◌++◌, join, ◌≡◌, refl, some, none, str_eq,
}
use tailhopper.Ts.SnapshotText.{snapshot_text}
use tailhopper.Ts.State.{state_text}
use tailhopper.Ts.Tailnet.{snapshot, new_tailnet}
use tailhopper.Ts.Ipn.{IpnState, ipn_running}
use tailhopper.Ts.Ipn.Text.{string}
use tailhopper.Base.Decimal.{print_int}
use tailhopper.Ts.LogLine.{parse_log_key_values, fields}
use tailhopper.Ts.LogLine.Laws.{Merged, parse_log_lem}
use tailhopper.Logging.{text, source, simplify_source}
use tailhopper.Logging.Laws.{IsRelative, simplify_source_lem}

abbrev log_line : Str
log_line = codes "magicsock: derp=4 peer=[a] =x done"

parsed : parse_log_key_values log_line ≡ (
  record { key = codes "derp"; value = codes "4" }
      ∷ record { key = codes "peer"; value = codes "[a]" }
      ∷ [],
  codes "magicsock: =x done",
)
unfolding parse_log_key_values
parsed = refl

parse_log_lem_example :
    (words : List Str) × ((parse_log_key_values log_line).1 ≡ join (codes " ") words)
    × Merged (parse_log_key_values log_line).0 words (fields log_line)
parse_log_lem_example = parse_log_lem log_line

-- A no-break space and an ideographic space, in UTF-8.
wide_spaces :
    fields (97 ∷ 194 ∷ 160 ∷ 98 ∷ 227 ∷ 128 ∷ 128 ∷ 32 ∷ 99 ∷ 194 ∷ [])
    ≡ (97 ∷ []) ∷ (98 ∷ []) ∷ (99 ∷ 194 ∷ []) ∷ []
unfolding fields
wide_spaces = refl

abbrev go_file : Str
go_file = codes "/home/a/tailhopper/internal/ts/tailnet.go"

simplified :
    (rel : Str) × (simplify_source
        (record { key = codes "source"; value = source go_file (pos 12) })
      ≡ record { key = codes "caller"; value = text (rel ++ b':' ∷ print_int (pos 12)) })
    × IsRelative go_file rel
simplified = simplify_source_lem go_file (pos 12)

abbrev state_of_run : IpnState
state_of_run = record {
  state = some ipn_running;
  err_message = none;
  browse_to_url = some (codes "u");
  self_node = none;
  magic_dns_suffix = [];
  peers = [];
  display_messages = [];
}

printed :
    string (λ v. codes "Running") (λ t. b'"' ∷ t ++ b'"' ∷ []) state_of_run
    ≡ codes "IPNState{state=Running url=\"u\"}"
unfolding string str_eq
printed = refl

snapshot_printed :
    snapshot_text
      (snapshot (new_tailnet (pos 7) (codes "d") (codes "h") (codes "s") [] true (pos 40000)))
    ≡ codes
        "TailnetSnapshot{ID: 7, State: StoppedState, UserState: enabled, MagicDNSSuffix: s, Hostname: h, LoginURL: , Peers: 0, TerminalError: }"
unfolding snapshot_text snapshot new_tailnet print_int state_text
snapshot_printed = refl
