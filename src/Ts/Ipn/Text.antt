-- ===== src/Ts/Ipn/Text.antt =====
-- `IPNState.String` of internal/ts/watcher.go. How a value of `ipn.State` prints (`%v`), and a
-- quoted text (`%q`), are parameters.
pub mod Laws
use tailhopper.Base.{
  ℕ, zero, suc, pos, Str, codes, str_eq, length, Option, none, some, List, [], ◌∷◌, ◌++◌,
  if◌then◌else◌,
}
use mathlib.Core.Option
use tailhopper.Base.Decimal.{print_int}
use tailhopper.Ts.Ipn.{IpnState, IpnValue, Node}

-- `Fprintf` of a field and a space, under its guard.
append_field : Option Str → Str → Str
append_field none sb = sb
append_field (some f) sb = sb ++ (f ++ codes " ")

-- `str[0:len(str)-1]`
drop_last : Str → Str
drop_last [] = []
drop_last (c ∷ []) = []
drop_last (c ∷ s) = c ∷ drop_last s

-- A count that is not zero.
abbrev count_field : ℕ → Option Str
count_field zero = none
count_field (suc n) = some (print_int (pos (suc n)))

abbrev pub start_text : Str
start_text = codes "IPNState{"

abbrev closed : Str → Str
closed s = if str_eq s start_text then codes "IPNState{}" else drop_last s ++ codes "}"

module _ (show : IpnValue → Str) (quote : Str → Str) where
  abbrev pub state_field : IpnState → Option Str
  state_field s = Option.map (λ v. codes "state=" ++ show v) s.state

  abbrev pub error_field : IpnState → Option Str
  error_field s = Option.map (λ v. codes "err=" ++ quote v) s.err_message

  abbrev pub url_field : IpnState → Option Str
  url_field s = Option.map (λ v. codes "url=" ++ quote v) s.browse_to_url

  abbrev pub node_field : IpnState → Option Str
  node_field s = Option.map (λ (n : Node). codes "selfNode=" ++ n.computed_name) s.self_node

  abbrev pub peers_field : IpnState → Option Str
  peers_field s = Option.map (λ t. codes "peers=" ++ t) (count_field (length s.peers))

  abbrev pub messages_field : IpnState → Option Str
  messages_field s =
      Option.map (λ t. codes "displayMessages=" ++ t) (count_field (length s.display_messages))

  -- What the builder holds in the end.
  written : IpnState → Str
  unfolding append_field
  written s = append_field (messages_field s) (
      append_field (peers_field s) (
        append_field (node_field s) (
          append_field (url_field s)
            (append_field (error_field s) (append_field (state_field s) start_text)))))

  -- `String`
  unfoldable pub string : IpnState → Str
  unfolding written drop_last
  string s = closed (written s)
