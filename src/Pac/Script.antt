-- ===== src/Pac/Script.antt =====
-- How a browser finds a proxy by a PAC script: a reader of scripts that are a list of tests of the
-- host by `shExpMatch`, each with its answer, and a last answer. Any other script gives nothing.
pub mod Glob
pub mod Rules
pub mod Laws
use tailhopper.Base.{
  ℕ, Str, codes, cut, str_eq, is_empty, ◌==◌, Bool, true, false, ◌&&◌, ◌||◌, Option, none, some,
  List, [], ◌∷◌, map, if◌then◌else◌,
}
use tailhopper.Base.Lines.{lines_from}

pub data Statement : Type 0 where
  function_begins ends : Statement
  if_matches returns : Str → Statement

unfoldable pub trim_left : Str → Str
trim_left [] = []
trim_left (c ∷ s) = let rest = trim_left s in if c == 32 then rest else c ∷ s

second_quote : Str → Option (Str × Str) → Option (Str × Str × Str)
second_quote before none = none
second_quote before (some (inner, after)) = some (before, inner, after)

first_quote : Option (Str × Str) → Option (Str × Str × Str)
unfolding second_quote
first_quote none = none
first_quote (some (before, rest)) = second_quote before (cut 34 rest)

-- What stands before, in and after a text in double quotes.
unfoldable pub quoted : Str → Option (Str × Str × Str)
unfolding first_quote cut
quoted s = first_quote (cut 34 s)

quoted_statement : Option (Str × Str × Str) → Option Statement
quoted_statement none = none
quoted_statement (some (before, inner, after)) =
    if str_eq before (codes "if (shExpMatch(host, ") && str_eq after (codes ")) {")
    then some (if_matches inner)
    else if str_eq before (codes "return ") && str_eq after (codes ";")
    then some (returns inner)
    else none

trimmed_statement : Str → Option Statement
unfolding quoted_statement quoted str_eq
trimmed_statement s =
    if str_eq s (codes "}")
    then some ends
    else if str_eq s (codes "function FindProxyForURL(url, host) {")
    then some function_begins
    else quoted_statement (quoted s)

unfoldable pub statement_of : Str → Option Statement
unfolding trimmed_statement trim_left
statement_of line = trimmed_statement (trim_left line)

-- The patterns with their answers, and the last answer.
pub record Script : Type 0 where
  pub rules : List (Str × Str)
  pub otherwise : Str

abbrev with_rule : Str → Str → Option Script → Option Script
with_rule pattern answer none = none
with_rule pattern answer (some s) = some (record s { rules = (pattern, answer) ∷ s.rules })

unfoldable pub read_rules : List (Option Statement) → Option Script
read_rules (some (returns answer) ∷ some ends ∷ []) =
    some (record { rules = []; otherwise = answer })
read_rules (some (if_matches pattern) ∷ some (returns answer) ∷ some ends ∷ rest) =
    with_rule pattern answer (read_rules rest)
read_rules _ = none

read_statements : List (Option Statement) → Option Script
unfolding read_rules
read_statements (some function_begins ∷ rest) = read_rules rest
read_statements _ = none

unfoldable pub read_script : Str → Option Script
unfolding read_statements statement_of lines_from
read_script text = read_statements (map statement_of (lines_from [] text))

-- Whether one of the ends of a text, the text and the empty one included, passes a test.
unfoldable pub some_end : (Str → Bool) → Str → Bool
some_end f [] = f []
some_end f (c ∷ s) = f (c ∷ s) || some_end f s

-- `shExpMatch`: a star stands for any text, a question mark for any character.
unfoldable pub sh_exp_match : Str → Str → Bool
unfolding some_end
sh_exp_match [] host = is_empty host
sh_exp_match (p ∷ pattern) [] =
    let more = sh_exp_match pattern [] in if p == 42 then more else false
sh_exp_match (p ∷ pattern) (c ∷ host) =
    let after = sh_exp_match pattern in
    if p == 42
    then some_end after (c ∷ host)
    else if p == 63
    then after host
    else (p == c) && after host

unfoldable pub first_answer : Str → List (Str × Str) → Str → Str
unfolding sh_exp_match
first_answer host [] otherwise = otherwise
first_answer host ((pattern, answer) ∷ rules) otherwise =
    let later = first_answer host rules otherwise in
    if sh_exp_match pattern host then answer else later

answer_of : Str → Option Script → Option Str
unfolding first_answer
answer_of host none = none
answer_of host (some s) = some (first_answer host s.rules s.otherwise)

-- What `FindProxyForURL` answers for a host; nothing if the script is no such script.
unfoldable pub find_proxy : Str → Str → Option Str
unfolding answer_of read_script
find_proxy text host = answer_of host (read_script text)
