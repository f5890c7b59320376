-- ===== src/Logging.antt =====
-- Package internal/logging: how a source location is printed; Handler has what is added to a log
-- record.
pub mod Laws
pub mod Handler
use tailhopper.Base.{
  ℕ, zero, suc, ℤ, Str, codes, ◌==◌, Bool, true, false, ◌&&◌, str_eq, ◌+◌, Option, none, some, List,
  [], ◌∷◌, ◌++◌, if◌then◌else◌,
}
use mathlib.Core.Option
use tailhopper.Ts.State.{Error}
use tailhopper.Base.Decimal.{print_int}

-- The value of an attribute. A duration is in nanoseconds.
pub data Value : Type 0 where
  text : Str → Value
  source : Str → ℤ → Value
  int duration : ℤ → Value
  error : Error → Value

pub record LogAttr : Type 0 where
  pub key : Str
  pub value : Value

is_prefix : Str → Str → Bool
is_prefix [] s = true
is_prefix (c ∷ p) [] = false
is_prefix (c ∷ p) (d ∷ s) = (c == d) && is_prefix p s

-- `strings.Index`; `none` is its -1.
unfoldable pub index : Str → Str → Option ℕ
unfolding is_prefix
index p [] = if is_prefix p [] then some 0 else none
index p (c ∷ s) =
    let rest = index p s in if is_prefix p (c ∷ s) then some 0 else Option.map suc rest

-- `s[n:]`
unfoldable pub drop : ℕ → Str → Str
drop zero s = s
drop (suc n) [] = []
drop (suc n) (c ∷ s) = drop n s

abbrev pub marker : Str
marker = codes "/tailhopper/"

unfoldable pub relative_at : Str → Option ℕ → Str
unfolding drop
relative_at file none = file
relative_at file (some i) = drop (i + 12) file

-- The path from the project's root on.
unfoldable pub relative : Str → Str
unfolding index relative_at
relative file = relative_at file (index marker file)

abbrev source_key : Str
source_key = codes "source"

simplify_value : LogAttr → Value → LogAttr
unfolding relative
simplify_value a (source file line) = record {
  key = codes "caller";
  value = text (relative file ++ b':' ∷ print_int line);
}
simplify_value a _ = a

-- `SimplifySource`
unfoldable pub simplify_source : LogAttr → LogAttr
unfolding simplify_value
simplify_source a = if str_eq a.key source_key then simplify_value a a.value else a
