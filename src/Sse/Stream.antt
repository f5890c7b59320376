-- ===== src/Sse/Stream.antt =====
-- How a browser reads the body of an event stream, after the standard for `EventSource`: lines, each
-- a field, and a blank line that ends an event. Carriage returns and comments do not occur.
pub mod Laws
use tailhopper.Base.Lines.{lines_from}
use tailhopper.Base.{
  ℕ, Str, codes, cut, str_eq, is_empty, ◌==◌, Option, none, some, List, [], ◌∷◌, ◌++◌,
  if◌then◌else◌,
}

-- One space after the colon does not count.
unfoldable pub field_value : Str → Str
field_value [] = []
field_value (c ∷ s) = if c == 32 then s else c ∷ s

-- The name and the data of the event so far.
pub record Reading : Type 0 where
  pub name : Str
  pub data_buffer : Str

abbrev pub nothing_read : Reading
nothing_read = record { name = []; data_buffer = [] }

unfoldable pub take_field : Str → Str → Reading → Reading
take_field field value r =
    if str_eq field (codes "event")
    then record r { name = value }
    else if str_eq field (codes "data")
    then record r { data_buffer = r.data_buffer ++ value ++ 10 ∷ [] }
    else r

take_line : Str → Option (Str × Str) → Reading → Reading
unfolding take_field field_value
take_line line none r = take_field line [] r
take_line line (some (field, value)) r = take_field field (field_value value) r

without_last : Str → Str
without_last [] = []
without_last (c ∷ []) = []
without_last (c ∷ d ∷ s) = c ∷ without_last (d ∷ s)

-- An event without data is none, and one without a name is a message.
dispatched : Reading → List (Str × Str)
unfolding without_last
dispatched r =
    if is_empty r.data_buffer
    then []
    else (if is_empty r.name then codes "message" else r.name, without_last r.data_buffer) ∷ []

unfoldable pub read_lines : Reading → List Str → List (Str × Str)
unfolding take_line dispatched cut
read_lines r [] = []
read_lines r (line ∷ rest) =
    let after = read_lines nothing_read rest in
    let on = read_lines (take_line line (cut 58 line) r) rest in
    if is_empty line then dispatched r ++ after else on

-- The events that are dispatched, by their name and data.
unfoldable pub read_stream : Str → List (Str × Str)
unfolding lines_from read_lines
read_stream body = read_lines nothing_read (lines_from [] body)
