-- ===== src/Ts/LogLine.antt =====
-- `tsnetLogf` and `parseLogKeyValues` of internal/ts/tailnet.go: the words `key=value` of a log line
-- become attributes. A line is its bytes in UTF-8; the formatting of the line is fmt's.
pub mod Laws
use tailhopper.Base.{
  ℕ, zero, suc, ◌-◌, Str, codes, is_empty, leb, ◌==◌, Bool, true, false, not, ◌&&◌, ◌||◌, join, cut,
  Option, none, some, List, [], ◌∷◌, ◌++◌, if◌then◌else◌,
}

pub record Attr : Type 0 where
  pub key : Str
  pub value : Str

-- White space of one byte, and of two and three bytes in UTF-8: U+0085, U+00A0, U+1680, U+2000 to
-- U+200A, U+2028, U+2029, U+202F, U+205F and U+3000 (`unicode.IsSpace`).
is_space : ℕ → Bool
is_space c = (c == 32) || (leb 9 c && leb c 13)

is_space_2 : ℕ → ℕ → Bool
is_space_2 c d = (c == 194) && ((d == 133) || (d == 160))

is_space_3 : ℕ → ℕ → ℕ → Bool
is_space_3 c d e =
    ((c == 225) && (d == 154) && (e == 128))
    || ((c == 226)
        && (d == 128)
        && ((leb 128 e && leb e 138) || (e == 168) || (e == 169) || (e == 175)))
    || ((c == 226) && (d == 129) && (e == 159))
    || ((c == 227) && (d == 128) && (e == 128))

-- How many bytes of white space a text begins with, in its first character.
unfoldable pub space_length : Str → ℕ
unfolding is_space is_space_2 is_space_3
space_length [] = 0
space_length (c ∷ []) = if is_space c then 1 else 0
space_length (c ∷ d ∷ []) = if is_space c then 1 else if is_space_2 c d then 2 else 0
space_length (c ∷ d ∷ e ∷ s) =
    if is_space c then 1 else if is_space_2 c d then 2 else if is_space_3 c d e then 3 else 0

-- What a byte adds to the words that follow it; `open` is whether a word goes on.
push : ℕ → Bool → List Str → List Str
push c true (word ∷ words) = (c ∷ word) ∷ words
push c _ words = (c ∷ []) ∷ words

starts_word : Str → Bool
unfolding space_length
starts_word [] = false
starts_word (c ∷ s) = space_length (c ∷ s) == 0

-- The words of a text but for its first bytes, which belong to a character of white space.
fields_after : ℕ → Str → List Str
unfolding push starts_word space_length
fields_after k [] = []
fields_after (suc k) (c ∷ s) = fields_after k s
fields_after zero (c ∷ s) =
    let words = fields_after 0 s in
    let rest = fields_after (space_length (c ∷ s) - 1) s in
    if space_length (c ∷ s) == 0 then push c (starts_word s) words else rest

-- `strings.Fields`
unfoldable pub fields : Str → List Str
unfolding fields_after
fields s = fields_after 0 s

-- The characters that a key may hold.
unfoldable pub is_key_char : ℕ → Bool
is_key_char c =
    (leb b'a' c && leb c b'z')
    || (leb b'A' c && leb c b'Z')
    || (leb b'0' c && leb c b'9')
    || (c == b'_')
    || (c == b'-')
    || (c == b'.')

unfoldable pub all_key_chars : Str → Bool
unfolding is_key_char
all_key_chars [] = true
all_key_chars (c ∷ s) = is_key_char c && all_key_chars s

-- What one token is: an attribute, or a word of the clean message.
attr_in : Option (Str × Str) → Option Attr
unfolding all_key_chars
attr_in none = none
attr_in (some (key, value)) =
    if is_empty key
    then none
    else if all_key_chars key
    then some (record { key = key; value = value })
    else none

unfoldable pub attr_of : Str → Option Attr
unfolding attr_in cut
attr_of token = attr_in (cut b'=' token)

-- The loop over the tokens.
unfoldable pub sort_tokens : List Str → List Attr → List Str → List Attr × List Str
unfolding attr_of
sort_tokens [] attrs clean = (attrs, clean)
sort_tokens (token ∷ tokens) attrs clean = elim (attr_of token) [
  | none ↦ sort_tokens tokens attrs (clean ++ token ∷ [])
  | some a ↦ sort_tokens tokens (attrs ++ a ∷ []) clean
]

unfoldable pub parse_log_key_values : Str → List Attr × Str
unfolding sort_tokens fields join
parse_log_key_values msg =
    let (attrs, clean) = sort_tokens (fields msg) [] [] in (attrs, join (codes " ") clean)

-- `strings.TrimRight(msg, "\n")`
unfoldable pub trim_newlines : Str → Str
trim_newlines [] = []
trim_newlines (c ∷ s) =
    let rest = trim_newlines s in if (c == 10) && is_empty rest then [] else c ∷ rest

-- `tsnetLogf`: the message and the attributes that are logged for a formatted line.
unfoldable pub tsnet_logf : Str → Str × List Attr
unfolding parse_log_key_values trim_newlines
tsnet_logf line =
    let msg = trim_newlines line in
    let (attrs, clean) = parse_log_key_values msg in
    (
      if not (is_empty clean) then clean else msg,
      record { key = codes "subcomponent"; value = codes "tsnet" } ∷ attrs,
    )
