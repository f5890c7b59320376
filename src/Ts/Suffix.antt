-- ===== src/Ts/Suffix.antt =====
-- `extractMagicDNSSuffix` of internal/ts/watcher.go, and the string functions that it calls.
pub mod Laws
use tailhopper.Base.{ℕ, Str, Bool, Option, none, some, List, [], ◌∷◌, ◌==◌, if◌then◌else◌}

abbrev pub dot : ℕ
dot = b'.'

-- `strings.TrimSuffix(s, ".")`
pub trim_dot : Str → Str
trim_dot [] = []
trim_dot (c ∷ []) = if c == dot then [] else c ∷ []
trim_dot (c ∷ d ∷ s) = c ∷ trim_dot (d ∷ s)

abbrev push_front : ℕ → Option (Str × Str) → Option (Str × Str)
push_front c none = none
push_front c (some (a, b)) = some (c ∷ a, b)

-- `strings.Cut(s, sep)` for one byte `sep`: what stands before and after its first occurrence.
unfoldable pub cut : ℕ → Str → Option (Str × Str)
cut sep [] = none
cut sep (c ∷ s) = if c == sep then some ([], s) else push_front c (cut sep s)

abbrev parts_of : Str → Option (Str × Str) → List Str
parts_of s none = s ∷ []
parts_of s (some (a, b)) = a ∷ b ∷ []

-- `strings.SplitN(s, sep, 2)`
pub split_two : ℕ → Str → List Str
split_two sep s = parts_of s (cut sep s)

-- `if len(parts) == 2 { return parts[1] }; return ""`
abbrev second_of_two : List Str → Str
second_of_two (_ ∷ b ∷ []) = b
second_of_two _ = []

unfoldable pub extract_magic_dns_suffix : Str → Str
unfolding split_two trim_dot cut
extract_magic_dns_suffix fqdn = second_of_two (split_two dot (trim_dot fqdn))
