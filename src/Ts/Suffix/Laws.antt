-- ===== src/Ts/Suffix/Laws.antt =====
-- What the suffix of a name is.
use tailhopper.Base.{
  ℕ, Str, ◌≡◌, ◌≢◌, ◌⊎◌, refl, ap, subst, none, some, [], ◌∷◌, ◌++◌, All, arith, Option-cases, inl,
  inr,
}
use tailhopper.Ts.Suffix.{dot, trim_dot, cut, extract_magic_dns_suffix}

-- A label: no separator in it.
abbrev pub Lacks : ℕ → Str → Type 0
Lacks sep = All (λ c. c ≢ sep)

trim_dot-append_dot : (s : Str) → trim_dot (s ++ dot ∷ []) ≡ s
unfolding trim_dot
trim_dot-append_dot [] = refl
trim_dot-append_dot (c ∷ []) = refl
trim_dot-append_dot (c ∷ d ∷ s) = ap (◌∷◌ c) (trim_dot-append_dot (d ∷ s))

pub cut_join : (sep : ℕ) (a b : Str) → Lacks sep a → cut sep (a ++ sep ∷ b) ≡ some (a, b)
unfolding cut
cut_join sep [] b h = ground arith
cut_join sep (c ∷ a) b h = ground (arith, cut_join sep a b h.1)

pub cut_sound : (sep : ℕ) (s a b : Str) → cut sep s ≡ some (a, b) → (s ≡ a ++ sep ∷ b) × Lacks sep a
unfolding cut
cut_sound sep [] a b e = cc
cut_sound sep (c ∷ s) [] b e = ground arith
cut_sound sep (c ∷ s) (x ∷ a) b e = ground (arith, cut_sound sep s a b)

pub cut-none : (sep : ℕ) (s : Str) → cut sep s ≡ none → Lacks sep s
unfolding cut
cut-none sep [] e = tt
cut-none sep (c ∷ s) e = ground (arith, cut-none sep s)

-- For a name made of a first label without a dot, a dot, any suffix and a last dot, the extracted
-- suffix is that suffix.
pub extract_fqdn :
    (host suffix : Str)
    → Lacks dot host
    → extract_magic_dns_suffix (host ++ dot ∷ suffix ++ dot ∷ []) ≡ suffix
unfolding extract_magic_dns_suffix
extract_fqdn host suffix h =
    rw (trim_dot-append_dot (host ++ dot ∷ suffix)) (rw (cut_join dot host suffix h))

-- If the suffix extracted from a name is not empty, then the name without its last dot is a label
-- that holds no dot, a dot and that suffix.
pub extract_sound :
    (fqdn suffix : Str)
    → extract_magic_dns_suffix fqdn ≡ suffix
    → suffix ≢ []
    → (host : Str) × (trim_dot fqdn ≡ host ++ dot ∷ suffix) × Lacks dot host
unfolding extract_magic_dns_suffix
extract_sound fqdn suffix e ne = elim (Option-cases (cut dot (trim_dot fqdn))) [
  | inl missing ↦ absurd (ne (ground arith))
  | inr ((a, b), found) ↦
      let (joined, lacks) = cut_sound dot (trim_dot fqdn) a b found in
      let same : b ≡ suffix = ground arith in
      (a, subst (λ t. trim_dot fqdn ≡ a ++ dot ∷ t) same joined, lacks)
]

-- Either the name without its last dot holds no dot, and the extracted suffix is empty, or that
-- name is a label that holds no dot, a dot and the extracted suffix.
pub extract_lem :
    (fqdn : Str)
    → let suffix = extract_magic_dns_suffix fqdn in
      (Lacks dot (trim_dot fqdn) × (suffix ≡ []))
      ⊎ ((host : Str) × (trim_dot fqdn ≡ host ++ dot ∷ suffix) × Lacks dot host)
unfolding extract_magic_dns_suffix
extract_lem fqdn = elim (Option-cases (cut dot (trim_dot fqdn))) [
  | inl missing ↦ inl (cut-none dot (trim_dot fqdn) missing, ground arith)
  | inr ((a, b), found) ↦
      let (joined, lacks) = cut_sound dot (trim_dot fqdn) a b found in
      inr (a, rw (found, extract_magic_dns_suffix) joined, lacks)
]
