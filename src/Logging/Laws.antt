-- ===== src/Logging/Laws.antt =====
-- What a simplified path is.

use tailhopper.Base.{
  ℕ, suc, ◌+◌, ◌≤◌, ℤ, codes, Str, str_eq, ==_iff, length, ◌≡◌, ◌≢◌, ◌⊎◌, inl, inr, refl, sym,
  subst, ap, ◌∙◌, true, Bool-cases, Option-cases, none, some, [], ◌∷◌, ◌++◌, arith,
}
use tailhopper.Logging.{
  text, source, is_prefix, index, drop, marker, relative_at, relative, simplify_source,
}
use tailhopper.Base.Decimal.{print_int}

is_prefix-some : (p s : Str) → is_prefix p s ≡ true → s ≡ p ++ drop (length p) s
unfolding is_prefix drop
is_prefix-some [] s e = refl
is_prefix-some (c ∷ p) [] e = cc
is_prefix-some (c ∷ p) (d ∷ s) e = ground (arith, e, ==_iff c d, is_prefix-some p s)

is_prefix-append : (p s : Str) → is_prefix p (p ++ s) ≡ true
unfolding is_prefix
is_prefix-append [] s = refl
is_prefix-append (c ∷ p) s = ground (arith, ==_iff c c, is_prefix-append p s)

index-some :
    (p s : Str) (i : ℕ)
    → index p s ≡ some i
    → (pre : Str) × (s ≡ pre ++ (p ++ drop (i + length p) s)) × (length pre ≡ i)
unfolding index drop
index-some p [] i e = elim (Bool-cases (is_prefix p [])) [
  | inl f ↦
      let zero_at : i ≡ 0 = ground (arith, e, f) in
      ([], is_prefix-some p [] f ∙ ap (λ n. p ++ drop n []) (omega (arith, zero_at)), sym zero_at)
  | inr f ↦ absurd (ground (arith, e, f))
]
index-some p (c ∷ s) i e = elim (Bool-cases (is_prefix p (c ∷ s))) [
  | inl f ↦
      let zero_at : i ≡ 0 = ground (arith, e, f) in
      (
        [],
        is_prefix-some p (c ∷ s) f ∙ ap (λ n. p ++ drop n (c ∷ s)) (omega (arith, zero_at)),
        sym zero_at,
      )
  | inr f ↦ elim (Option-cases (index p s)) [
    | inl g ↦ absurd (ground (arith, e, f, g))
    | inr (j, g) ↦
        let (pre, h, l) = index-some p s j g in
        let next : suc j ≡ i = ground (arith, e, f, g) in
        let further : suc (j + length p) ≡ i + length p = omega (arith, next) in
        (
          c ∷ pre,
          ap (λ (t : Str). c ∷ t) h ∙ ap (λ n. c ∷ (pre ++ (p ++ drop n (c ∷ s)))) further,
          ap suc l ∙ next,
        )
  ]
]

index-prefix : (p s : Str) → is_prefix p s ≡ true → index p s ≡ some 0
unfolding index
index-prefix p [] e = ground (arith, e)
index-prefix p (c ∷ s) e = ground (arith, e)

index-first :
    (p pre rest : Str) → (i : ℕ) × (index p (pre ++ (p ++ rest)) ≡ some i) × (i ≤ length pre)
unfolding index
index-first p [] rest = (0, index-prefix p (p ++ rest) (is_prefix-append p rest), omega arith)
index-first p (c ∷ pre) rest = elim (Bool-cases (is_prefix p (c ∷ pre ++ (p ++ rest)))) [
  | inl f ↦ (0, ground (arith, f), omega arith)
  | inr f ↦ let (i, e, l) = index-first p pre rest in (suc i, ground (arith, f, e), omega arith)
]

-- `rel` is what follows the first `/tailhopper/` of `file`, and all of `file` where there is none.
abbrev pub IsRelative : Str → Str → Type 0
IsRelative file rel =
    ((rel ≡ file) × ((pre rest : Str) → file ≢ pre ++ (marker ++ rest)))
    ⊎ ((pre : Str) × (file ≡ pre ++ (marker ++ rel))
        × ((before rest : Str) → file ≡ before ++ (marker ++ rest) → length pre ≤ length before))

relative-IsRelative : (file : Str) → IsRelative file (relative file)
unfolding relative
relative-IsRelative file = elim (Option-cases (index marker file)) [
  | inl e ↦ inl (
    ap (λ o. relative_at file o) e,
    λ pre rest h.
        let (i, g, l) = index-first marker pre rest in
        let f : index marker (pre ++ (marker ++ rest)) ≡ none =
          subst (λ t. index marker t ≡ none) h e in
        cc (f, g),
  )
  | inr (i, e) ↦
      let (pre, h, l) = index-some marker file i e in
      inr (
        pre,
        h ∙ ap (λ o. pre ++ (marker ++ relative_at file o)) (sym e),
        λ before rest k.
            let (j, g, m) = index-first marker before rest in
            let f : index marker (before ++ (marker ++ rest)) ≡ some i =
              subst (λ t. index marker t ≡ some i) k e in
            let same : i ≡ j = cc (f, g) in omega (arith, l, m, same),
      )
]

-- An attribute under the source key that holds a location becomes the attribute `caller`, whose
-- text is a path, a colon and the line; the path is what follows the first `/tailhopper/` of the
-- file, and the whole file if there is none.
pub simplify_source_lem :
    (file : Str) (line : ℤ)
    → (rel : Str) × (simplify_source (record { key = codes "source"; value = source file line })
        ≡ record { key = codes "caller"; value = text (rel ++ b':' ∷ print_int line) })
      × IsRelative file rel
unfolding simplify_source str_eq
simplify_source_lem file line = (relative file, refl, relative-IsRelative file)
