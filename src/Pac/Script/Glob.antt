-- ===== src/Pac/Script/Glob.antt =====
-- Which hosts the pattern of a rule matches.
use tailhopper.Base.{
  ℕ, Str, codes, str_eq, str_eq_iff, str_eq_refl, ◌==◌, ==_iff, ◌≡◌, ◌≢◌, refl, sym, ap, ◌∙◌, Bool,
  true, false, Bool-cases, inl, inr, [], ◌∷◌, ◌++◌, All, arith,
}
use tailhopper.Pac.Script.{some_end, sh_exp_match}

-- A byte that stands for itself, in a string of a script and in a pattern, and ends no line.
abbrev pub IsPlain : ℕ → Type 0
IsPlain c = (c ≢ 34) × (c ≢ 10) × (c ≢ 13) × (c ≢ 42) × (c ≢ 63) × (c ≢ 92)

-- The host is a name under the suffix.
abbrev pub IsUnder : Str → Str → Type 0
IsUnder suffix host = (name : Str) × (host ≡ name ++ 46 ∷ suffix)

literal : (p host : Str) → All IsPlain p → sh_exp_match p host ≡ str_eq p host
unfolding sh_exp_match str_eq
literal [] [] h = refl
literal [] (d ∷ host) h = refl
literal (c ∷ p) [] h = let k : (c == 42) ≡ false = ground (arith, h.0, ==_iff c 42) in rw k refl
literal (c ∷ p) (d ∷ host) h =
    let k : (c == 42) ≡ false = ground (arith, h.0, ==_iff c 42) in
    let q : (c == 63) ≡ false = ground (arith, h.0, ==_iff c 63) in
    rw k (rw q (rw (literal p host h.1) refl))

some_end-found :
    (f : Str → Bool) (s : Str)
    → some_end f s ≡ true
    → (a : Str) × (b : Str) × (s ≡ a ++ b) × (f b ≡ true)
unfolding some_end
some_end-found f [] h = ([], [], refl, h)
some_end-found f (c ∷ s) h = elim (Bool-cases (f (c ∷ s))) [
  | inl e ↦ ([], c ∷ s, refl, e)
  | inr e ↦
      let later : some_end f s ≡ true = ground arith in
      let (a, b, k, l) = some_end-found f s later in (c ∷ a, b, ap (λ r. c ∷ r) k, l)
]

some_end-at : (f : Str → Bool) (a b : Str) → f b ≡ true → some_end f (a ++ b) ≡ true
unfolding some_end
some_end-at f [] [] h = h
some_end-at f [] (c ∷ b) h = rw h refl
some_end-at f (c ∷ a) b h = rw (some_end-at f a b h) (ground arith)

star : (p host : Str) → sh_exp_match (42 ∷ p) host ≡ some_end (sh_exp_match p) host
unfolding sh_exp_match some_end
star p [] = refl
star p (c ∷ host) = refl

dot-IsPlain : IsPlain 46
dot-IsPlain = ((λ q. cc), (λ q. cc), (λ q. cc), (λ q. cc), (λ q. cc), (λ q. cc))

-- Whether the pattern matches: the host is under the suffix, or it is not.
pub sh_exp_match-IsUnder :
    (suffix host : Str)
    → All IsPlain suffix
    → sh_exp_match (codes "*." ++ suffix) host ≡ true
    → IsUnder suffix host
sh_exp_match-IsUnder suffix host h k =
    let (a, b, e, m) =
      some_end-found (sh_exp_match (46 ∷ suffix)) host (sym (star (46 ∷ suffix) host) ∙ k) in
    let same =
      (str_eq_iff (46 ∷ suffix) b).0 (sym (literal (46 ∷ suffix) b (dot-IsPlain, h)) ∙ m) in
    (a, e ∙ ap (λ r. a ++ r) (sym same))

pub sh_exp_match-not-IsUnder :
    (suffix host : Str)
    → All IsPlain suffix
    → sh_exp_match (codes "*." ++ suffix) host ≡ false
    → ¬ IsUnder suffix host
sh_exp_match-not-IsUnder suffix host h k (name, e) =
    let literally =
      literal (46 ∷ suffix) (46 ∷ suffix) (dot-IsPlain, h) ∙ str_eq_refl (46 ∷ suffix) in
    let found = some_end-at (sh_exp_match (46 ∷ suffix)) name (46 ∷ suffix) literally in
    let matched : sh_exp_match (codes "*." ++ suffix) host ≡ true =
      star (46 ∷ suffix) host ∙ (ap (some_end (sh_exp_match (46 ∷ suffix))) e ∙ found) in
    cc
