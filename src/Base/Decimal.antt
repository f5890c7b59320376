-- ===== src/Base/Decimal.antt =====
-- `%d` of `fmt` and `strconv.Atoi`: numbers in decimal digits.
use Prim.Native.Nat.{ℕ, zero, suc, ◌+◌, ◌-◌, ◌*◌, ◌/◌, ◌%◌, ◌≤◌, ◌<◌}
use mathlib.Core.Path.{◌≡◌, ◌∙◌}
use mathlib.Core.Bool.{Bool, ◌&&◌}
use mathlib.Core.Option.{Option, none, some}
use mathlib.Core.List.{[], ◌∷◌, ◌++◌}
use native.Mathlib.Omega.{arith}
use mathlib.Core.Logic.{inl, inr}
use tailhopper.Base.Tests.{ltb, leb, if◌then◌else◌, Bool-cases}
use tailhopper.Base.Int.{ℤ, pos, negsuc, max_int, pos_part, neg_part}
use tailhopper.Base.Lists.{All, All-append}
use tailhopper.Base.Text.{Str}

-- One digit for each unit of fuel; a number is larger than its digits are many.
digits_within : ℕ → ℕ → Str
digits_within zero n = []
digits_within (suc fuel) n =
    let front = digits_within fuel (n / 10) in
    if ltb n 10 then (48 + n) ∷ [] else front ++ (48 + n % 10) ∷ []

unfoldable pub decimal : ℕ → Str
unfolding digits_within
decimal n = digits_within (suc n) n

-- `fmt.Sprintf("%d", a)`
unfoldable pub print_int : ℤ → Str
unfolding decimal
print_int (pos n) = decimal n
print_int (negsuc n) = b'-' ∷ decimal (suc n)

abbrev is_digit : ℕ → Bool
is_digit c = leb 48 c && leb c 57

parse_digits : ℕ → Str → Option ℕ
parse_digits acc [] = some acc
parse_digits acc (c ∷ s) = if is_digit c then parse_digits (acc * 10 + (c - 48)) s else none

parse_decimal : Str → Option ℕ
unfolding parse_digits
parse_decimal [] = none
parse_decimal (c ∷ s) = parse_digits 0 (c ∷ s)

abbrev in_range : Option ℕ → Option ℤ
in_range none = none
in_range (some n) = if leb n max_int then some (pos n) else none

abbrev negated : Option ℕ → Option ℤ
negated none = none
negated (some zero) = some (pos 0)
negated (some (suc n)) = if leb n max_int then some (negsuc n) else none

parse_signed : ℕ → Str → Option ℤ
unfolding parse_decimal
parse_signed c s =
    if leb c 43 && leb 43 c
    then in_range (parse_decimal s)
    else if leb c 45 && leb 45 c
    then negated (parse_decimal s)
    else in_range (parse_decimal (c ∷ s))

-- `strconv.Atoi`: an optional sign, digits, and a value that an `int` holds; `none` is its error.
unfoldable pub atoi : Str → Option ℤ
unfolding parse_signed
atoi [] = none
atoi (c ∷ s) = parse_signed c s

parse_digits-append :
    (acc n : ℕ) (s t : Str)
    → parse_digits acc s ≡ some n
    → parse_digits acc (s ++ t) ≡ parse_digits n t
unfolding parse_digits
parse_digits-append acc n [] t e = ground arith
parse_digits-append acc n (c ∷ s) t e =
    ground (arith, parse_digits-append (acc * 10 + (c - 48)) n s t)

last_digit : (n : ℕ) → parse_digits (n / 10) ((48 + n % 10) ∷ []) ≡ some n
unfolding parse_digits
last_digit n = ground arith

one_digit : (n : ℕ) → n < 10 → parse_digits 0 ((48 + n) ∷ []) ≡ some n
unfolding parse_digits
one_digit n h = ground arith

parse-digits_within : (fuel n : ℕ) → n < fuel → parse_digits 0 (digits_within fuel n) ≡ some n
unfolding digits_within
parse-digits_within zero n h = elim h [ ]
parse-digits_within (suc fuel) n h = elim (Bool-cases (ltb n 10)) [
  | inl small ↦ rw small (one_digit n (ground arith))
  | inr large ↦ rw large (
      parse_digits-append 0 (n / 10) (digits_within fuel (n / 10)) ((48 + n % 10) ∷ [])
        (parse-digits_within fuel (n / 10) (ground arith))
      ∙ last_digit n)
]

-- No text of digits is empty or begins with a sign.
abbrev BeginsWithDigit : Str → Type 0
BeginsWithDigit [] = ⊥
BeginsWithDigit (c ∷ s) = (48 ≤ c) × (c ≤ 57)

BeginsWithDigit-append : (s t : Str) → BeginsWithDigit s → BeginsWithDigit (s ++ t)
BeginsWithDigit-append [] t h = elim h [ ]
BeginsWithDigit-append (c ∷ s) t h = h

digits_within-BeginsWithDigit : (fuel n : ℕ) → n < fuel → BeginsWithDigit (digits_within fuel n)
unfolding digits_within
digits_within-BeginsWithDigit zero n h = elim h [ ]
digits_within-BeginsWithDigit (suc fuel) n h = elim (Bool-cases (ltb n 10)) [
  | inl small ↦ rw small (ground arith)
  | inr large ↦ rw large (
      BeginsWithDigit-append (digits_within fuel (n / 10)) _
        (digits_within-BeginsWithDigit fuel (n / 10) (ground arith)))
]

parse_signed_digits :
    (s : Str) (n : ℕ)
    → BeginsWithDigit s
    → parse_digits 0 s ≡ some n
    → n ≤ max_int
    → atoi s ≡ some (pos n)
unfolding atoi
parse_signed_digits [] n b e h = elim b [ ]
parse_signed_digits (c ∷ s) n b e h = ground arith

parse_decimal_digits :
    (s : Str) (n : ℕ) → BeginsWithDigit s → parse_digits 0 s ≡ some n → parse_decimal s ≡ some n
unfolding parse_decimal
parse_decimal_digits [] n b e = elim b [ ]
parse_decimal_digits (c ∷ s) n b e = e

-- `Atoi` reads back every `int` that is printed.
pub atoi-print_int :
    (a : ℤ) → pos_part a ≤ max_int → neg_part a ≤ suc max_int → atoi (print_int a) ≡ some a
unfolding print_int atoi
atoi-print_int (pos n) p q =
    let f = suc n in
    parse_signed_digits (digits_within f n) n (digits_within-BeginsWithDigit f n (omega arith))
      (parse-digits_within f n (omega arith)) p
atoi-print_int (negsuc n) p q =
    let f = suc (suc n) in
    rw
      (parse_decimal_digits (digits_within f (suc n)) (suc n)
        (digits_within-BeginsWithDigit f (suc n) (omega arith))
        (parse-digits_within f (suc n) (omega arith)))
      (ground arith)

digits_within-All : (fuel n : ℕ) → All (λ c. c ≤ 57) (digits_within fuel n)
unfolding digits_within
digits_within-All zero n = tt
digits_within-All (suc fuel) n = elim (Bool-cases (ltb n 10)) [
  | inl small ↦ rw small (ground arith, tt)
  | inr large ↦ rw large (
      All-append _ (digits_within fuel (n / 10)) _ (digits_within-All fuel (n / 10))
        (omega arith, tt))
]

-- What is printed are digits and the minus sign.
pub print_int-All : (a : ℤ) → All (λ c. c ≤ 57) (print_int a)
unfolding print_int
print_int-All (pos n) = digits_within-All (suc n) n
print_int-All (negsuc n) = (omega arith, digits_within-All (suc (suc n)) (suc n))

digits_within-All_above : (fuel n : ℕ) → All (λ c. 45 ≤ c) (digits_within fuel n)
unfolding digits_within
digits_within-All_above zero n = tt
digits_within-All_above (suc fuel) n = elim (Bool-cases (ltb n 10)) [
  | inl small ↦ rw small (omega arith, tt)
  | inr large ↦ rw large (
      All-append _ (digits_within fuel (n / 10)) _ (digits_within-All_above fuel (n / 10))
        (omega arith, tt))
]

-- Only digits and a sign.
pub print_int-All_above : (a : ℤ) → All (λ c. 45 ≤ c) (print_int a)
unfolding print_int
print_int-All_above (pos n) = digits_within-All_above (suc n) n
print_int-All_above (negsuc n) = (omega arith, digits_within-All_above (suc (suc n)) (suc n))
