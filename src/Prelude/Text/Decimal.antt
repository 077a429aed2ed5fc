-- ===== src/Prelude/Text/Decimal.antt =====
-- `strconv.Itoa`, `FormatInt` and `ParseInt` in base ten.
use Prim.Native.Nat.{ℕ, zero, suc, ◌+◌, ◌-◌, ◌/◌, ◌%◌, ◌*◌, ◌<◌}
use mathlib.Core.Path.{◌≡◌, refl, ap, ◌∙◌, subst, sym}
use mathlib.Core.Logic.{inl, inr}
use mathlib.Core.Bool.{Bool, true, false, ◌&&◌}
use mathlib.Core.List.{[], ◌∷◌, ◌++◌}
use mathlib.Core.Option.{Option, none, some}
use native.Mathlib.Omega.{arith}
use earful.Prelude.Tests.{ltb, leb, eqb, if◌then◌else◌, Bool-cases}
use earful.Prelude.Lists.{All, All-append}
use earful.Prelude.Int.{ℤ, pos, negsuc}
use earful.Prelude.Text.Spaces.{Text}

-- The decimal digits of a number; a number below the fuel has no more digits than the fuel.
unfoldable pub decimal : ℕ → ℕ → Text
decimal zero n = []
decimal (suc fuel) n = elim (ltb n 10) [
  | true ↦ (48 + n) ∷ []
  | false ↦ decimal fuel (n / 10) ++ (48 + n % 10) ∷ []
]

-- strconv.Itoa
unfoldable pub itoa : ℤ → Text
unfolding decimal
itoa (pos n) = decimal (suc n) n
itoa (negsuc n) = b'-' ∷ decimal (suc (suc n)) (suc n)

abbrev pub is_digit : ℕ → Bool
is_digit c = leb 48 c && leb c 57

abbrev pub IsDigit : ℕ → Type 0
IsDigit c = is_digit c ≡ true

pub decimal-IsDigit : (fuel n : ℕ) → All IsDigit (decimal fuel n)
unfolding decimal
decimal-IsDigit zero n = tt
decimal-IsDigit (suc fuel) n = ground (
  arith,
  decimal-IsDigit fuel (n / 10),
  All-append IsDigit (decimal fuel (n / 10)) ((48 + n % 10) ∷ []),
)

-- The number that a text of digits writes, behind the digits read so far, and the integer.
unfoldable pub digits_value : ℕ → Text → ℕ
digits_value n [] = n
digits_value n (c ∷ s) = digits_value (n * 10 + (c - 48)) s

unfoldable pub decimal_value : Text → ℤ
unfolding digits_value
decimal_value [] = pos 0
decimal_value (c ∷ s) =
    if eqb c b'-' then negsuc (digits_value 0 s - 1) else pos (digits_value 0 (c ∷ s))

digits_value-append :
    (n : ℕ) (s : Text) (c : ℕ) → digits_value n (s ++ c ∷ []) ≡ digits_value n s * 10 + (c - 48)
unfolding digits_value
digits_value-append n [] c = refl
digits_value-append n (d ∷ s) c = digits_value-append (n * 10 + (d - 48)) s c

-- More fuel than the number gives every digit.
pub digits_value-decimal : (fuel n : ℕ) → n < fuel → digits_value 0 (decimal fuel n) ≡ n
unfolding decimal digits_value
digits_value-decimal zero n h = absurd (omega arith)
digits_value-decimal (suc fuel) n h = elim (Bool-cases (ltb n 10)) [
  | inl one ↦ rw (decimal, one) (omega arith)
  | inr more ↦
      (let front = digits_value-decimal fuel (n / 10) (ground arith) in
        let whole = digits_value-append 0 (decimal fuel (n / 10)) (48 + n % 10) in
        rw (decimal, more, whole, front) (omega arith))
]

decimal_value_of_digits : (s : Text) → All IsDigit s → decimal_value s ≡ pos (digits_value 0 s)
unfolding decimal_value
decimal_value_of_digits [] h = refl
decimal_value_of_digits (c ∷ s) h = ground arith

decimal_value_of_minus : (s : Text) → decimal_value (b'-' ∷ s) ≡ negsuc (digits_value 0 s - 1)
unfolding decimal_value
decimal_value_of_minus s = refl

pub decimal_value-itoa : (n : ℤ) → decimal_value (itoa n) ≡ n
unfolding itoa
decimal_value-itoa (pos n) =
    decimal_value_of_digits _ (decimal-IsDigit (suc n) n)
    ∙ ap pos (digits_value-decimal (suc n) n (omega arith))
decimal_value-itoa (negsuc n) =
    let digits = digits_value-decimal (suc (suc n)) (suc n) (omega arith) in
    let back : suc n - 1 ≡ n = omega arith in
    decimal_value_of_minus _ ∙ ap (λ k. negsuc (k - 1)) digits ∙ ap negsuc back

all_digits : Text → Bool
all_digits [] = true
all_digits (c ∷ s) = is_digit c && all_digits s

-- A text of digits only, at least one, as a number below a bound.
digits_below : ℕ → Text → Option ℕ
unfolding all_digits digits_value
digits_below bound [] = none
digits_below bound (c ∷ s) =
    if all_digits (c ∷ s) && ltb (digits_value 0 (c ∷ s)) bound
    then some (digits_value 0 (c ∷ s))
    else none

positive : Option ℕ → Option ℤ
positive none = none
positive (some n) = some (pos n)

negative : Option ℕ → Option ℤ
negative none = none
negative (some zero) = some (pos 0)
negative (some (suc n)) = some (negsuc n)

-- strconv.ParseInt(s, 10, 64): none is an error of syntax or of range.
unfoldable pub parse_int64 : Text → Option ℤ
unfolding digits_below positive negative
parse_int64 [] = none
parse_int64 (c ∷ s) =
    if eqb c b'-'
    then negative (digits_below 9223372036854775809 s)
    else if eqb c b'+'
    then positive (digits_below 9223372036854775808 s)
    else positive (digits_below 9223372036854775808 (c ∷ s))

all_digits_of_IsDigit : (s : Text) → All IsDigit s → all_digits s ≡ true
unfolding all_digits
all_digits_of_IsDigit [] h = refl
all_digits_of_IsDigit (c ∷ s) h = ground (arith, h.0, all_digits_of_IsDigit s h.1)

-- A text of digits is not empty if its value is not that of the empty text.
digits_below-decimal :
    (bound n : ℕ) (s : Text)
    → All IsDigit s
    → digits_value 0 s ≡ n
    → n < bound
    → (c : ℕ) (t : Text) → s ≡ c ∷ t
    → digits_below bound s ≡ some n
unfolding digits_below
digits_below-decimal bound n s h v lt c t e =
    let whole : all_digits (c ∷ t) ≡ true =
      subst (λ x. all_digits x ≡ true) e (all_digits_of_IsDigit s h) in
    let value : digits_value 0 (c ∷ t) ≡ n = subst (λ x. digits_value 0 x ≡ n) e v in
    rw (e, digits_below, whole, value) (ground arith)

decimal_cons : (fuel n : ℕ) → n < fuel → (c : ℕ) × (t : Text) × (decimal fuel n ≡ c ∷ t)
unfolding decimal
decimal_cons zero n h = absurd (omega arith)
decimal_cons (suc fuel) n h = elim (Bool-cases (ltb n 10)) [
  | inl one ↦ (48 + n, [], rw (decimal, one) refl)
  | inr more ↦
      (let front = decimal_cons fuel (n / 10) (ground arith) in
        (front.0, front.1 ++ (48 + n % 10) ∷ [], rw (decimal, more, front.2) refl))
]

parse_int64_of_digits :
    (c : ℕ) (t : Text) (n : ℕ)
    → IsDigit c
    → digits_below 9223372036854775808 (c ∷ t) ≡ some n
    → parse_int64 (c ∷ t) ≡ some (pos n)
unfolding parse_int64
parse_int64_of_digits c t n h read =
    let minus : eqb c b'-' ≡ false = ground arith in
    let plus : eqb c b'+' ≡ false = ground arith in rw (minus, plus, read) refl

-- A number that int64 holds is read back from its digits.
pub parse_int64-itoa : (n : ℕ) → n < 9223372036854775808 → parse_int64 (itoa (pos n)) ≡ some (pos n)
unfolding itoa
parse_int64-itoa n h =
    let d = decimal-IsDigit (suc n) n in
    let some_digit = decimal_cons (suc n) n (omega arith) in
    let value = digits_value-decimal (suc n) n (omega arith) in
    let read =
      digits_below-decimal 9223372036854775808 n (decimal (suc n) n) d value h some_digit.0
        some_digit.1 some_digit.2 in
    let first : IsDigit some_digit.0 = (subst (All IsDigit) some_digit.2 d).0 in
    let digits = some_digit.2 in
    ap parse_int64 digits
    ∙ parse_int64_of_digits some_digit.0 some_digit.1 n first
        (ap (digits_below 9223372036854775808) (sym digits) ∙ read)
