-- ===== src/Domain/Errors/Grouping.antt =====
-- `grouped` of internal/domain/errors.go over the digits of strconv.Itoa.
use earful.Prelude.{
  ℕ, zero, suc, ◌-◌, ◌≡◌, refl, [], ◌∷◌, ◌++◌, arith, ltb, eqb, if◌then◌else◌, length, take, drop,
  All, take-append-drop, ◌∙◌, ap,
}
use earful.Prelude.Int.{ℤ, pos, negsuc}
use earful.Prelude.Text.{Text, codes}
use earful.Prelude.Text.Decimal.{decimal_value-itoa, itoa, decimal-IsDigit, IsDigit, decimal_value}

-- `for i := len(digits) - 3; i > 0; i -= 3`; `i` itself is enough fuel.
group_from : ℕ → ℕ → Text → Text
group_from zero i digits = digits
group_from (suc fuel) i digits =
    let rest = group_from fuel (i - 3) (take i digits ++ b',' ∷ drop i digits) in
    if ltb 0 i then rest else digits

group_digits : Text → Text
unfolding group_from
group_digits digits = group_from (length digits) (length digits - 3) digits

grouped_from : Text → Text
unfolding group_digits
grouped_from [] = group_digits []
grouped_from (c ∷ digits) =
    if eqb c b'-' then b'-' ∷ group_digits digits else group_digits (c ∷ digits)

unfoldable pub grouped : ℤ → Text
unfolding itoa grouped_from
grouped n = grouped_from (itoa n)

-- The text without its commas.
abbrev pub without_commas : Text → Text
without_commas [] = []
without_commas (c ∷ s) = if eqb c b',' then without_commas s else c ∷ without_commas s

without_commas-append :
    (s t : Text) → without_commas (s ++ t) ≡ without_commas s ++ without_commas t
without_commas-append [] t = refl
without_commas-append (c ∷ s) t = ground (arith, without_commas-append s t)

without_commas_of_digits : (s : Text) → All IsDigit s → without_commas s ≡ s
without_commas_of_digits [] h = refl
without_commas_of_digits (c ∷ s) h = ground (arith, without_commas_of_digits s h.1)

grouped_test : grouped (negsuc 999999) ≡ codes "-1,000,000"
unfolding grouped
grouped_test = refl

group_from-without_commas :
    (fuel i : ℕ) (s : Text) → without_commas (group_from fuel i s) ≡ without_commas s
unfolding group_from
group_from-without_commas zero i s = refl
group_from-without_commas (suc fuel) i s = ground (
  arith,
  group_from-without_commas fuel (i - 3) (take i s ++ b',' ∷ drop i s),
  without_commas-append (take i s) (b',' ∷ drop i s),
  without_commas-append (take i s) (drop i s),
  take-append-drop i s,
)

group_digits-without_commas : (s : Text) → All IsDigit s → without_commas (group_digits s) ≡ s
unfolding group_digits
group_digits-without_commas s h =
    group_from-without_commas (length s) (length s - 3) s ∙ without_commas_of_digits s h

grouped_pos : (d : Text) → All IsDigit d → without_commas (grouped_from d) ≡ d
unfolding grouped_from
grouped_pos [] h = group_digits-without_commas [] tt
grouped_pos (c ∷ d) h = ground (arith, group_digits-without_commas (c ∷ d) h)

grouped_neg : (d : Text) → All IsDigit d → without_commas (grouped_from (b'-' ∷ d)) ≡ b'-' ∷ d
unfolding grouped_from
grouped_neg d h = ground (arith, group_digits-without_commas d h)

-- For every integer, taking the commas out of its grouped writing gives its plain decimal writing.
without_commas-grouped : (n : ℤ) → without_commas (grouped n) ≡ itoa n
unfolding grouped itoa
without_commas-grouped (pos n) = grouped_pos _ (decimal-IsDigit (suc n) n)
without_commas-grouped (negsuc n) = grouped_neg _ (decimal-IsDigit (suc (suc n)) (suc n))

-- For every integer, its grouped writing with the commas taken out is read back as the integer.
pub decimal_value-grouped : (n : ℤ) → decimal_value (without_commas (grouped n)) ≡ n
decimal_value-grouped n = ap decimal_value (without_commas-grouped n) ∙ decimal_value-itoa n
