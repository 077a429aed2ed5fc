-- ===== src/Domain/Answer/Dates.antt =====
-- `time.Parse(DateLayout, s)` for the layout "2006-01-02" of internal/domain/answer.go: four digits,
-- two and two with dashes between, a month of the year and a day of that month.
use Prim.Native.Nat.{ℕ}
use earful.Prelude.{
  not, ◌/◌, ◌<◌, Bool, ◌≤◌, some, ◌∷◌, Option, ◌*◌, ltb, refl, [], ◌%◌, none, eqb, ◌||◌,
  if◌then◌else◌, ◌+◌, ◌-◌, ◌&&◌, ◌≡◌, arith, ◌↔◌, inl, inr, true, Bool-cases,
}
use earful.Prelude.Text.Decimal.{is_digit, IsDigit}
use earful.Prelude.Text.{Text, codes}

pub record Day : Type 0 where
  pub year : ℕ
  pub month : ℕ
  pub day : ℕ

unfoldable pub is_leap : ℕ → Bool
is_leap y = eqb (y % 4) 0 && (not (eqb (y % 100) 0) || eqb (y % 400) 0)

unfoldable pub days_in : ℕ → ℕ → ℕ
unfolding is_leap
days_in m y =
    if eqb m 2
    then (if is_leap y then 29 else 28)
    else if eqb m 4 || eqb m 6 || eqb m 9 || eqb m 11
    then 30
    else 31

abbrev two : ℕ → ℕ → ℕ
two a b = (a - 48) * 10 + (b - 48)

-- The checks behind the digits.
unfoldable pub day_of : ℕ → ℕ → ℕ → Option Day
unfolding days_in
day_of y m d =
    if eqb m 0 || ltb 12 m
    then none
    else if ltb d 1 || ltb (days_in m y) d
    then none
    else some (record { year = y; month = m; day = d })

-- The digits and the dashes stand where the layout has them.
unfoldable pub in_layout : ℕ → ℕ → ℕ → ℕ → ℕ → ℕ → ℕ → ℕ → ℕ → ℕ → Bool
in_layout a b c d s e f t g h =
    is_digit a
    && is_digit b
    && is_digit c
    && is_digit d
    && eqb s b'-'
    && is_digit e
    && is_digit f
    && eqb t b'-'
    && is_digit g
    && is_digit h

unfoldable pub parse_date : Text → Option Day
parse_date (a ∷ b ∷ c ∷ d ∷ s ∷ e ∷ f ∷ t ∷ g ∷ h ∷ []) =
    if in_layout a b c d s e f t g h
    then day_of (two a b * 100 + two c d) (two e f) (two g h)
    else none
parse_date _ = none

-- A day that the calendar has, of a year of at most four digits.
pub record IsDay (x : Day) : Type 0 where
  pub in_years : x.year < 10000
  pub a_month : (1 ≤ x.month) × (x.month ≤ 12)
  pub a_day : (1 ≤ x.day) × (x.day ≤ days_in x.month x.year)

digit : ℕ → ℕ
digit n = 48 + n % 10

-- The form of the layout.
unfoldable pub format_date : Day → Text
unfolding digit
format_date x =
    digit (x.year / 1000)
    ∷ digit (x.year / 100)
    ∷ digit (x.year / 10)
    ∷ digit x.year
    ∷ b'-'
    ∷ digit (x.month / 10)
    ∷ digit x.month
    ∷ b'-'
    ∷ digit (x.day / 10)
    ∷ digit x.day
    ∷ []

parse_test : parse_date (codes "2024-02-29") ≡ some (record { year = 2024; month = 2; day = 29 })
unfolding parse_date day_of in_layout
parse_test = refl

parse_none_test : parse_date (codes "2023-02-29") ≡ none
unfolding parse_date day_of in_layout
parse_none_test = refl

days_in_le : (m y : ℕ) → days_in m y ≤ 31
unfolding days_in
days_in_le m y = ground arith

day_of-IsDay : (x : Day) → IsDay x → day_of x.year x.month x.day ≡ some x
unfolding day_of
day_of-IsDay x h = ground arith

day_of_sound :
    (y m d : ℕ) {x : Day}
    → day_of y m d ≡ some x
    → (x.year ≡ y)
      × (x.month ≡ m)
      × (x.day ≡ d)
      × ((1 ≤ m) × (m ≤ 12))
      × ((1 ≤ d) × (d ≤ days_in m y))
unfolding day_of
day_of_sound y m d h = ground arith

digit_bounds : (n : ℕ) → (48 ≤ digit n) × (digit n ≤ 57)
unfolding digit
digit_bounds n = omega arith

two-digit : (n : ℕ) → n < 100 → two (digit (n / 10)) (digit n) ≡ n
unfolding digit
two-digit n h = omega arith

two-two-digit :
    (n : ℕ)
    → n < 10000
    → two (digit (n / 1000)) (digit (n / 100)) * 100 + two (digit (n / 10)) (digit n) ≡ n
unfolding digit
two-two-digit n h = omega arith

in_layout_iff :
    (a b c d s e f t g h : ℕ)
    → (in_layout a b c d s e f t g h ≡ true) ↔ (
        IsDigit a
        × IsDigit b
        × IsDigit c
        × IsDigit d
        × (s ≡ b'-')
        × IsDigit e
        × IsDigit f
        × (t ≡ b'-')
        × IsDigit g
        × IsDigit h)
unfolding in_layout
in_layout_iff a b c d s e f t g h = ground (arith)

digit-IsDigit : (n : ℕ) → IsDigit (digit n)
unfolding digit
digit-IsDigit n = ground arith

format_in_layout :
    (a b c d e f g h : ℕ)
    → in_layout
        (digit a)
        (digit b)
        (digit c)
        (digit d)
        b'-'
        (digit e)
        (digit f)
        b'-'
        (digit g)
        (digit h)
      ≡ true
format_in_layout a b c d e f g h = (in_layout_iff _ _ _ _ _ _ _ _ _ _).1 (
  digit-IsDigit a,
  digit-IsDigit b,
  digit-IsDigit c,
  digit-IsDigit d,
  refl,
  digit-IsDigit e,
  digit-IsDigit f,
  refl,
  digit-IsDigit g,
  digit-IsDigit h,
)

-- A date is read back from its own form, whatever the day of the calendar.
pub parse-format_date : (x : Day) → IsDay x → parse_date (format_date x) ≡ some x
unfolding parse_date format_date
parse-format_date x h =
    rw
      (
        format_in_layout (x.year / 1000) (x.year / 100) (x.year / 10) x.year (x.month / 10) x.month
            (x.day / 10) x.day,
        two-two-digit x.year h.in_years,
        two-digit x.month (omega arith),
        two-digit x.day (omega (arith, days_in_le x.month x.year)),
      )
      (day_of-IsDay x h)

digit-two : (a b : ℕ) → IsDigit a → IsDigit b → (digit (two a b / 10) ≡ a) × (digit (two a b) ≡ b)
unfolding digit
digit-two a b p q = ground arith

digit-two-two :
    (a b c d : ℕ)
    → IsDigit a
    → IsDigit b
    → IsDigit c
    → IsDigit d
    → let y = two a b * 100 + two c d in
      (digit (y / 1000) ≡ a)
      × (digit (y / 100) ≡ b)
      × (digit (y / 10) ≡ c)
      × (digit y ≡ d)
      × (y < 10000)
unfolding digit
digit-two-two a b c d p q r s = ground arith

read_sound :
    (a b c d s e f t g k : ℕ) (x : Day)
    → in_layout a b c d s e f t g k ≡ true
    → day_of (two a b * 100 + two c d) (two e f) (two g k) ≡ some x
    → IsDay x × (format_date x ≡ a ∷ b ∷ c ∷ d ∷ s ∷ e ∷ f ∷ t ∷ g ∷ k ∷ [])
unfolding format_date
read_sound a b c d s e f t g k x l h =
    let (pa, pb, pc, pd, ps, pe, pf, pt, pg, pk) = (in_layout_iff a b c d s e f t g k).0 l in
    let (ey, em, ed, month, day) = day_of_sound (two a b * 100 + two c d) (two e f) (two g k) h in
    let (ya, yb, yc, yd, small) = digit-two-two a b c d pa pb pc pd in
    let (me, mf) = digit-two e f pe pf in
    let (dg, dk) = digit-two g k pg pk in
    (
      record { in_years = rw ey small; a_month = rw em month; a_day = rw (ey, em, ed) day },
      rw (ey, em, ed, ya, yb, yc, yd, me, mf, dg, dk, ps, pt) refl,
    )

-- What is accepted as a date is a day of the calendar, and the text is the one form of that day.
pub parse_date_sound : (s : Text) (x : Day) → parse_date s ≡ some x → IsDay x × (format_date x ≡ s)
unfolding parse_date
parse_date_sound (a ∷ b ∷ c ∷ d ∷ t ∷ e ∷ f ∷ u ∷ g ∷ k ∷ []) x h =
    elim (Bool-cases (in_layout a b c d t e f u g k)) [
      | inl l ↦ read_sound a b c d t e f u g k x l (rw l at h)
      | inr l ↦ (let bad : none ≡ some x = rw l at h in cc)
    ]
parse_date_sound _ x h = cc
