-- ===== src/Domain/Answer/Value.antt =====
-- internal/domain/answer.go: `AnswerValue`, `IsEmpty` and `Display`.
use earful.Prelude.{
  true, none, ◌==◌, some, false, ◌&&◌, Option, List, not, if◌then◌else◌, ◌++◌, map, Bool, is_nil,
  nat_eq, list_eq, bool_eq,
}
use earful.Domain.Question.{other_choice}
use earful.Prelude.Text.Decimal.{itoa}
use earful.Prelude.Text.{join, Text, codes, trim_space}
use earful.Prelude.Int.{ℤ, int_eq}

pub record AnswerValue : Type 0 where
  pub text : Text
  pub choice : Text
  pub choices : List Text
  pub number : Option ℤ
  pub bool : Option Bool
  pub date : Text
  pub other : Text

abbrev pub is_none {ℓ} : {A : Type ℓ} → Option A → Bool
is_none none = true
is_none (some a) = false

unfoldable pub is_empty : AnswerValue → Bool
is_empty v =
    is_nil (trim_space v.text)
    && is_nil v.choice
    && is_nil v.choices
    && is_none v.number
    && is_none v.bool
    && is_nil (trim_space v.date)
    && is_nil (trim_space v.other)

-- The closure `choice` of `DisplayWith`.
shown_choice : (Text → Text) → AnswerValue → Text → Text
shown_choice other v c = if c == other_choice && not (is_nil v.other) then other v.other else c

show_number : Option ℤ → Option Bool → Text → Text
show_number (some n) b d = itoa n
show_number none (some true) d = codes "Yes"
show_number none (some false) d = codes "No"
show_number none none d = d

-- The last two cases of the switch are one: a date that is not set is the empty text.
unfoldable pub display_with : (Text → Text) → AnswerValue → Text
unfolding shown_choice show_number
display_with other v =
    if not (is_nil v.text)
    then v.text
    else if not (is_nil v.choice)
    then shown_choice other v v.choice
    else if not (is_nil v.choices)
    then join (codes ", ") (map (shown_choice other v) v.choices)
    else show_number v.number v.bool v.date

unfoldable pub display : AnswerValue → Text
unfolding display_with
display v = display_with (λ written. codes "Other: " ++ written) v
