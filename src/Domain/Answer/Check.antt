-- ===== src/Domain/Answer/Check.antt =====
-- internal/domain/answer.go: `ValidateAnswer`.
use Prim.Native.Nat.{ℕ}
use earful.Prelude.{
  true, none, Bool, ◌||◌, if◌then◌else◌, false, Option, List, [], ◌&&◌, length, not, ◌==◌, is_nil,
  some, ◌∷◌, contains, ltb, nat_eq, list_eq, bool_eq,
}
use earful.Domain.Errors.{
  other_empty, not_a_date, range, required_answer, unknown_type, Error, limit, out_of_range,
  limit_answer_text, not_an_option,
}
use earful.Domain.Question.{
  rating_scale, long_text, QuestionType, date, yes_no, number, Question, single_choice,
  multiple_choice, nps, other_choice, short_text, dropdown, scale, unknown,
}
use earful.Domain.Answer.Dates.{parse_date, Day}
use earful.Domain.Answer.Value.{is_none, is_empty, AnswerValue}
use earful.Prelude.Text.{Text, trim_space}
use earful.Prelude.Int.{leb_ℤ, ℤ, int_eq, int_eq, int_eq}

abbrev pub max_answer_text_len : ℕ
max_answer_text_len = 10000

abbrev pub answer_too_long : Error
answer_too_long = limit limit_answer_text max_answer_text_len

abbrev pub blank : Text → Bool
blank t = is_nil (trim_space t)

unfoldable pub check_choice : Question → AnswerValue → Option Error
check_choice q v =
    if q.allow_other && v.choice == other_choice
    then (if blank v.other then some other_empty else none)
    else if not (is_nil v.other) || not (contains q.options v.choice)
    then some not_an_option
    else none

-- The loop over `v.Choices`: whether Other was among them, or none when one is no option.
unfoldable pub read_choices : Question → Bool → List Text → Option Bool
read_choices q other [] = some other
read_choices q other (c ∷ cs) =
    let rest = read_choices q (if q.allow_other && c == other_choice then true else other) cs in
    if (q.allow_other && c == other_choice) || contains q.options c then rest else none

unfoldable pub check_other : AnswerValue → Option Bool → Option Error
check_other v none = some not_an_option
check_other v (some other) =
    if other && blank v.other
    then some other_empty
    else if not other && not (is_nil v.other)
    then some not_an_option
    else none

-- Whether a number is given and lies between the bounds.
abbrev pub within : ℤ × ℤ → Option ℤ → Bool
within bounds none = false
within bounds (some n) = leb_ℤ bounds.0 n && leb_ℤ n bounds.1

abbrev pub dated : Option Day → Bool
dated none = false
dated (some x) = true

-- The `switch` on the type.
unfoldable pub check_typed : QuestionType → Question → AnswerValue → Option Error
unfolding check_choice check_other
check_typed long_text q v =
    if ltb max_answer_text_len (length v.text) then some answer_too_long else none
check_typed short_text q v =
    if ltb max_answer_text_len (length v.text) then some answer_too_long else none
check_typed single_choice q v = check_choice q v
check_typed dropdown q v = check_choice q v
check_typed multiple_choice q v = check_other v (read_choices q false v.choices)
check_typed rating_scale q v = if within (scale q) v.number then none else some out_of_range
check_typed nps q v = if within (scale q) v.number then none else some out_of_range
check_typed yes_no q v = if is_none v.bool then some required_answer else none
check_typed date q v = if dated (parse_date v.date) then none else some not_a_date
check_typed number q v =
    if within (scale q) v.number then none else some (range (scale q).0 (scale q).1)
check_typed (unknown t) q v = some unknown_type

unfoldable pub validate_answer : Question → AnswerValue → Option Error
unfolding check_typed is_empty
validate_answer q v =
    if is_empty v
    then (if q.required then some required_answer else none)
    else if not (is_nil v.other) && not q.allow_other
    then some not_an_option
    else if ltb max_answer_text_len (length v.other)
    then some answer_too_long
    else check_typed q.type q v
