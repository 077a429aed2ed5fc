-- ===== src/Domain/Question/Validate.antt =====
-- internal/domain/question.go: `Question.Validate`.
mod Options
pub mod Valid
use earful.Prelude.{
  ℕ, ◌≡◌, Bool, true, false, not, ◌&&◌, ◌||◌, Option, none, some, List, [], ◌∷◌, ltb, leb, length,
  is_nil, if◌then◌else◌,
}
use earful.Prelude.Int.{ℤ, pos, negsuc, ltb_ℤ, leb_ℤ, eqb_ℤ}
use earful.Prelude.Text.{Text, trim_space}
use earful.Runtime.{Runtime}
use earful.Domain.Errors.{
  Error, unknown_type, empty_question_text, too_few_options, other_not_offered, limit,
  limit_question_text, limit_scale, limit_bounds,
}
use earful.Domain.Question.Types.{Question, valid, needs_options, needs_scale, is_number}
use Options.{check_options}
unfoldable pub use Options.{option_key, other_choice}

abbrev pub max_question_text_len : ℕ
max_question_text_len = 500

abbrev pub rating_scale_max_cap : ℤ
rating_scale_max_cap = pos 10

abbrev pub number_bound_limit : ℤ
number_bound_limit = pos 1000000

abbrev pub bad_scale : Error
bad_scale = limit limit_scale 10

abbrev pub bad_bounds : Error
bad_bounds = limit limit_bounds 1000000

-- The tests that follow the options: Other, the scale and the bounds of a number.
check_bounds : Question → Option Error
unfolding needs_options needs_scale is_number
check_bounds q =
    if q.allow_other && not (needs_options q.type)
    then some other_not_offered
    else if needs_scale q.type && not (eqb_ℤ q.scale_min (pos 0)) && not (eqb_ℤ q.scale_min (pos 1))
    then some bad_scale
    else if needs_scale q.type
        && (ltb_ℤ rating_scale_max_cap q.scale_max || leb_ℤ q.scale_max q.scale_min)
    then some bad_scale
    else if is_number q.type
        && (ltb_ℤ q.scale_min (negsuc 999999)
            || ltb_ℤ number_bound_limit q.scale_max
            || leb_ℤ q.scale_max q.scale_min)
    then some bad_bounds
    else none

-- A `return` in the loop ends the function; a loop that passes goes on behind it.
abbrev pub then_check : Option Error → Option Error → Option Error
then_check none rest = rest
then_check (some e) rest = some e

module _ ⦃u : Runtime⦄ where
  unfoldable pub validate : Question → Option Error
  unfolding valid needs_options check_bounds
  validate q =
      if not (valid q.type)
      then some unknown_type
      else if is_nil (trim_space q.text)
      then some empty_question_text
      else if ltb max_question_text_len (length q.text)
      then some (limit limit_question_text max_question_text_len)
      else if needs_options q.type
      then (if ltb (length q.options) 2
          then some too_few_options
          else then_check (check_options q.allow_other [] q.options) (check_bounds q))
      else check_bounds q
