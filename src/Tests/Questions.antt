-- ===== src/Tests/Questions.antt =====
-- Questions, answers, surveys and thank you pages at concrete inputs.
use earful.Tests.Data.{ascii}
use earful.Prelude.{
  ◌||◌, some, true, ◌++◌, arith, ◌↔◌, ◌∷◌, eqb, false, ◌≢◌, refl, ◌≡◌, ◌⊎◌, is_nil, All, contains,
  none, nat_eq, list_eq, bool_eq,
}
use earful.Tests.Data.{comments, rating, four, two_questions, page}
use earful.Domain.Survey.{accepts_responses_iff, accepts_responses, SurveyState}
use earful.Domain.Thanks.{validate_thanks, has_link, validate_thanks-link, validate_link_url}
use earful.Domain.Question.{validate}
use earful.Domain.Question.Validate.Valid.{validate-WellFormed, WellFormed}
use earful.Domain.Answer.Dates.{
  IsDay, parse_date, format_date, parse-format_date, parse_date_sound, Day, days_in, is_leap,
}
use earful.Domain.Answer.Submission.{
  problem_at, validate_submission, validate_submission-problem_at, answer_to,
}
use earful.Domain.Answer.Check.{validate_answer}
use earful.Domain.Answer.Spec.{validate_answer-Accepted, Accepted}
use earful.Domain.Thanks.Links.{SafeLink}
use earful.Prelude.Dict.{empty}
use earful.Prelude.Text.{codes, Text, split}
use earful.Prelude.Int.{◌<ℤ◌, pos, ℤ, int_eq, int_eq, int_eq, int_eq, int_eq, int_eq}

validate-WellFormed_example : (validate rating ≡ none) ↔ WellFormed rating
validate-WellFormed_example = validate-WellFormed rating

validate_answer-Accepted_example : (validate_answer rating four ≡ none) ↔ Accepted rating four
validate_answer-Accepted_example = validate_answer-Accepted rating four

validate_submission-problem_at_example :
    problem_at 2 (validate_submission empty two_questions.questions)
    ≡ validate_answer comments (answer_to empty (codes "q2"))
validate_submission-problem_at_example =
    validate_submission-problem_at empty two_questions.questions 1 comments refl

q1-ne-stray : codes "q1" ≢ codes "stray"
q1-ne-stray = ground arith

q2-ne-stray : codes "q2" ≢ codes "stray"
q2-ne-stray = ground arith

abbrev leap_day : Day
leap_day = record { year = 2024; month = 2; day = 29 }

parse_leap_day : parse_date (codes "2024-02-29") ≡ some leap_day
unfolding parse_date earful.Domain.Answer.Dates.in_layout earful.Domain.Answer.Dates.day_of
parse_leap_day = refl

abbrev closing : SurveyState
closing = record {
  has_published_version = true;
  close_at = some (pos 100);
  closed_at = none;
  suspended = false;
}

accepts_responses_iff_example : (accepts_responses closing (pos 99) ≡ true) ↔ (
    (closing.suspended ≡ false)
    × (closing.has_published_version ≡ true)
    × (closing.closed_at ≡ none)
    × ((closing.close_at ≡ none) ⊎ ((t : ℤ) × (closing.close_at ≡ some t) × (pos 99 <ℤ t))))
accepts_responses_iff_example = accepts_responses_iff closing (pos 99)

page_passes : validate_thanks page ≡ none
unfolding validate_thanks validate_link_url earful.Prelude.Text.byte_len earful.Prelude.list_beq
page_passes = refl

page-has_link : has_link page ≡ true
unfolding has_link
page-has_link = refl

validate_thanks-link_example : (is_nil page.link_label ≡ false) × SafeLink page.link_url
validate_thanks-link_example = validate_thanks-link page page_passes page-has_link

abbrev lines : Text
lines = 10 ∷ codes "Thank you" ++ 13 ∷ 10 ∷ 10 ∷ codes "Bye"
