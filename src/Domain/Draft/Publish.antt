-- ===== src/Domain/Draft/Publish.antt =====
-- internal/domain/survey.go: `ValidateForPublish`.
use Prim.Native.Nat.{ℕ}
use earful.Runtime.{Runtime}
use earful.Prelude.{
  List, length, some, get_elem?, ltb, ◌↔◌, is_nil, Option, ◌≤◌, [], if◌then◌else◌, suc, zero, ◌≡◌,
  All, arith, take, none, ◌+◌, ◌∷◌,
}
use earful.Domain.Thanks.{validate_thanks}
use earful.Domain.Errors.{question, Error, draft_empty}
use earful.Domain.Question.{then_check, validate, Question}
use earful.Domain.Style.Validate.{validate_style-IsSound, IsSound, validate_style}
use earful.Domain.Question.Validate.Valid.{WellFormed, validate-WellFormed}
use earful.Domain.Draft.Types.{Draft, draft_too_long, max_questions_per_survey}
use earful.Domain.Draft.Order.{get_elem?-lt}

abbrev at_position : ℕ → Option Error → Option Error → Option Error
at_position position none rest = rest
at_position position (some e) rest = some (question position e)

module _ ⦃u : Runtime⦄ where
  -- The loop over the questions, at index `i`.
  check_questions : ℕ → List Question → Option Error
  check_questions i [] = none
  check_questions i (q ∷ qs) = at_position (i + 1) (validate q) (check_questions (i + 1) qs)

  unfoldable pub validate_for_publish : Draft → Option Error
  unfolding check_questions
  validate_for_publish d =
      if is_nil d.questions
      then some draft_empty
      else if ltb max_questions_per_survey (length d.questions)
      then some draft_too_long
      else then_check (check_questions 0 d.questions)
          (then_check (validate_thanks d.thanks) (validate_style d.style))

  check_questions_iff :
      (i : ℕ) (qs : List Question) → (check_questions i qs ≡ none) ↔ All WellFormed qs
  unfolding check_questions
  check_questions_iff i [] = ground arith
  check_questions_iff i (q ∷ qs) =
      ground (arith, validate-WellFormed q, check_questions_iff (i + 1) qs)

  -- The questions of a draft that may be published.
  abbrev pub IsPublishable : Draft → Type 0
  IsPublishable d =
      (1 ≤ length d.questions)
      × (length d.questions ≤ max_questions_per_survey)
      × All WellFormed d.questions
      × (validate_thanks d.thanks ≡ none)
      × IsSound d.style

  -- A draft may be published exactly when it has from 1 to 100 questions, all well formed, its
  -- thank you page is valid and its style is sound.
  pub validate_for_publish-IsPublishable :
      (d : Draft) → (validate_for_publish d ≡ none) ↔ IsPublishable d
  unfolding validate_for_publish
  validate_for_publish-IsPublishable d =
      ground (arith, check_questions_iff 0 d.questions, validate_style-IsSound d.style)

  check_questions_first :
      (i k : ℕ) (qs : List Question) (q : Question) (e : Error)
      → All WellFormed (take k qs)
      → get_elem? qs k ≡ some q
      → validate q ≡ some e
      → check_questions i qs ≡ some (question (i + k + 1) e)
  unfolding check_questions
  check_questions_first i k [] q e fine at bad = absurd (ground arith)
  check_questions_first i zero (r ∷ qs) q e fine at bad = ground arith
  check_questions_first i (suc k) (r ∷ qs) q e fine at bad =
      let same : i + 1 + k + 1 ≡ i + suc k + 1 = omega arith in
      ground
        (arith, validate-WellFormed r, check_questions_first (i + 1) k qs q e fine.1 at bad, same)

  -- Of a draft of from 1 to 100 questions, the error names the first question that is not well
  -- formed, by its position from one, with that question's own error.
  pub validate_for_publish_first :
      (d : Draft) (k : ℕ) (q : Question) (e : Error)
      → length d.questions ≤ max_questions_per_survey
      → All WellFormed (take k d.questions)
      → get_elem? d.questions k ≡ some q
      → validate q ≡ some e
      → validate_for_publish d ≡ some (question (k + 1) e)
  unfolding validate_for_publish
  validate_for_publish_first d k q e small fine at bad =
      let first = check_questions_first 0 k d.questions q e fine at bad in
      let same : 0 + k + 1 ≡ k + 1 = omega arith in
      ground (arith, first, same, get_elem?-lt d.questions k q at)
