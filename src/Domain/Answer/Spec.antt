-- ===== src/Domain/Answer/Spec.antt =====
-- What an answer must be for its question, and that `ValidateAnswer` decides it.
use earful.Prelude.{
  inr, ◌∷◌, is_nil, All, ◌⊎◌, List, Option, ◌==◌, arith, [], ◌||◌, some, true, length, contains,
  ◌&&◌, none, false, ◌≤◌, ◌≡◌, if◌then◌else◌, Bool, nat_eq, list_eq, bool_eq, inl, sym, refl,
  Option-cases, ◌↔◌,
}
use earful.Domain.Question.{
  QuestionType, number, date, scale, unknown, short_text, long_text, single_choice, other_choice,
  yes_no, nps, dropdown, multiple_choice, Question, rating_scale, is_nps, scale_points,
  scale_points-contains, needs_scale,
}
use earful.Domain.Answer.Dates.{
  Day, IsDay, format_date, parse_date_sound, parse-format_date, parse_date,
}
use earful.Domain.Answer.Value.{is_none, AnswerValue, is_empty}
use earful.Domain.Answer.Check.{
  max_answer_text_len, read_choices, blank, dated, check_typed, within, validate_answer,
}
use earful.Prelude.Text.{Text}
use earful.Prelude.Int.{ℤ, ◌≤ℤ◌, int_eq, int_eq, int_eq, int_eq, int_eq}
use earful.Domain.Errors.{out_of_range}

-- One of the question's options, or the marker for Other where it is offered.
abbrev pub Offered : Question → Text → Type 0
Offered q c = ((q.allow_other && c == other_choice) || contains q.options c) ≡ true

abbrev pub picks_other : Question → List Text → Bool
picks_other q [] = false
picks_other q (c ∷ cs) = (q.allow_other && c == other_choice) || picks_other q cs

-- What is written beside a choice: something where Other is picked, nothing where it is not.
abbrev pub OtherAgrees : Bool → Text → Type 0
OtherAgrees true other = blank other ≡ false
OtherAgrees false other = is_nil other ≡ true

abbrev pub InBounds : ℤ × ℤ → Option ℤ → Type 0
InBounds bounds given = (n : ℤ) × (given ≡ some n) × (bounds.0 ≤ℤ n) × (n ≤ℤ bounds.1)

abbrev pub Answers : QuestionType → Question → AnswerValue → Type 0
Answers long_text q v = length v.text ≤ max_answer_text_len
Answers short_text q v = length v.text ≤ max_answer_text_len
Answers single_choice q v =
    Offered q v.choice × OtherAgrees (q.allow_other && v.choice == other_choice) v.other
Answers dropdown q v =
    Offered q v.choice × OtherAgrees (q.allow_other && v.choice == other_choice) v.other
Answers multiple_choice q v =
    All (Offered q) v.choices × OtherAgrees (picks_other q v.choices) v.other
Answers rating_scale q v = InBounds (scale q) v.number
Answers nps q v = InBounds (scale q) v.number
Answers yes_no q v = is_none v.bool ≡ false
Answers date q v = (x : Day) × IsDay x × (v.date ≡ format_date x)
Answers number q v = InBounds (scale q) v.number
Answers (unknown t) q v = ⊥

read_choices-none :
    (q : Question) (acc : Bool) (cs : List Text)
    → (read_choices q acc cs ≡ none) ⊎ All (Offered q) cs
unfolding read_choices
read_choices-none q acc [] = inr tt
read_choices-none q acc (c ∷ cs) =
    ground
      (arith, read_choices-none q (if q.allow_other && c == other_choice then true else acc) cs)

read_choices-some :
    (q : Question) (acc : Bool) (cs : List Text)
    → All (Offered q) cs
    → read_choices q acc cs ≡ some (acc || picks_other q cs)
unfolding read_choices
read_choices-some q acc [] h = ground arith
read_choices-some q acc (c ∷ cs) h =
    ground
      (arith, read_choices-some q (if q.allow_other && c == other_choice then true else acc) cs h.1)

within_sound :
    (bounds : ℤ × ℤ) (given : Option ℤ) → within bounds given ≡ true → InBounds bounds given
within_sound bounds none h = cc
within_sound bounds (some n) h = (n, refl, ground arith, ground arith)

within_complete :
    (bounds : ℤ × ℤ) (given : Option ℤ) → InBounds bounds given → within bounds given ≡ true
within_complete bounds given (n, e, lo, hi) = rw e (ground arith)

dated_sound : (s : Text) → dated (parse_date s) ≡ true → (x : Day) × IsDay x × (s ≡ format_date x)
dated_sound s h = elim (Option-cases (parse_date s)) [
  | inl e ↦ cc
  | inr (x, e) ↦ let (day, form) = parse_date_sound s x e in (x, day, sym form)
]

dated_complete :
    (s : Text) → (x : Day) × IsDay x × (s ≡ format_date x) → dated (parse_date s) ≡ true
dated_complete s (x, day, e) = rw e (rw (parse-format_date x day))

check_typed_sound :
    (t : QuestionType) (q : Question) (v : AnswerValue) → check_typed t q v ≡ none → Answers t q v
unfolding check_typed
check_typed_sound long_text q v h = ground arith
check_typed_sound short_text q v h = ground arith
check_typed_sound single_choice q v h = ground arith
check_typed_sound dropdown q v h = ground arith
check_typed_sound multiple_choice q v h =
    ground (arith, read_choices-none q false v.choices, read_choices-some q false v.choices)
check_typed_sound rating_scale q v h = within_sound (scale q) v.number (ground arith)
check_typed_sound nps q v h = within_sound (scale q) v.number (ground arith)
check_typed_sound yes_no q v h = ground arith
check_typed_sound date q v h = dated_sound v.date (ground arith)
check_typed_sound number q v h = within_sound (scale q) v.number (ground arith)
check_typed_sound (unknown t) q v h = cc

check_typed_complete :
    (t : QuestionType) (q : Question) (v : AnswerValue) → Answers t q v → check_typed t q v ≡ none
unfolding check_typed
check_typed_complete long_text q v h = ground arith
check_typed_complete short_text q v h = ground arith
check_typed_complete single_choice q v h = ground arith
check_typed_complete dropdown q v h = ground arith
check_typed_complete multiple_choice q v h = ground (arith, read_choices-some q false v.choices)
check_typed_complete rating_scale q v h = rw (within_complete (scale q) v.number h)
check_typed_complete nps q v h = rw (within_complete (scale q) v.number h)
check_typed_complete yes_no q v h = ground arith
check_typed_complete date q v h = rw (dated_complete v.date h)
check_typed_complete number q v h = rw (within_complete (scale q) v.number h)
check_typed_complete (unknown t) q v h = absurd h

-- What `ValidateAnswer` accepts: an empty answer where none is required, and otherwise one that
-- answers the question as its type asks, with words for Other only where Other is offered, and no
-- more of those than the limit.
abbrev pub Accepted : Question → AnswerValue → Type 0
Accepted q v =
    ((is_empty v ≡ true) × (q.required ≡ false))
    ⊎ ((is_empty v ≡ false)
        × (is_nil v.other ≡ false → q.allow_other ≡ true)
        × (length v.other ≤ max_answer_text_len)
        × Answers q.type q v)

-- `ValidateAnswer` reports no error exactly for an empty answer where none is required, and for an
-- answer that is not empty, answers the question as its type asks, has words for Other only where
-- Other is offered, and no more of those than the limit on the length of an answer.
pub validate_answer-Accepted :
    (q : Question) (v : AnswerValue) → (validate_answer q v ≡ none) ↔ Accepted q v
unfolding validate_answer
validate_answer-Accepted q v = (
  λ h. ground (arith, check_typed_sound q.type q v),
  λ a. ground (arith, check_typed_complete q.type q v),
)

scale_typed :
    (q : Question) (v : AnswerValue)
    → (needs_scale q.type || is_nps q.type) ≡ true
    → check_typed q.type q v ≡ (if within (scale q) v.number then none else some out_of_range)
unfolding check_typed needs_scale is_nps
scale_typed q v h = ground arith

-- On a rating scale and on a Net Promoter Score the numbers accepted are exactly the points that
-- the scale offers.
pub validate_answer-scale_points :
    (q : Question) (v : AnswerValue) (n : ℤ)
    → (needs_scale q.type || is_nps q.type) ≡ true
    → v.number ≡ some n
    → v.other ≡ []
    → (validate_answer q v ≡ none) ↔ (contains (scale_points q) n ≡ true)
unfolding validate_answer
validate_answer-scale_points q v n t given alone =
    ground (arith, scale_typed q v t, scale_points-contains q n)
