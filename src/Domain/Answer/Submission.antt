-- ===== src/Domain/Answer/Submission.antt =====
-- internal/domain/answer.go: `Submission.Validate`, every answer of a form at once.
use earful.Domain.Errors.Message.{message}
use Prim.Native.Nat.{ℕ}
use earful.Prelude.{
  eq_iff, ◌∷◌, if◌then◌else◌, ◌≡◌, List, ◌≤◌, Option, get_elem?, arith, ◌+◌, ◌↔◌, none, suc, refl,
  ◌≢◌, All, zero, [], some, eqb, nat_eq, list_eq, bool_eq,
}
use earful.Domain.Errors.{Error}
use earful.Domain.Question.{Question}
use earful.Domain.Answer.Value.{AnswerValue}
use earful.Domain.Answer.Check.{validate_answer}
use earful.Prelude.Dict.{Dict, lookup-insert, lookup, insert}
use earful.Prelude.Text.{Text}

pub record AnswerError : Type 0 where
  pub identity_id : Text
  pub position : ℕ
  pub err : Error
  pub message : Text

-- `s.Answers[id]`: a missing key reads as the answer with nothing set.
abbrev pub no_answer : AnswerValue
no_answer = record {
  text = [];
  choice = [];
  choices = [];
  number = none;
  bool = none;
  date = [];
  other = [];
}

abbrev pub or_no_answer : Option AnswerValue → AnswerValue
or_no_answer none = no_answer
or_no_answer (some v) = v

unfoldable pub answer_to : Dict AnswerValue → Text → AnswerValue
answer_to answers id = or_no_answer (lookup id answers)

abbrev pub problem_of : Question → ℕ → Option Error → List AnswerError → List AnswerError
problem_of q position none rest = rest
problem_of q position (some e) rest =
    record { identity_id = q.identity_id; position = position; err = e; message = message e } ∷ rest

-- The loop, at index `i`.
unfoldable pub problems_from : Dict AnswerValue → ℕ → List Question → List AnswerError
problems_from answers i [] = []
problems_from answers i (q ∷ qs) =
    problem_of q (i + 1) (validate_answer q (answer_to answers q.identity_id))
      (problems_from answers (i + 1) qs)

unfoldable pub validate_submission : Dict AnswerValue → List Question → List AnswerError
unfolding problems_from
validate_submission answers questions = problems_from answers 0 questions

-- The first problem listed at a position.
abbrev pub problem_at : ℕ → List AnswerError → Option Error
problem_at position [] = none
problem_at position (p ∷ ps) =
    if eqb p.position position then some p.err else problem_at position ps

problem_at_before :
    (answers : Dict AnswerValue) (i j : ℕ) (qs : List Question)
    → j ≤ i
    → problem_at j (problems_from answers i qs) ≡ none
unfolding problems_from
problem_at_before answers i j [] h = refl
problem_at_before answers i j (q ∷ qs) h = ground (arith, problem_at_before answers (i + 1) j qs)

problem_at_from :
    (answers : Dict AnswerValue) (i k : ℕ) (qs : List Question) (q : Question)
    → get_elem? qs k ≡ some q
    → problem_at (i + k + 1) (problems_from answers i qs)
      ≡ validate_answer q (answer_to answers q.identity_id)
unfolding problems_from
problem_at_from answers i k [] q h = cc
problem_at_from answers i zero (r ∷ qs) q h =
    ground (arith, problem_at_before answers (i + 1) (i + zero + 1) qs)
problem_at_from answers i (suc k) (r ∷ qs) q h =
    let same : i + 1 + k + 1 ≡ i + suc k + 1 = omega arith in
    ground (arith, problem_at_from answers (i + 1) k qs q h, same)

-- The problem reported at the position of a question, counted from one, is the error of that
-- question's own answer, and none is reported there when the answer has no error.
pub validate_submission-problem_at :
    (answers : Dict AnswerValue) (questions : List Question) (k : ℕ) (q : Question)
    → get_elem? questions k ≡ some q
    → problem_at (k + 1) (validate_submission answers questions)
      ≡ validate_answer q (answer_to answers q.identity_id)
unfolding validate_submission
validate_submission-problem_at answers questions k q h =
    let same : 0 + k + 1 ≡ k + 1 = omega arith in
    rw same at (problem_at_from answers 0 k questions q h)

problems_from_iff :
    (answers : Dict AnswerValue) (i : ℕ) (qs : List Question)
    → (problems_from answers i qs ≡ [])
      ↔ All (λ q. validate_answer q (answer_to answers q.identity_id) ≡ none) qs
unfolding problems_from
problems_from_iff answers i [] = ground arith
problems_from_iff answers i (q ∷ qs) = ground (arith, problems_from_iff answers (i + 1) qs)

-- A submission has no problem exactly when every question's own answer has none.
pub validate_submission-nil :
    (answers : Dict AnswerValue) (questions : List Question)
    → (validate_submission answers questions ≡ [])
      ↔ All (λ q. validate_answer q (answer_to answers q.identity_id) ≡ none) questions
unfolding validate_submission
validate_submission-nil answers questions = problems_from_iff answers 0 questions

answer_to-insert_ne :
    (answers : Dict AnswerValue) (id k : Text) (v : AnswerValue)
    → id ≢ k
    → answer_to (insert k v answers) id ≡ answer_to answers id
unfolding answer_to
answer_to-insert_ne answers id k v h = ground (arith, lookup-insert id k v answers, eq_iff k id)

problems_from-insert :
    (answers : Dict AnswerValue) (i : ℕ) (k : Text) (v : AnswerValue) (qs : List Question)
    → All (λ q. q.identity_id ≢ k) qs
    → problems_from (insert k v answers) i qs ≡ problems_from answers i qs
unfolding problems_from
problems_from-insert answers i k v [] h = refl
problems_from-insert answers i k v (q ∷ qs) h =
    rw
      (
        answer_to-insert_ne answers q.identity_id k v h.0,
        problems_from-insert answers (i + 1) k v qs h.1,
      )
      refl

-- An answer to a question that is not in the version changes nothing.
pub validate_submission-ignores :
    (answers : Dict AnswerValue) (questions : List Question) (k : Text) (v : AnswerValue)
    → All (λ q. q.identity_id ≢ k) questions
    → validate_submission (insert k v answers) questions ≡ validate_submission answers questions
unfolding validate_submission
validate_submission-ignores answers questions k v h = problems_from-insert answers 0 k v questions h
