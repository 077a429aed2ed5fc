-- ===== src/Domain/Draft/Edit.antt =====
-- internal/domain/survey.go: `Add`, `Replace`, `Remove` and `Move`, with the draft that they leave
-- beside the error.
use Prim.Native.Nat.{ℕ}
use earful.Runtime.{Runtime}
use earful.Prelude.{
  ◌∷◌, leb, ltb, if◌then◌else◌, ◌-◌, ◌++◌, none, List, get_elem?, length, set, [], Option, some,
  eqb, insert_at, remove_at, ◌≡◌, ap, ◌⊎◌, refl, arith, ◌<◌, inr, Option-cases, inl,
}
use earful.Domain.Errors.{Error, question_unknown}
use earful.Domain.Question.{validate, Question}
use earful.Domain.Draft.Types.{max_questions_per_survey, Draft, index_of, draft_too_long}
use earful.Prelude.Text.{Text}
use earful.Prelude.Int.{ℤ, pos_part, wrap64, ◌+ℤ◌, pos, ltb_ℤ}

-- `j := i + delta`, kept within the list.
unfoldable pub clamped : ℕ → ℤ → ℕ → ℕ
unfolding wrap64 ◌+ℤ◌
clamped i delta len =
    let j = wrap64 (pos i +ℤ delta) in
    if ltb_ℤ j (pos 0) then 0 else if ltb (len - 1) (pos_part j) then len - 1 else pos_part j

abbrev move_to : ℕ → ℕ → List Question → Option Question → List Question
move_to i j qs none = qs
move_to i j qs (some q) = insert_at j q (remove_at i qs)

unfoldable pub moved : ℕ → ℤ → List Question → List Question
unfolding clamped
moved i delta qs =
    let j = clamped i delta (length qs) in if eqb i j then qs else move_to i j qs (get_elem? qs i)

-- What follows a validation, by its result.
add_checked : Draft → Question → Option Error → Draft × Option Error
add_checked d q (some e) = (d, some e)
add_checked d q none = (record d { questions = d.questions ++ q ∷ [] }, none)

replace_checked : Draft → ℕ → Question → Option Error → Draft × Option Error
replace_checked d i q (some e) = (d, some e)
replace_checked d i q none = (record d { questions = set d.questions i q }, none)

module _ ⦃u : Runtime⦄ where
  unfoldable pub add : Draft → Question → Draft × Option Error
  unfolding add_checked
  add d q =
      if leb max_questions_per_survey (length d.questions)
      then (d, some draft_too_long)
      else add_checked d q (validate q)

  replace_found : Draft → Question → Option ℕ → Draft × Option Error
  replace_found d q none = (d, some question_unknown)
  replace_found d q (some i) = replace_checked d i q (validate q)

  -- The identity is set before the question is validated.
  unfoldable pub replace : Draft → Text → Question → Draft × Option Error
  unfolding replace_found replace_checked
  replace d id q = replace_found d (record q { identity_id = id }) (index_of id d.questions)

remove_found : Draft → Option ℕ → Draft × Option Error
remove_found d none = (d, some question_unknown)
remove_found d (some i) = (record d { questions = remove_at i d.questions }, none)

unfoldable pub remove : Draft → Text → Draft × Option Error
unfolding remove_found
remove d id = remove_found d (index_of id d.questions)

move_found : Draft → ℤ → Option ℕ → Draft × Option Error
move_found d delta none = (d, some question_unknown)
move_found d delta (some i) = (record d { questions = moved i delta d.questions }, none)

unfoldable pub move : Draft → Text → ℤ → Draft × Option Error
unfolding moved move_found
move d id delta = move_found d delta (index_of id d.questions)

-- The draft after a removal or a move that finds its question.
pub remove-eq :
    (d : Draft) (id : Text) (i : ℕ)
    → index_of id d.questions ≡ some i
    → remove d id ≡ (record d { questions = remove_at i d.questions }, none)
unfolding remove
remove-eq d id i h = rw (h, remove_found)

pub move-eq :
    (d : Draft) (id : Text) (delta : ℤ) (i : ℕ)
    → index_of id d.questions ≡ some i
    → move d id delta ≡ (record d { questions = moved i delta d.questions }, none)
unfolding move
move-eq d id delta i h = ap (move_found d delta) h

-- What adding a question, and replacing one, can make of the questions.
module _ ⦃u : Runtime⦄ where
  pub add-cases :
      (d : Draft) (q : Question)
      → ((add d q).0 ≡ d)
        ⊎ ((length d.questions < max_questions_per_survey)
            × (validate q ≡ none)
            × ((add d q).0 ≡ record d { questions = d.questions ++ q ∷ [] }))
  unfolding add
  add-cases d q = ground arith

  pub replace-cases :
      (d : Draft) (id : Text) (q : Question)
      → ((replace d id q).0 ≡ d)
        ⊎ ((i : ℕ) × (index_of id d.questions ≡ some i)
            × (validate (record q { identity_id = id }) ≡ none)
            × ((replace d id q).0
                ≡ record d { questions = set d.questions i (record q { identity_id = id }) }))
  unfolding replace
  replace-cases d id q = elim (Option-cases (index_of id d.questions)) [
    | inl missing ↦ inl (ground arith)
    | inr (i, at) ↦ elim (Option-cases (validate (record q { identity_id = id }))) [
      | inl fine ↦ inr (i, at, fine, rw (at, fine) refl)
      | inr (e, bad) ↦ inl (rw (at, bad) refl)
    ]
  ]

pub remove-missing :
    (d : Draft) (id : Text)
    → index_of id d.questions ≡ none
    → remove d id ≡ (d, some question_unknown)
unfolding remove
remove-missing d id h = ap (remove_found d) h

pub move-missing :
    (d : Draft) (id : Text) (delta : ℤ)
    → index_of id d.questions ≡ none
    → move d id delta ≡ (d, some question_unknown)
unfolding move
move-missing d id delta h = ap (move_found d delta) h

module _ ⦃u : Runtime⦄ where
  pub replace-eq :
      (d : Draft) (id : Text) (q : Question) (i : ℕ)
      → index_of id d.questions ≡ some i
      → validate (record q { identity_id = id }) ≡ none
      → replace d id q
        ≡ (record d { questions = set d.questions i (record q { identity_id = id }) }, none)
  unfolding replace
  replace-eq d id q i at fine = rw (at, replace_found, fine) refl
