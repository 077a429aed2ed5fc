-- ===== src/Domain/Draft/Order.antt =====
-- What `Move` of internal/domain/survey.go does to the order of the questions.
use Prim.Native.Nat.{min, ◌-◌}
use mathlib.Core.List.{Perm, perm_middle}
use mathlib.Core.List.Perm
use earful.Prelude.{
  none, refl, inl, ◌≤◌, AllDistinct, ◌+◌, get_elem?, inr, eqb_iff, ℕ, insert_at-remove_at, eqb,
  drop, arith, Bool-cases, ◌≡◌, false, take, map-insert_at, remove_at, [], eq_refl, ◌<◌,
  take-append-drop, sym, insert_at, subst, some, List, ◌∷◌, zero, remove_at-insert_at, ◌∙◌, length,
  suc, ap, contains, nat_eq, list_eq, bool_eq, length-insert_at, get_elem?-insert_at,
  AllDistinct-insert_at,
}
use earful.Domain.Question.{Question}
use earful.Domain.Draft.Types.{
  identities, index_of-get_elem?, Draft, index_of, max_questions_per_survey,
}
use earful.Domain.Draft.Edit.{move, moved, clamped, move-eq}
use earful.Prelude.Text.{Text}
use earful.Prelude.Int.{
  ℤ, int_eq, neg, ◌+ℤ◌, pos, int_eq, int_eq, int_eq, int_eq, IsInt64, wrap64_of_IsInt64, +ℤ_parts,
  pos_part, neg_part,
}

clamped-lt : (i : ℕ) (delta : ℤ) (n : ℕ) → 0 < n → clamped i delta n < n
unfolding clamped
clamped-lt i delta n h = ground arith

pub moved-eq-insert_at :
    (i : ℕ) (delta : ℤ) (qs : List Question) (q : Question)
    → get_elem? qs i ≡ some q
    → moved i delta qs ≡ insert_at (clamped i delta (length qs)) q (remove_at i qs)
unfolding moved
moved-eq-insert_at i delta qs q h = elim (Bool-cases (eqb i (clamped i delta (length qs)))) [
  | inl same ↦
      (let e : i ≡ clamped i delta (length qs) = (eqb_iff _ _).0 same in
        rw same (rw (← e) (sym (insert_at-remove_at i q qs h))))
  | inr other ↦ rw (other, h) refl
]

pub get_elem?-lt :
    (qs : List Question) (i : ℕ) (q : Question) → get_elem? qs i ≡ some q → i < length qs
get_elem?-lt [] i q h = cc
get_elem?-lt (r ∷ qs) zero q h = omega arith
get_elem?-lt (r ∷ qs) (suc i) q h = omega (arith, get_elem?-lt qs i q h)

pub length-remove_at :
    (qs : List Question) (i : ℕ) → i < length qs → length (remove_at i qs) + 1 ≡ length qs
length-remove_at [] i h = elim h [ ]
length-remove_at (q ∷ qs) zero h = omega arith
length-remove_at (q ∷ qs) (suc i) h = omega (arith, length-remove_at qs i (omega arith))

-- The identity of a question put among others that do not carry it is found where it was put.
index_of-insert_at :
    (j : ℕ) (q : Question) (qs : List Question)
    → j ≤ length qs
    → contains (identities qs) q.identity_id ≡ false
    → index_of q.identity_id (insert_at j q qs) ≡ some j
unfolding index_of contains
index_of-insert_at zero q qs h fresh = ground (arith, eq_refl q.identity_id)
index_of-insert_at (suc j) q [] h fresh = absurd (omega arith)
index_of-insert_at (suc j) q (r ∷ qs) h fresh = ground (arith, index_of-insert_at j q qs)

-- The others have distinct identities, and none has that of the question that is taken out.
pub others_differ :
    (qs : List Question) (i : ℕ) (q : Question)
    → get_elem? qs i ≡ some q
    → AllDistinct (identities qs)
    → AllDistinct (identities (remove_at i qs))
      × (contains (identities (remove_at i qs)) q.identity_id ≡ false)
others_differ qs i q h distinct =
    let back : identities qs ≡ insert_at i q.identity_id (identities (remove_at i qs)) =
      ap identities (sym (insert_at-remove_at i q qs h))
      ∙ map-insert_at (λ (r : Question). r.identity_id) i q (remove_at i qs) in
    (AllDistinct-insert_at i q.identity_id (identities (remove_at i qs))).0
      (subst AllDistinct back distinct)

insert_at-perm :
    (i j : ℕ) (q : Question) (qs : List Question)
    → get_elem? qs i ≡ some q
    → Perm (insert_at j q (remove_at i qs)) qs
insert_at-perm i j q qs h =
    let rest = remove_at i qs in
    let front : (k : ℕ) → Perm (insert_at k q rest) (q ∷ rest) = λ k.
      subst (λ r. Perm (insert_at k q rest) (q ∷ r)) (take-append-drop k rest)
        (perm_middle (take k rest) (drop k rest)) in
    subst (λ r. Perm (insert_at j q rest) r) (insert_at-remove_at i q qs h)
      (Perm.trans (front j) (Perm.symm (front i)))

-- Where the code puts the question, and that the others keep their order.
move-clamped :
    (d : Draft) (id : Text) (delta : ℤ) (i : ℕ)
    → AllDistinct (identities d.questions)
    → index_of id d.questions ≡ some i
    → let j = clamped i delta (length d.questions) in
      let after = (move d id delta).0.questions in
      (index_of id after ≡ some j)
      × (remove_at j after ≡ remove_at i d.questions)
      × Perm after d.questions
      × ((move d id delta).1 ≡ none)
unfolding move
move-clamped d id delta i distinct located =
    let (q, at, same) = index_of-get_elem? id d.questions i located in
    let qs = d.questions in
    let j = clamped i delta (length qs) in
    let rest = remove_at i qs in
    let bound = get_elem?-lt qs i q at in
    let fits : j ≤ length rest =
      omega (arith, clamped-lt i delta (length qs) (omega arith), length-remove_at qs i bound) in
    let fresh = (others_differ qs i q at distinct).1 in
    rw (move-eq d id delta i located, moved-eq-insert_at i delta qs q at)
      (
        subst (λ t. index_of t (insert_at j q rest) ≡ some j) same
            (index_of-insert_at j q rest fits fresh),
        remove_at-insert_at j q rest fits,
        insert_at-perm i j q qs at,
        refl,
      )

-- The place that is a shift away, kept within the list.
clamped-min :
    (i : ℕ) (delta : ℤ) (n : ℕ)
    → 0 < n
    → IsInt64 (pos i +ℤ delta)
    → clamped i delta n ≡ min (n - 1) (i + pos_part delta - neg_part delta)
unfolding clamped
clamped-min i delta n some_there fits =
    ground (arith, wrap64_of_IsInt64 (pos i +ℤ delta) fits, +ℤ_parts (pos i) delta)

-- Moving a question of a draft whose identities are distinct, where its place and the delta add up
-- within 64 bits, puts it the delta further, at the first place where that is before the list and at
-- the last where it is behind it; it leaves the others in their order, and reports no error.
pub move_lem :
    (d : Draft) (id : Text) (delta : ℤ) (i : ℕ)
    → AllDistinct (identities d.questions)
    → index_of id d.questions ≡ some i
    → IsInt64 (pos i +ℤ delta)
    → let j = min (length d.questions - 1) (i + pos_part delta - neg_part delta) in
      let after = (move d id delta).0.questions in
      (index_of id after ≡ some j)
      × (remove_at j after ≡ remove_at i d.questions)
      × Perm after d.questions
      × ((move d id delta).1 ≡ none)
move_lem d id delta i distinct located fits =
    let after = (move d id delta).0.questions in
    let (q, at, same) = index_of-get_elem? id d.questions i located in
    let n = length d.questions in
    let bound = get_elem?-lt d.questions i q at in
    subst
      (λ j.
        (index_of id after ≡ some j)
        × (remove_at j after ≡ remove_at i d.questions)
        × Perm after d.questions
        × ((move d id delta).1 ≡ none))
      (clamped-min i delta n (omega arith) fits) (move-clamped d id delta i distinct located)

clamped_exact :
    (i : ℕ) (delta : ℤ) (j n : ℕ)
    → pos i +ℤ delta ≡ pos j
    → j < n
    → n ≤ max_questions_per_survey
    → clamped i delta n ≡ j
unfolding clamped
clamped_exact i delta j n e h small = ground arith

shift_back : (i : ℕ) (delta : ℤ) (j : ℕ) → pos i +ℤ delta ≡ pos j → pos j +ℤ neg delta ≡ pos i
unfolding ◌+ℤ◌
shift_back i delta j e = ground arith

moved_back :
    (i j : ℕ) (delta : ℤ) (qs : List Question) (q : Question)
    → get_elem? qs i ≡ some q
    → length qs ≤ max_questions_per_survey
    → pos i +ℤ delta ≡ pos j
    → j < length qs
    → moved j (neg delta) (moved i delta qs) ≡ qs
moved_back i j delta qs q h small shift inside =
    let n = length qs in
    let rest = remove_at i qs in
    let bound = get_elem?-lt qs i q h in
    let count = length-remove_at qs i bound in
    let there : moved i delta qs ≡ insert_at j q rest =
      moved-eq-insert_at i delta qs q h
      ∙ ap (λ k. insert_at k q rest) (clamped_exact i delta j n shift inside small) in
    let same : length (insert_at j q rest) ≡ n = omega (arith, length-insert_at j q rest) in
    let home : clamped j (neg delta) (length (insert_at j q rest)) ≡ i =
      ap (clamped j (neg delta)) same
      ∙ clamped_exact j (neg delta) i n (shift_back i delta j shift) bound small in
    rw there (
      moved-eq-insert_at j (neg delta) (insert_at j q rest) q
        (get_elem?-insert_at j q rest (omega arith))
      ∙ (λ k. insert_at (home k) q (remove_at-insert_at j q rest (omega arith) k))
      ∙ insert_at-remove_at i q qs h)

-- A move that is not cut short at an end is undone by the opposite move: the draft is as it was.
pub move_back :
    (d : Draft) (id : Text) (delta : ℤ) (i j : ℕ)
    → AllDistinct (identities d.questions)
    → length d.questions ≤ max_questions_per_survey
    → index_of id d.questions ≡ some i
    → j < length d.questions
    → pos i +ℤ delta ≡ pos j
    → (move (move d id delta).0 id (neg delta)).0 ≡ d
move_back d id delta i j distinct small located inside shift =
    let (q, at, same) = index_of-get_elem? id d.questions i located in
    let d' = (move d id delta).0 in
    let exact = clamped_exact i delta j (length d.questions) shift inside small in
    let found_there : index_of id d'.questions ≡ some j =
      (move-clamped d id delta i distinct located).0 ∙ ap (λ k. some k) exact in
    let first : d' ≡ record d { questions = moved i delta d.questions } =
      ap (λ r. r.0) (move-eq d id delta i located) in
    ap (λ r. r.0) (move-eq d' id (neg delta) j found_there)
    ∙ ap (λ (x : Draft). record x { questions = moved j (neg delta) x.questions }) first
    ∙ ap (λ (qs : List Question). record d { questions = qs })
        (moved_back i j delta d.questions q at small shift inside)
