-- ===== src/Domain/Draft/Keeps.antt =====
-- The invariant of a draft that is edited by `Add`, `Replace`, `Remove` and `Move`.
use mathlib.Core.List.{map-append, append-nil}
use Prim.Native.Nat.{ℕ}
use earful.Runtime.{Runtime}
use earful.Prelude.{
  contains, All, length, ◌≡◌, false, ◌≤◌, AllDistinct, nat_eq, list_eq, bool_eq, length-set, [],
  ◌++◌, All-set, ◌∷◌, length-append, map-set, ◌∙◌, insert_at, get_elem?, set, ◌<◌, arith, set_same,
  AllDistinct-middle, get_elem?-map, List, some, All-append, remove_at, ap, inl, All-remove_at,
  length-insert_at, map-insert_at, Option-cases, inr, All-insert_at, AllDistinct-insert_at,
  All-get_elem?, Option, sym, subst,
}
use earful.Domain.Question.{Question}
use earful.Domain.Question.Validate.Valid.{WellFormed, validate-WellFormed}
use earful.Domain.Draft.Types.{
  identities, Draft, max_questions_per_survey, index_of-get_elem?, index_of,
}
use earful.Domain.Draft.Edit.{
  move, add, replace, remove, replace-cases, move-eq, remove-missing, clamped, add-cases,
  move-missing, remove-eq,
}
use earful.Prelude.Text.{Text}
use earful.Prelude.Int.{ℤ, int_eq, int_eq, int_eq, int_eq}
use earful.Domain.Draft.Order.{length-remove_at, others_differ, get_elem?-lt, moved-eq-insert_at}
use earful.Domain.Errors.{Error}

module _ ⦃u : Runtime⦄ where
  -- At most 100 questions, each valid, no identity twice.
  pub record IsValid (qs : List Question) : Type 0 where
    pub within : length qs ≤ max_questions_per_survey
    pub well : All WellFormed qs
    pub distinct : AllDistinct (identities qs)

  -- An edit as a creator makes it.
  pub data DraftEdit : Type 0 where
    add_question : Question → DraftEdit
    replace_question : Text → Question → DraftEdit
    remove_question : Text → DraftEdit
    move_question : Text → ℤ → DraftEdit

  pub edited : Draft → DraftEdit → Draft
  edited d (add_question q) = (add d q).0
  edited d (replace_question id q) = (replace d id q).0
  edited d (remove_question id) = (remove d id).0
  edited d (move_question id delta) = (move d id delta).0

  -- The identity of a question that is added is minted: no question of the draft has it.
  abbrev pub IsMinted : Draft → DraftEdit → Type 0
  IsMinted d (add_question q) = contains (identities d.questions) q.identity_id ≡ false
  IsMinted d _ = Unit {0}

  append-IsValid :
      (qs : List Question) (q : Question)
      → IsValid qs
      → length qs < max_questions_per_survey
      → WellFormed q
      → contains (identities qs) q.identity_id ≡ false
      → IsValid (qs ++ q ∷ [])
  append-IsValid qs q v room well fresh = record {
    within = omega (arith, length-append qs (q ∷ []));
    well = All-append WellFormed qs (q ∷ []) v.well (well, tt);
    distinct = rw (map-append (λ (r : Question). r.identity_id) qs (q ∷ [])) (
        (AllDistinct-middle (identities qs) [] q.identity_id).1
          (rw append-nil (v.distinct, fresh)));
  }

  set-IsValid :
      (qs : List Question) (i : ℕ) (q : Question) (old : Question)
      → IsValid qs
      → get_elem? qs i ≡ some old
      → old.identity_id ≡ q.identity_id
      → WellFormed q
      → IsValid (set qs i q)
  set-IsValid qs i q old v at same well = record {
    within = rw (length-set qs i q) v.within;
    well = All-set WellFormed qs i q well v.well;
    distinct =
        rw
          (
            map-set (λ (r : Question). r.identity_id) qs i q,
            set_same (identities qs) i q.identity_id (
                get_elem?-map (λ (r : Question). r.identity_id) qs i old at
                ∙ ap (λ k. some k) same),
          )
          v.distinct;
  }

  remove_at-IsValid :
      (qs : List Question) (i : ℕ) (q : Question)
      → IsValid qs
      → get_elem? qs i ≡ some q
      → IsValid (remove_at i qs)
  remove_at-IsValid qs i q v at = record {
    within = omega (arith, v.within, length-remove_at qs i (get_elem?-lt qs i q at));
    well = All-remove_at WellFormed i qs v.well;
    distinct = (others_differ qs i q at v.distinct).0;
  }

  insert_at-IsValid :
      (qs : List Question) (i j : ℕ) (q : Question)
      → IsValid qs
      → get_elem? qs i ≡ some q
      → IsValid (insert_at j q (remove_at i qs))
  insert_at-IsValid qs i j q v at =
      let rest = remove_at i qs in
      record {
        within = omega (
          arith,
          v.within,
          length-remove_at qs i (get_elem?-lt qs i q at),
          length-insert_at j q rest,
        );
        well =
            All-insert_at WellFormed j q rest (All-get_elem? WellFormed qs i q at v.well)
              (All-remove_at WellFormed i qs v.well);
        distinct = rw (map-insert_at (λ (r : Question). r.identity_id) j q rest) (
            (AllDistinct-insert_at j q.identity_id (identities rest)).1
              (others_differ qs i q at v.distinct));
      }

  kept_by : {r s : Draft × Option Error} → r ≡ s → IsValid s.0.questions → IsValid r.0.questions
  kept_by e v = subst (λ (t : Draft × Option Error). IsValid t.0.questions) (sym e) v

  edited-IsValid :
      (d : Draft) (e : DraftEdit)
      → IsValid d.questions
      → IsMinted d e
      → IsValid (edited d e).questions
  unfolding edited
  edited-IsValid d (add_question q) v fresh = elim (add-cases d q) [
    | inl same ↦ rw same v
    | inr (room, fine, grown) ↦
        rw grown (append-IsValid d.questions q v room ((validate-WellFormed q).0 fine) fresh)
  ]
  edited-IsValid d (replace_question id q) v m = elim (replace-cases d id q) [
    | inl same ↦ rw same v
    | inr (i, at, fine, changed) ↦
        (let (old, there, named) = index_of-get_elem? id d.questions i at in
          let q' = record q { identity_id = id } in
          rw changed
            (set-IsValid d.questions i q' old v there named ((validate-WellFormed q').0 fine)))
  ]
  edited-IsValid d (remove_question id) v m = elim (Option-cases (index_of id d.questions)) [
    | inl none_there ↦ kept_by (remove-missing d id none_there) v
    | inr (i, at) ↦
        (let (q, there, named) = index_of-get_elem? id d.questions i at in
          kept_by (remove-eq d id i at) (remove_at-IsValid d.questions i q v there))
  ]
  edited-IsValid d (move_question id delta) v m = elim (Option-cases (index_of id d.questions)) [
    | inl none_there ↦ kept_by (move-missing d id delta none_there) v
    | inr (i, at) ↦
        (let (q, there, named) = index_of-get_elem? id d.questions i at in
          kept_by (move-eq d id delta i at) (
            rw (moved-eq-insert_at i delta d.questions q there)
              (insert_at-IsValid d.questions i (clamped i delta (length d.questions)) q v there)))
  ]

  -- A session of edits, one after another.
  pub edited_by : Draft → List DraftEdit → Draft
  edited_by d [] = d
  edited_by d (e ∷ es) = edited_by (edited d e) es

  abbrev pub AllMinted : Draft → List DraftEdit → Type 0
  AllMinted d [] = Unit {0}
  AllMinted d (e ∷ es) = IsMinted d e × AllMinted (edited d e) es

  -- Whatever is added, replaced, removed and moved, a valid draft keeps at most 100 questions, each
  -- well formed, and no identity twice, where each added question brings an identity of its own.
  pub edited_by-IsValid :
      (d : Draft) (es : List DraftEdit)
      → IsValid d.questions
      → AllMinted d es
      → IsValid (edited_by d es).questions
  unfolding edited_by
  edited_by-IsValid d [] v m = v
  edited_by-IsValid d (e ∷ es) v m =
      edited_by-IsValid (edited d e) es (edited-IsValid d e v m.0) m.1
