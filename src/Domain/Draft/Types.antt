-- ===== src/Domain/Draft/Types.antt =====
-- internal/domain/survey.go: `Draft` and `IndexOf`; internal/domain/style_choice.go: `StyleChoice`.
use Prim.Native.Nat.{ℕ}
use earful.Prelude.{
  suc, some, contains, inr, Option-cases, map, ◌==◌, [], inl, List, ◌∷◌, length, none, ◌<◌,
  Bool-cases, refl, false, Option, ◌≡◌, eq_iff, if◌then◌else◌, Bool, get_elem?, arith, nat_eq,
  list_eq, bool_eq,
}
use earful.Domain.Localization.{Localization}
use earful.Domain.Thanks.{no_thanks, ThankYou}
use earful.Domain.Errors.{limit_questions, Error, limit}
use earful.Domain.Question.{Question}
use earful.Domain.Style.{no_parts, StyleParts, no_style, Style}
use earful.Prelude.Dict.{Dict, empty}
use earful.Prelude.Text.{Text}

pub record StyleChoice : Type 0 where
  pub own : StyleParts
  pub no_header : Bool
  pub no_footer : Bool

pub record Draft : Type 0 where
  pub questions : List Question
  pub localizations : Dict Localization
  pub thanks : ThankYou
  pub style : Style
  pub style_choice : StyleChoice

abbrev pub no_choice : StyleChoice
no_choice = record { own = no_parts; no_header = false; no_footer = false }

abbrev pub new_draft : Draft
new_draft = record {
  questions = [];
  localizations = empty;
  thanks = no_thanks;
  style = no_style;
  style_choice = no_choice;
}

abbrev pub max_questions_per_survey : ℕ
max_questions_per_survey = 100

abbrev pub draft_too_long : Error
draft_too_long = limit limit_questions max_questions_per_survey

abbrev pub add_one : Option ℕ → Option ℕ
add_one none = none
add_one (some i) = some (suc i)

-- `IndexOf`: the place of the first question with the identity.
unfoldable pub index_of : Text → List Question → Option ℕ
index_of id [] = none
index_of id (q ∷ qs) = if q.identity_id == id then some 0 else add_one (index_of id qs)

-- The identities, in order.
abbrev pub identities : List Question → List Text
identities qs = map (λ q. q.identity_id) qs

pub index_of-lt : (id : Text) (qs : List Question) (i : ℕ) → index_of id qs ≡ some i → i < length qs
unfolding index_of
index_of-lt id [] i h = cc
index_of-lt id (q ∷ qs) i h = elim (Option-cases (index_of id qs)) [
  | inl e ↦ ground arith
  | inr (j, e) ↦ (let lower = index_of-lt id qs j e in ground arith)
]

-- The question found carries the identity, and no question before it does.
pub index_of-get_elem? :
    (id : Text) (qs : List Question) (i : ℕ)
    → index_of id qs ≡ some i
    → (q : Question) × (get_elem? qs i ≡ some q) × (q.identity_id ≡ id)
unfolding index_of
index_of-get_elem? id [] i h = cc
index_of-get_elem? id (q ∷ qs) i h = elim (Bool-cases (q.identity_id == id)) [
  | inl same ↦ (let e : i ≡ 0 = ground arith in (q, rw e refl, (eq_iff q.identity_id id).0 same))
  | inr other ↦ elim (Option-cases (index_of id qs)) [
    | inl e ↦ absurd (ground arith)
    | inr (j, e) ↦
        (let there = index_of-get_elem? id qs j e in
          let k : i ≡ suc j = ground arith in (there.0, rw k there.1, there.2))
  ]
]

pub index_of-none :
    (id : Text) (qs : List Question) → index_of id qs ≡ none → contains (identities qs) id ≡ false
unfolding index_of contains
index_of-none id [] h = refl
index_of-none id (q ∷ qs) h = ground (arith, index_of-none id qs)
