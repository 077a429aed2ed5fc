-- ===== src/Domain/Draft/Languages/Pending.antt =====
-- internal/domain/localization.go: `Pending`, the questions that a language has not been reviewed in,
-- and what the other operations make of it.
use mathlib.Core.Option.{some-injective}
use Prim.Native.Nat.{ℕ}
use mathlib.Core.Path.{refl}
use earful.Runtime.{Runtime}
use earful.Prelude.{
  List, ◌∷◌, some, true, AllDistinct, ◌||◌, All, ◌==◌, not, Bool, if◌then◌else◌, get_elem?, Option,
  none, ◌&&◌, ◌≡◌, contains, false, eq_iff, arith, [], nat_eq, list_eq, bool_eq, ◌≤◌,
  insert_at-remove_at, subst, All-insert_at, remove_at, ◌≢◌, ◌∙◌, ap, sym, suc, eq_refl, set, zero,
  get_elem?-set_self,
}
use earful.Domain.Localization.{Localization, LocalizedQuestion}
use earful.Domain.Language.{normalize_lang}
use earful.Domain.Question.{Question, validate}
use earful.Domain.Draft.Types.{Draft, identities, index_of, index_of-get_elem?}
use earful.Prelude.Dict.{
  lookup, Dict, insert, size, empty, lookup-empty, lookup-insert, size-insert_le,
  lookup-insert_self, found,
}
use earful.Prelude.Text.{Text, trim_space}
use earful.Domain.Draft.Languages.{
  add_language, max_languages_per_survey, set_translation, new_localization, put_localization,
  set_translation-eq, add_language-eq,
}
use earful.Domain.Draft.Order.{others_differ, get_elem?-lt}
use earful.Domain.Draft.Edit.{replace-eq, replace}

-- The condition of `Pending`, by what the language holds for the question.
unfoldable pub unreviewed : Option LocalizedQuestion → Text → Bool
unreviewed none text = true
unreviewed (some t) text = not t.reviewed || not (t.source_text == text)

abbrev pub needs_review : Dict LocalizedQuestion → Question → Bool
needs_review translations q = unreviewed (lookup q.identity_id translations) q.text

abbrev pub select : (Question → Bool) → List Question → List Question
select p [] = []
select p (q ∷ qs) = let rest = select p qs in if p q then q ∷ rest else rest

unfoldable pub pending_in : Option Localization → List Question → List Question
pending_in none qs = []
pending_in (some l) qs = select (needs_review l.questions) qs

-- Every question but those with the identity.
abbrev pub others : Text → List Question → List Question
others id qs = select (λ q. not (q.identity_id == id)) qs

module _ ⦃u : Runtime⦄ where
  unfoldable pub pending : Draft → Text → List Question
  unfolding pending_in unreviewed
  pending d lang = pending_in (lookup (normalize_lang lang) d.localizations) d.questions

select_congr :
    (p r : Question → Bool) (qs : List Question)
    → All (λ q. p q ≡ r q) qs
    → select p qs ≡ select r qs
select_congr p r [] h = refl
select_congr p r (q ∷ qs) h = ground (arith, select_congr p r qs h.1)

select-select :
    (p r : Question → Bool) (qs : List Question)
    → select p (select r qs) ≡ select (λ q. p q && r q) qs
select-select p r [] = refl
select-select p r (q ∷ qs) = ground (arith, select-select p r qs)

select-All :
    (p : Question → Bool) (qs : List Question) → All (λ q. p q ≡ true) qs → select p qs ≡ qs
select-All p [] h = refl
select-All p (q ∷ qs) h = ground (arith, select-All p qs h.1)

-- The questions with an identity have the text of the one at the index.
SameText : Text → Text → List Question → Type 0
SameText id text qs = All (λ (r : Question). r.identity_id ≡ id → r.text ≡ text) qs

SameText-absent :
    (id text : Text) (qs : List Question)
    → contains (identities qs) id ≡ false
    → SameText id text qs
unfolding SameText contains
SameText-absent id text [] h = tt
SameText-absent id text (r ∷ qs) h = (
  (λ e. absurd (ground (arith, eq_iff r.identity_id id))),
  SameText-absent id text qs (ground arith),
)

SameText-of_distinct :
    (qs : List Question) (id : Text) (i : ℕ) (q : Question)
    → AllDistinct (identities qs)
    → get_elem? qs i ≡ some q
    → q.identity_id ≡ id
    → SameText id q.text qs
unfolding SameText
SameText-of_distinct qs id i q distinct at same =
    let fresh : contains (identities (remove_at i qs)) id ≡ false =
      subst (λ k. contains (identities (remove_at i qs)) k ≡ false) same
        (others_differ qs i q at distinct).1 in
    subst (SameText id q.text) (insert_at-remove_at i q qs at) (
      All-insert_at (λ (r : Question). r.identity_id ≡ id → r.text ≡ q.text) i q (remove_at i qs)
        (λ e. refl) (SameText-absent id q.text (remove_at i qs) fresh))

-- Reading one translation takes the questions with its identity off the list.
review_one :
    (ts : Dict LocalizedQuestion) (id : Text) (t : LocalizedQuestion) (qs : List Question)
    → t.reviewed ≡ true
    → SameText id t.source_text qs
    → All
        (λ q. needs_review (insert id t ts) q ≡ (not (q.identity_id == id) && needs_review ts q))
        qs
unfolding SameText unreviewed
review_one ts id t [] h same = tt
review_one ts id t (q ∷ qs) h same = (
  rw lookup-insert (
      ground (
        arith,
        same.0,
        eq_iff q.identity_id id,
        eq_iff id q.identity_id,
        eq_iff t.source_text q.text,
      )),
  review_one ts id t qs h same.1,
)

none_translated : (qs : List Question) → All (λ q. needs_review empty q ≡ true) qs
unfolding unreviewed
none_translated [] = tt
none_translated (q ∷ qs) = (rw lookup-empty refl, none_translated qs)

module _ ⦃u : Runtime⦄ where
  pending_of :
      (d : Draft) (lang : Text) (l : Localization)
      → lookup (normalize_lang lang) d.localizations ≡ some l
      → pending d lang ≡ select (needs_review l.questions) d.questions
  unfolding pending
  pending_of d lang l h = rw h refl

  pending_put :
      (d : Draft) (lang : Text) (l : Localization)
      → pending (put_localization d (normalize_lang lang) l) lang
        ≡ select (needs_review l.questions) d.questions
  pending_put d lang l =
      pending_of (put_localization d (normalize_lang lang) l) lang l
        (lookup-insert_self (normalize_lang lang) l d.localizations)

  pending_put_other :
      (d : Draft) (lang other : Text) (l : Localization)
      → normalize_lang other ≢ normalize_lang lang
      → pending (put_localization d (normalize_lang lang) l) other ≡ pending d other
  unfolding pending
  pending_put_other d lang other l ne =
      rw lookup-insert (ground (arith, eq_iff (normalize_lang lang) (normalize_lang other)))

  -- A reviewed translation of a question of the draft, in a language of the draft, takes that
  -- question, and no other, off the questions that are pending in the language, and leaves those
  -- pending in every other language as they were, when no identity is on the draft twice.
  pub set_translation-pending :
      (d : Draft) (lang other id text : Text) (options : List Text) (l : Localization) (i : ℕ)
      → AllDistinct (identities d.questions)
      → lookup (normalize_lang lang) d.localizations ≡ some l
      → index_of id d.questions ≡ some i
      → normalize_lang other ≢ normalize_lang lang
      → (pending (set_translation d lang id text options true).0 lang ≡ others id (pending d lang))
        × (pending (set_translation d lang id text options true).0 other ≡ pending d other)
  set_translation-pending d lang other id text options l i distinct there at ne =
      let q = index_of-get_elem? id d.questions i at in
      let t : LocalizedQuestion = record {
        text = trim_space text;
        options = options;
        reviewed = true;
        source_text = q.0.text;
      } in
      let same = SameText-of_distinct d.questions id i q.0 distinct q.1 q.2 in
      rw (set_translation-eq d lang id text options true l i q.0 there at q.1) (
        pending_put d lang (record l { questions = insert id t l.questions })
            ∙ select_congr (needs_review (insert id t l.questions)) _ d.questions
                (review_one l.questions id t d.questions refl same)
            ∙ sym (
                select-select (λ r. not (r.identity_id == id)) (needs_review l.questions)
                  d.questions)
            ∙ sym (ap (others id) (pending_of d lang l there)),
        pending_put_other d lang other _ ne,
      )

  -- A language that is added has every question of the draft pending and leaves the questions pending
  -- in another language as they were, and the draft then has at most ten languages.
  pub add_language-pending :
      (d d2 : Draft) (lang other : Text)
      → add_language d lang ≡ (d2, none)
      → normalize_lang other ≢ normalize_lang lang
      → (pending d2 lang ≡ d.questions)
        × (pending d2 other ≡ pending d other)
        × (size d2.localizations ≤ max_languages_per_survey)
  add_language-pending d d2 lang other h ne =
      let n = normalize_lang lang in
      let after = add_language-eq d d2 lang h in
      rw after.0 (
        pending_put d lang (new_localization n)
            ∙ select-All (needs_review empty) d.questions (none_translated d.questions),
        pending_put_other d lang other _ ne,
        omega (arith, size-insert_le n (new_localization n) d.localizations, after.1),
      )

contains-select :
    (p : Question → Bool) (qs : List Question) (i : ℕ) (q : Question)
    → get_elem? qs i ≡ some q
    → p q ≡ true
    → contains (identities (select p qs)) q.identity_id ≡ true
unfolding contains
contains-select p [] i q at h = absurd (ground arith)
contains-select p (r ∷ qs) zero q at h =
    let e : r ≡ q = some-injective r q at in rw (e, h, eq_refl q.identity_id) refl
contains-select p (r ∷ qs) (suc i) q at h = ground (arith, contains-select p qs i q at h)

module _ ⦃u : Runtime⦄ where
  -- A question of the draft that is replaced by a valid one with another text is pending in every
  -- language of the draft that holds a translation of the text it had.
  pub replace-pending :
      (d : Draft) (lang : Text) (q old : Question) (l : Localization) (t : LocalizedQuestion)
      (i : ℕ)
      → index_of q.identity_id d.questions ≡ some i
      → get_elem? d.questions i ≡ some old
      → validate q ≡ none
      → lookup (normalize_lang lang) d.localizations ≡ some l
      → lookup q.identity_id l.questions ≡ some t
      → t.source_text ≡ old.text
      → q.text ≢ old.text
      → contains (identities (pending (replace d q.identity_id q).0 lang)) q.identity_id ≡ true
  unfolding unreviewed
  replace-pending d lang q old l t i at found fine there held made other =
      let d2 : Draft = record d { questions = set d.questions i q } in
      let put : replace d q.identity_id q ≡ (d2, none) = replace-eq d q.identity_id q i at fine in
      rw (put, pending_of d2 lang l there)
        (contains-select (needs_review l.questions) (set d.questions i q) i q
          (get_elem?-set_self d.questions i q (get_elem?-lt d.questions i old found))
          (rw held (ground (arith, eq_iff t.source_text q.text))))
