-- ===== src/Domain/Publication.antt =====
-- internal/domain/localization.go and workspace_style.go: the languages in order, and
-- `ReadyToPublish`, which holds a survey back until every language of it is reviewed.
use mathlib.Core.Option.{some-injective}
use earful.Prelude.{
  List, Bool-cases, true, ◌∷◌, if◌then◌else◌, subst, contains, some, inl, Bool, not, ◌||◌, ◌∙◌,
  none, is_nil, ◌==◌, false, ◌≡◌, arith, eq_iff, Option, [], inr, nat_eq, list_eq, bool_eq, refl,
  sym, ◌⊎◌, ◌↔◌, Option-cases, All-contains, All-of_contains, All,
}
use earful.Domain.Draft.{Draft}
use earful.Runtime.{Runtime}
use earful.Domain.WorkspaceStyle.{WorkspaceStyle, unread}
use earful.Domain.StyleLanguages.{style_pending, account_style_pending}
use earful.Domain.Errors.{Error, unreviewed_translation, account_style_translation}
use earful.Domain.Draft.Languages.Thanks.{thanks_pending}
use earful.Domain.Draft.Languages.Pending.{pending}
use earful.Prelude.Dict.{keys, lookup, contains-keys, found}
use earful.Prelude.Text.{Text}
use earful.Prelude.Text.Sort.{sort_strings, contains-sort_strings}
use earful.Domain.Question.{Question}

-- `Draft.Languages`
unfoldable pub languages : Draft → List Text
languages d = sort_strings (keys d.localizations)

-- `WorkspaceStyle.Languages`
unfoldable pub account_languages : WorkspaceStyle → List Text
account_languages w = sort_strings (keys w.translations)

-- A test that some text of a list meets, as a loop with a return in it runs it.
unfoldable pub first_with : (Text → Bool) → List Text → Option Text
first_with p [] = none
first_with p (t ∷ ts) = let rest = first_with p ts in if p t then some t else rest

module _ ⦃u : Runtime⦄ where
  unfoldable pub unreviewed_in : Draft → Text → Bool
  unreviewed_in d lang =
      not (is_nil (pending d lang)) || thanks_pending d lang || style_pending d lang

  second_loop : Option Text → Option Error
  second_loop none = none
  second_loop (some lang) = some (account_style_translation lang)

  unfoldable pub first_loop : Draft → WorkspaceStyle → Option Text → Option Error
  unfolding second_loop
  first_loop d account (some lang) = some unreviewed_translation
  first_loop d account none =
      second_loop (first_with (account_style_pending d account) (languages d))

  unfoldable pub ready_to_publish : Draft → WorkspaceStyle → Option Error
  unfolding unreviewed_in first_loop
  ready_to_publish d account = first_loop d account (first_with (unreviewed_in d) (languages d))

  -- A language that the draft holds is reviewed in every respect.
  pub record IsReviewed (d : Draft) (account : WorkspaceStyle) (lang : Text) : Type 0 where
    pub questions : pending d lang ≡ []
    pub thanks : thanks_pending d lang ≡ false
    pub style : style_pending d lang ≡ false
    pub account_style : account_style_pending d account lang ≡ false

  pub contains-languages :
      (d : Draft) (lang : Text) → contains (languages d) lang ≡ found (lookup lang d.localizations)
  unfolding languages
  contains-languages d lang =
      contains-sort_strings (keys d.localizations) lang ∙ contains-keys lang d.localizations

  first_with-none :
      (p : Text → Bool) (ts : List Text) (t : Text)
      → first_with p ts ≡ none
      → contains ts t ≡ true
      → p t ≡ false
  unfolding first_with contains
  first_with-none p [] t h there = absurd (ground arith)
  first_with-none p (s ∷ ts) t h there = elim (Bool-cases (s == t)) [
    | inl same ↦ subst (λ x. p x ≡ false) ((eq_iff s t).0 same) (ground arith)
    | inr other ↦ first_with-none p ts t (ground arith) (ground arith)
  ]

  pub first_with-some :
      (p : Text → Bool) (ts : List Text) (t : Text)
      → first_with p ts ≡ some t
      → (contains ts t ≡ true) × (p t ≡ true)
  unfolding first_with contains
  first_with-some p [] t h = absurd (ground arith)
  first_with-some p (s ∷ ts) t h = elim (Bool-cases (p s)) [
    | inl here ↦
        (let same : s ≡ t = some-injective s t (ground (arith, here)) in
          (ground (arith, eq_iff s t), subst (λ x. p x ≡ true) same here))
    | inr other ↦ ground (arith, first_with-some p ts t)
  ]

  reviewed_in :
      (d : Draft) (lang : Text)
      → unreviewed_in d lang ≡ false
      → (pending d lang ≡ []) × (thanks_pending d lang ≡ false) × (style_pending d lang ≡ false)
  unfolding unreviewed_in
  reviewed_in d lang h = elim (nil_cases (pending d lang)) [
    | inl empty_list ↦ (empty_list, ground arith, ground arith)
    | inr filled ↦ absurd (ground (arith, filled))
  ]
    where
      nil_cases : (qs : List Question) → (qs ≡ []) ⊎ (is_nil qs ≡ false)
      nil_cases [] = inl refl
      nil_cases (q ∷ qs) = inr refl

  ready-IsReviewed :
      (d : Draft) (account : WorkspaceStyle)
      → ready_to_publish d account ≡ none
      → (lang : Text) → found (lookup lang d.localizations) ≡ true
      → IsReviewed d account lang
  unfolding ready_to_publish
  ready-IsReviewed d account h lang there =
      let held = contains-languages d lang ∙ there in
      elim (Option-cases (first_with (unreviewed_in d) (languages d))) [
        | inr (l, unread) ↦ absurd (ground arith)
        | inl read ↦
            elim (Option-cases (first_with (account_style_pending d account) (languages d))) [
              | inr (l, unread) ↦ absurd (ground arith)
              | inl followed ↦
                  (let own =
                      reviewed_in d lang
                        (first_with-none (unreviewed_in d) (languages d) lang read held) in
                    record {
                      questions = own.0;
                      thanks = own.1;
                      style = own.2;
                      account_style =
                          first_with-none (account_style_pending d account) (languages d) lang
                            followed held;
                    })
            ]
      ]

  ready_of-IsReviewed :
      (d : Draft) (account : WorkspaceStyle)
      → ((lang : Text) → found (lookup lang d.localizations) ≡ true → IsReviewed d account lang)
      → ready_to_publish d account ≡ none
  unfolding ready_to_publish
  ready_of-IsReviewed d account h =
      elim (Option-cases (first_with (unreviewed_in d) (languages d))) [
        | inr (lang, unread) ↦
            (let at = first_with-some (unreviewed_in d) (languages d) lang unread in
              let r = h lang (sym (contains-languages d lang) ∙ at.0) in
              let own : unreviewed_in d lang ≡ false =
                rw (unreviewed_in, r.questions, r.thanks, r.style) refl in
              absurd (ground (arith, at.1, own)))
        | inl read ↦
            elim (Option-cases (first_with (account_style_pending d account) (languages d))) [
              | inr (lang, unread) ↦
                  (let at =
                      first_with-some (account_style_pending d account) (languages d) lang unread in
                    let r = h lang (sym (contains-languages d lang) ∙ at.0) in
                    absurd (ground (arith, at.1, r.account_style)))
              | inl followed ↦ rw (read, first_loop, followed) refl
            ]
      ]

  -- A survey is ready to publish exactly when, in every language that it has, no question is pending,
  -- nor its thank you page, nor the words of its own style, nor the words that it follows from its
  -- account.
  pub ready_to_publish-IsReviewed :
      (d : Draft) (account : WorkspaceStyle)
      → (ready_to_publish d account ≡ none) ↔ All (IsReviewed d account) (keys d.localizations)
  ready_to_publish-IsReviewed d account = (
    λ ready. All-of_contains (IsReviewed d account) (keys d.localizations) (λ lang held.
        ready-IsReviewed d account ready lang (sym (contains-keys lang d.localizations) ∙ held)),
    λ all. ready_of-IsReviewed d account (λ lang there.
        All-contains (IsReviewed d account) (keys d.localizations) lang all
          (contains-keys lang d.localizations ∙ there)),
  )

  -- A survey is held back in the name of its account's style only where nothing of its own is left to
  -- review in any of its languages, and in a language that it has, in which words that it follows are
  -- pending.
  pub ready_to_publish-account :
      (d : Draft) (account : WorkspaceStyle) (lang other : Text)
      → ready_to_publish d account ≡ some (account_style_translation lang)
      → found (lookup other d.localizations) ≡ true
      → (found (lookup lang d.localizations) ≡ true)
        × (account_style_pending d account lang ≡ true)
        × (unreviewed_in d other ≡ false)
  unfolding ready_to_publish
  ready_to_publish-account d account lang other h there =
      elim (Option-cases (first_with (unreviewed_in d) (languages d))) [
        | inr (l, unread) ↦ absurd (ground arith)
        | inl read ↦
            elim (Option-cases (first_with (account_style_pending d account) (languages d))) [
              | inl followed ↦ absurd (ground arith)
              | inr (l, unread) ↦
                  (let at =
                      first_with-some (account_style_pending d account) (languages d) l unread in
                    let same : l ≡ lang = ground (arith, unread, h) in
                    (
                      sym (contains-languages d lang)
                          ∙ subst (λ x. contains (languages d) x ≡ true) same at.0,
                      subst (λ x. account_style_pending d account x ≡ true) same at.1,
                      first_with-none (unreviewed_in d) (languages d) other read
                          (contains-languages d other ∙ there),
                    ))
            ]
      ]

  -- With nothing of its own to review, only the account's style holds a survey back.
  pub ready_to_publish_read :
      (d : Draft) (account : WorkspaceStyle)
      → first_with (unreviewed_in d) (languages d) ≡ none
      → (ready_to_publish d account ≡ none)
        ⊎ ((lang : Text) × (ready_to_publish d account ≡ some (account_style_translation lang))
            × (account_style_pending d account lang ≡ true))
  unfolding ready_to_publish
  ready_to_publish_read d account read =
      elim (Option-cases (first_with (account_style_pending d account) (languages d))) [
        | inl followed ↦ inl (rw (read, first_loop, followed) refl)
        | inr (lang, behind) ↦ inr (
          lang,
          rw (read, first_loop, behind) refl,
          (first_with-some (account_style_pending d account) (languages d) lang behind).1,
        )
      ]
