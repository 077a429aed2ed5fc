-- ===== src/Domain/StyleRefresh/Reviewed.antt =====
-- internal/domain/style_refresh.go: the draft of a version has nothing of its own left to review in a
-- language that the version went out in.
use earful.Domain.Style.Words.{words_eq}
use earful.Prelude.{
  List, arith, ◌||◌, refl, ◌∙◌, contains, is_nil, if◌then◌else◌, false, AllDistinct, [], ◌&&◌, not,
  true, ◌≡◌, ◌∷◌, some, nat_eq, list_eq, bool_eq, inr, Bool, ◌==◌, Bool-cases, eq_iff, eq_refl, inl,
  Option, none, Option-cases, ap,
}
use earful.Domain.StyleRefresh.{
  PublishedVersion, version_base, read_questions, localized_in, version_languages,
  version_localization, read_question, version_draft, read_thanks,
}
use earful.Runtime.{Runtime}
use earful.Domain.Localization.{LocalizedQuestion, Localization}
use earful.Domain.Thanks.{ThankYou}
use earful.Domain.Language.{normalize_lang}
use earful.Domain.Draft.{identities, Draft}
use earful.Domain.Question.{Question}
use earful.Domain.StyleChoice.{own_style_words, own_word_parts}
use earful.Domain.Style.{covers, StyleWords, only, words_is_zero}
use earful.Prelude.Dict.{Dict, lookup, insert, lookup-insert, lookup-insert_self, empty}
use earful.Prelude.Text.{Text}
use earful.Domain.Draft.Languages.Pending.{unreviewed, select, needs_review, pending}
use earful.Domain.StyleLanguages.{
  style_pending, own_word_parts-kept, style_pending_in, own_style_words-kept, only-own_style_words,
  only-only,
}
use earful.Domain.Draft.Languages.Thanks.{
  thanks_pending, translation_pending, pending_in_language, has_thanks_to_translate,
}
use earful.Domain.WorkspaceStyle.{unread}

module _ ⦃u : Runtime⦄ where
  -- What a version went out with: questions with identities of their own, codes of languages as they
  -- are stored, and in each translation it has, a word for every word of the page.
  pub record IsPublished (v : PublishedVersion) : Type 0 where
    pub distinct : AllDistinct (identities v.questions)
    pub codes_stored :
        (lang : Text) → contains (version_languages v) lang ≡ true → normalize_lang lang ≡ lang
    pub thanks_whole :
        (lang : Text) (t : ThankYou)
        → lookup lang v.thanks_translations ≡ some t
        → ((not (is_nil v.thanks.message) && is_nil t.message)
            || (not (is_nil v.thanks.link_label) && is_nil t.link_label))
          ≡ false
    pub style_labelled :
        covers (own_style_words (version_base v)) (own_style_words (version_base v)) ≡ true
    pub style_whole :
        (lang : Text) (w : StyleWords)
        → lookup lang v.style_translations ≡ some w
        → covers (only w (own_word_parts (version_base v))) (own_style_words (version_base v))
          ≡ true

  pub lookup-localized_in :
      (v : PublishedVersion) (langs : List Text) (m : Dict Localization) (lang : Text)
      → lookup lang (localized_in v langs m)
        ≡ (if contains langs lang then some (version_localization v lang) else lookup lang m)
  unfolding localized_in contains
  lookup-localized_in v [] m lang = refl
  lookup-localized_in v (l ∷ langs) m lang =
      lookup-localized_in v langs (insert l (version_localization v l) m) lang
      ∙ (elim (Bool-cases (l == lang)) [
        | inl same ↦
            rw ((eq_iff l lang).0 same, lookup-insert_self, eq_refl lang)
              (either (contains langs lang))
        | inr other ↦ rw (lookup-insert, other) refl
      ])
    where
      either : {A : Type 0} {a : A} (b : Bool) → (if b then a else a) ≡ a
      either true = refl
      either false = refl

  -- Reading other questions leaves what is there for an identity.
  lookup-read_questions :
      (words : Dict LocalizedQuestion) (qs : List Question) (id : Text) (m : Dict LocalizedQuestion)
      → contains (identities qs) id ≡ false
      → lookup id (read_questions words qs m) ≡ lookup id m
  unfolding read_questions contains
  lookup-read_questions words [] id m h = refl
  lookup-read_questions words (q ∷ qs) id m h =
      let other : (q.identity_id == id) ≡ false = ground arith in
      lookup-read_questions words qs id (insert q.identity_id _ m) (ground arith)
      ∙ rw (lookup-insert, other) refl

  read_now :
      (q : Question) (o : Option LocalizedQuestion)
      → unreviewed (some (read_question q o)) q.text ≡ false
  unfolding unreviewed read_question
  read_now q none = rw (eq_refl q.text) refl
  read_now q (some t) = rw (eq_refl q.text) refl

  -- Every question is read.
  read_questions-reviewed :
      (words : Dict LocalizedQuestion) (qs : List Question) (m : Dict LocalizedQuestion)
      → AllDistinct (identities qs)
      → select (needs_review (read_questions words qs m)) qs ≡ []
  unfolding read_questions
  read_questions-reviewed words [] m h = refl
  read_questions-reviewed words (q ∷ qs) m h =
      let t = read_question q (lookup q.identity_id words) in
      let there : lookup q.identity_id (read_questions words (q ∷ qs) m) ≡ some t =
        lookup-read_questions words qs q.identity_id (insert q.identity_id t m) h.0
        ∙ lookup-insert_self q.identity_id t m in
      rw (there, read_now q (lookup q.identity_id words))
        (read_questions-reviewed words qs (insert q.identity_id t m) h.1)

  version_draft-lookup :
      (v : PublishedVersion) (lang : Text)
      → IsPublished v
      → contains (version_languages v) lang ≡ true
      → lookup (normalize_lang lang) (version_draft v).localizations
        ≡ some (version_localization v lang)
  unfolding version_draft
  version_draft-lookup v lang h there =
      rw (h.codes_stored lang there, lookup-localized_in v (version_languages v) empty lang, there)
        refl

  pub version_draft-pending :
      (v : PublishedVersion) (lang : Text)
      → IsPublished v
      → contains (version_languages v) lang ≡ true
      → pending (version_draft v) lang ≡ []
  unfolding pending version_localization version_draft
  version_draft-pending v lang h there =
      rw (version_draft-lookup v lang h there)
        (read_questions-reviewed _ v.questions empty h.distinct)

  thanks_read :
      (page t : ThankYou)
      → ((not (is_nil page.message) && is_nil t.message)
          || (not (is_nil page.link_label) && is_nil t.link_label))
        ≡ false
      → translation_pending page (some (read_thanks page t)) ≡ false
  unfolding translation_pending read_thanks
  thanks_read page t whole = ground (arith, whole, eq_refl page.message, eq_refl page.link_label)

  localization_thanks :
      (v : PublishedVersion) (lang : Text)
      → IsPublished v
      → pending_in_language (version_draft v) (some (version_localization v lang)) ≡ false
  unfolding pending_in_language version_draft version_localization has_thanks_to_translate
  localization_thanks v lang h = elim (Bool-cases (has_thanks_to_translate (version_base v))) [
    | inr silent ↦ rw silent refl
    | inl wordy ↦ elim (Option-cases (lookup lang v.thanks_translations)) [
      | inl original ↦ rw (wordy, original) (thanks_read v.thanks v.thanks (ground arith))
      | inr (t, translated) ↦
          rw (wordy, translated) (thanks_read v.thanks t (h.thanks_whole lang t translated))
    ]
  ]

  words_read :
      (d : Draft) (w : StyleWords)
      → covers (only w (own_word_parts d)) (own_style_words d) ≡ true
      → unread (own_style_words d) (own_word_parts d) (
          some record {
            words = only w (own_word_parts d);
            reviewed = true;
            source = own_style_words d;
          })
        ≡ false
  words_read d w whole =
      rw
        (only-own_style_words d, only-only w (own_word_parts d), eq_refl (own_style_words d), whole)
        refl

  localization_style :
      (v : PublishedVersion) (lang : Text)
      → IsPublished v
      → style_pending_in (version_draft v) (some (version_localization v lang)) ≡ false
  unfolding style_pending_in version_draft version_localization
  localization_style v lang h =
      let base = version_base v in
      let m = localized_in v (version_languages v) empty in
      let own : own_style_words (version_draft v) ≡ own_style_words base =
        own_style_words-kept base m in
      let parts : own_word_parts (version_draft v) ≡ own_word_parts base =
        own_word_parts-kept base m in
      rw (own, parts)
        (elim (Bool-cases (words_is_zero (own_style_words base))) [
          | inl silent ↦ rw silent refl
          | inr wordy ↦ elim (Option-cases (lookup lang v.style_translations)) [
            | inl original ↦
                rw (wordy, original)
                  (words_read base (own_style_words base) (
                    ap (λ w. covers w (own_style_words base)) (only-own_style_words base)
                    ∙ h.style_labelled))
            | inr (w, translated) ↦
                rw (wordy, translated) (words_read base w (h.style_whole lang w translated))
          ]
        ])

  pub version_draft-thanks :
      (v : PublishedVersion) (lang : Text)
      → IsPublished v
      → contains (version_languages v) lang ≡ true
      → thanks_pending (version_draft v) lang ≡ false
  unfolding thanks_pending
  version_draft-thanks v lang h there =
      rw (version_draft-lookup v lang h there) (localization_thanks v lang h)

  pub version_draft-style :
      (v : PublishedVersion) (lang : Text)
      → IsPublished v
      → contains (version_languages v) lang ≡ true
      → style_pending (version_draft v) lang ≡ false
  unfolding style_pending
  version_draft-style v lang h there =
      rw (version_draft-lookup v lang h there) (localization_style v lang h)
