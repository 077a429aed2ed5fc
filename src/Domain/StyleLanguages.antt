-- ===== src/Domain/StyleLanguages.antt =====
-- internal/domain/style.go and internal/domain/style_choice.go: the words of a survey's style in its
-- languages, its own and those that it follows from its account.
use earful.Domain.Style.Words.{words_eq}
use earful.Runtime.{Runtime}
use earful.Prelude.{
  ◌≡◌, not, inl, none, inr, arith, ◌==◌, ◌||◌, some, Option, false, ◌&&◌, Bool, if◌then◌else◌,
  Option-cases, nat_eq, list_eq, bool_eq, eq_refl, refl, true, ap, ◌∙◌,
}
use earful.Domain.Localization.{Localization}
use earful.Domain.WorkspaceStyle.{WorkspaceStyle, pending_for, unread}
use earful.Domain.Language.{normalize_lang}
use earful.Domain.Answer.{is_none}
use earful.Domain.Errors.{unknown_language, Error}
use earful.Domain.Draft.{Draft}
use earful.Domain.StyleChoice.{
  followed_word_parts, resolved_style, own_word_parts, own_style_words, own_parts,
}
use earful.Domain.Style.{
  only, with_words, words_is_zero, with_parts, covers, StyleParts, Style, no_words, StyleWords,
  words_of,
}
use earful.Domain.Style.Translate.{new_localized_style, fitted, LocalizedStyle}
use earful.Prelude.Dict.{lookup, insert, lookup-insert_self, Dict}
use earful.Prelude.Text.{Text}

style_of : Option Localization → Option LocalizedStyle
style_of none = none
style_of (some l) = l.style

unfoldable pub style_pending_in : Draft → Option Localization → Bool
style_pending_in d none = false
style_pending_in d (some l) =
    if words_is_zero (own_style_words d)
    then false
    else unread (own_style_words d) (own_word_parts d) l.style

style_stale_for : Draft → Option LocalizedStyle → Bool
style_stale_for d none = false
style_stale_for d (some t) =
    not (words_is_zero (only t.words (own_word_parts d)))
    && not (only t.source (own_word_parts d) == own_style_words d)

set_style_checked :
    Draft → Text → Localization → LocalizedStyle × Option Error → Draft × Option Error
set_style_checked d lang l (t, some e) = (d, some e)
set_style_checked d lang l (t, none) =
    (record d { localizations = insert lang (record l { style = some t }) d.localizations }, none)

set_style_found : Draft → Text → StyleWords → Bool → Option Localization → Draft × Option Error
unfolding set_style_checked
set_style_found d lang words reviewed none = (d, some unknown_language)
set_style_found d lang words reviewed (some l) =
    set_style_checked d lang l (new_localized_style (own_style_words d) words reviewed)

words_of_style : Option LocalizedStyle → StyleWords
words_of_style none = no_words
words_of_style (some t) = t.words

unfoldable pub has_style_to_translate : Draft → Bool
has_style_to_translate d = not (words_is_zero (own_style_words d))

module _ ⦃u : Runtime⦄ where
  unfoldable pub style_pending : Draft → Text → Bool
  unfolding style_pending_in
  style_pending d lang = style_pending_in d (lookup (normalize_lang lang) d.localizations)

  unfoldable pub style_stale : Draft → Text → Bool
  unfolding style_stale_for style_of
  style_stale d lang = style_stale_for d (style_of (lookup (normalize_lang lang) d.localizations))

  unfoldable pub set_style_translation : Draft → Text → StyleWords → Bool → Draft × Option Error
  unfolding set_style_found
  set_style_translation d lang words reviewed =
      let n = normalize_lang lang in set_style_found d n words reviewed (lookup n d.localizations)

  unfoldable pub account_style_pending : Draft → WorkspaceStyle → Text → Bool
  account_style_pending d account lang = pending_for account lang (followed_word_parts d)

  -- The survey's own words in the language, where it has words: none while they are unread.
  own_words_in : Draft → Text → Option StyleWords
  unfolding style_of words_of_style
  own_words_in d n =
      let t = style_of (lookup n d.localizations) in
      if words_is_zero (own_style_words d)
      then some no_words
      else if is_none t || style_pending d n
      then none
      else some (only (words_of_style t) (own_word_parts d))

  -- Those with the account's words in the language, where the survey follows words.
  with_account_words : Draft → WorkspaceStyle → Text → Option StyleWords → Option StyleWords
  unfolding words_of_style
  with_account_words d account n none = none
  with_account_words d account n (some words) =
      let followed = followed_word_parts d in
      if words_is_zero (only (words_of account.style) followed)
      then some words
      else if pending_for account n followed
      then none
      else some (with_parts words (words_of_style (lookup n account.translations)) followed)

  unfoldable pub resolved_style_words : Draft → WorkspaceStyle → Text → Option StyleWords
  unfolding own_words_in with_account_words
  resolved_style_words d account lang =
      let n = normalize_lang lang in
      if words_is_zero (own_style_words d)
        && words_is_zero (only (words_of account.style) (followed_word_parts d))
      then none
      else with_account_words d account n (own_words_in d n)

  worded : Style → Option StyleWords → Option Style
  worded s none = none
  worded s (some w) = some (with_words s w)

  unfoldable pub resolved_localized_style : Draft → WorkspaceStyle → Text → Option Style
  unfolding worded
  resolved_localized_style d account lang =
      worded (resolved_style d account.style) (resolved_style_words d account lang)

  set_style_translation-eq :
      (d d2 : Draft) (lang : Text) (words : StyleWords) (reviewed : Bool)
      → set_style_translation d lang words reviewed ≡ (d2, none)
      → (l : Localization) × (lookup (normalize_lang lang) d.localizations ≡ some l)
        × (d2 ≡ record d {
          localizations =
              insert
                (normalize_lang lang)
                (record l {
                  style = some (new_localized_style (own_style_words d) words reviewed).0;
                })
                d.localizations;
        })
  unfolding set_style_translation
  set_style_translation-eq d d2 lang words reviewed h =
      elim (Option-cases (lookup (normalize_lang lang) d.localizations)) [
        | inl missing ↦ absurd (ground arith)
        | inr (l, there) ↦
            elim (Option-cases (new_localized_style (own_style_words d) words reviewed).1) [
              | inl fine ↦ (l, there, ground arith)
              | inr (e, bad) ↦ absurd (ground arith)
            ]
      ]

  pub only-only : (w : StyleWords) (p : StyleParts) → only (only w p) p ≡ only w p
  unfolding only
  only-only w p = ground arith

  pub own_style_words-kept :
      (d : Draft) (m : Dict Localization)
      → own_style_words (record d { localizations = m }) ≡ own_style_words d
  unfolding own_style_words own_word_parts own_parts
  own_style_words-kept d m = refl

  pub own_word_parts-kept :
      (d : Draft) (m : Dict Localization)
      → own_word_parts (record d { localizations = m }) ≡ own_word_parts d
  unfolding own_word_parts own_parts
  own_word_parts-kept d m = refl

  pub only-own_style_words :
      (d : Draft) → only (own_style_words d) (own_word_parts d) ≡ own_style_words d
  unfolding own_style_words
  only-own_style_words d = only-only (words_of d.style) (own_word_parts d)

  style_pending-no_words :
      (d : Draft) (lang : Text)
      → words_is_zero (own_style_words d) ≡ true
      → style_pending d lang ≡ false
  unfolding style_pending
  style_pending-no_words d lang h =
      elim (Option-cases (lookup (normalize_lang lang) d.localizations)) [
        | inl missing ↦ rw missing refl
        | inr (l, there) ↦ rw there (ground (arith, h))
      ]

  -- After the words of a survey's own parts are translated, they are pending in the language exactly
  -- when there are any and the translation was not reviewed or lacks one of them, and they are not
  -- stale in it.
  pub set_style_translation-style_pending :
      (d d2 : Draft) (lang : Text) (words : StyleWords) (reviewed : Bool)
      → set_style_translation d lang words reviewed ≡ (d2, none)
      → (style_pending d2 lang ≡ (
          has_style_to_translate d
          && (not reviewed
              || not (
                  covers
                    (only (fitted (own_style_words d) words) (own_word_parts d))
                    (own_style_words d)))))
        × (style_stale d2 lang ≡ false)
  unfolding style_pending style_stale has_style_to_translate new_localized_style
  set_style_translation-style_pending d d2 lang words reviewed h =
      let after = set_style_translation-eq d d2 lang words reviewed h in
      let m =
        insert (normalize_lang lang)
          (record after.0 {
            style = some (new_localized_style (own_style_words d) words reviewed).0;
          })
          d.localizations in
      let own : own_style_words d2 ≡ own_style_words d =
        ap own_style_words after.2 ∙ own_style_words-kept d m in
      let parts : own_word_parts d2 ≡ own_word_parts d =
        ap own_word_parts after.2 ∙ own_word_parts-kept d m in
      rw
        (
          after.2, lookup-insert_self, style_pending_in, style_stale_for, style_of, own, parts,
          only-own_style_words,
        )
        (ground (arith, eq_refl (own_style_words d)))

  own_words_in-read :
      (d : Draft) (n : Text) (w : StyleWords)
      → own_words_in d n ≡ some w
      → style_pending d n ≡ false
  unfolding own_words_in
  own_words_in-read d n w h = ground (arith, style_pending-no_words d n)

  followed_read :
      (d : Draft) (account : WorkspaceStyle) (n : Text) (w words : StyleWords)
      → with_account_words d account n (some w) ≡ some words
      → pending_for account n (followed_word_parts d) ≡ false
  unfolding with_account_words pending_for
  followed_read d account n w words h = ground arith

  -- The words that a survey shows in a language are none that still need reading: neither its own
  -- words nor those that it follows from its account are pending in it.
  pub resolved_style_words-read :
      (d : Draft) (account : WorkspaceStyle) (lang : Text) (words : StyleWords)
      → resolved_style_words d account lang ≡ some words
      → (style_pending d (normalize_lang lang) ≡ false)
        × (account_style_pending d account (normalize_lang lang) ≡ false)
  unfolding resolved_style_words account_style_pending
  resolved_style_words-read d account lang words h =
      elim (Option-cases (own_words_in d (normalize_lang lang))) [
        | inl unread ↦ absurd (ground (arith, unread))
        | inr (w, read) ↦
            (let followed = followed_read d account (normalize_lang lang) w words in
              let own = own_words_in-read d (normalize_lang lang) w read in
              ground (arith, read, followed, own))
      ]
