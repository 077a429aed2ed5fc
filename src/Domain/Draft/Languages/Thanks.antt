-- ===== src/Domain/Draft/Languages/Thanks.antt =====
-- internal/domain/localization.go: the thank you page of a language, `ThanksPending`, `ThanksStale`,
-- `SetThanksTranslation` and `LocalizedThanks`.
use earful.Runtime.{Runtime}
use earful.Prelude.{
  Bool, ◌&&◌, false, arith, Option-cases, Option, is_nil, none, some, inr, inl, ◌≡◌, not,
  if◌then◌else◌, [], ◌||◌, eq_refl, length, ◌==◌, true, ltb, nat_eq, list_eq, bool_eq,
}
use earful.Domain.Localization.{Localization, LocalizedThanks}
use earful.Domain.Thanks.{ThankYou, max_thanks_message_len, max_thanks_label_len, normalize_message}
use earful.Domain.Language.{normalize_lang, normalize_lang_idem, valid_lang}
use earful.Domain.Errors.{unknown_language, limit_thanks_message, Error, limit_thanks_label, limit}
use earful.Domain.Draft.Languages.{put_localization}
use earful.Domain.Draft.Types.{Draft}
use earful.Prelude.Dict.{lookup-insert_self, lookup}
use earful.Prelude.Text.{trim_space, Text}
use earful.Domain.Question.{label, valid}

unfoldable pub has_thanks_to_translate : Draft → Bool
has_thanks_to_translate d = not (is_nil d.thanks.message) || not (is_nil d.thanks.link_label)

-- The words a translation was made from are not those of the page.
abbrev outdated : ThankYou → LocalizedThanks → Bool
outdated page t =
    not (t.source_message == page.message) || not (t.source_link_label == page.link_label)

-- The `switch` of `ThanksPending`.
unfoldable pub translation_pending : ThankYou → Option LocalizedThanks → Bool
translation_pending page none = true
translation_pending page (some t) =
    if not t.reviewed
    then true
    else if outdated page t
    then true
    else (not (is_nil page.message) && is_nil t.message)
      || (not (is_nil page.link_label) && is_nil t.link_label)

unfoldable pub pending_in_language : Draft → Option Localization → Bool
unfolding has_thanks_to_translate translation_pending
pending_in_language d none = false
pending_in_language d (some l) =
    if has_thanks_to_translate d then translation_pending d.thanks l.thanks else false

stale_translation : ThankYou → Option LocalizedThanks → Bool
stale_translation page none = false
stale_translation page (some t) =
    (not (is_nil t.message) || not (is_nil t.link_label)) && outdated page t

stale_in_language : ThankYou → Option Localization → Bool
unfolding stale_translation
stale_in_language page none = false
stale_in_language page (some l) = stale_translation page l.thanks

-- `translated.Message` and `translated.LinkLabel` under the page's address.
shown_thanks : ThankYou → Option LocalizedThanks → Option ThankYou
shown_thanks page none = none
shown_thanks page (some t) =
    some (record { message = t.message; link_label = t.link_label; link_url = page.link_url })

shown_in_language : ThankYou → Option Localization → Option ThankYou
unfolding shown_thanks
shown_in_language page none = none
shown_in_language page (some l) = shown_thanks page l.thanks

-- A part that the page does not have is dropped.
abbrev pub kept_with : Text → Text → Text
kept_with source t = if is_nil source then [] else t

abbrev pub translated_thanks : ThankYou → Text → Text → Bool → LocalizedThanks
translated_thanks page words label reviewed = record {
  message = kept_with page.message (normalize_message words);
  link_label = kept_with page.link_label (trim_space label);
  reviewed = reviewed;
  source_message = page.message;
  source_link_label = page.link_label;
}

put_thanks : Draft → Text → Localization → LocalizedThanks → Draft × Option Error
put_thanks d lang l t =
    if ltb max_thanks_message_len (length t.message)
    then (d, some (limit limit_thanks_message max_thanks_message_len))
    else if ltb max_thanks_label_len (length t.link_label)
    then (d, some (limit limit_thanks_label max_thanks_label_len))
    else (put_localization d lang (record l { thanks = some t }), none)

set_thanks_found : Draft → Text → Option Localization → LocalizedThanks → Draft × Option Error
unfolding put_thanks
set_thanks_found d lang none t = (d, some unknown_language)
set_thanks_found d lang (some l) t = put_thanks d lang l t

module _ ⦃u : Runtime⦄ where
  unfoldable pub thanks_pending : Draft → Text → Bool
  unfolding pending_in_language
  thanks_pending d lang = pending_in_language d (lookup (normalize_lang lang) d.localizations)

  unfoldable pub thanks_stale : Draft → Text → Bool
  unfolding stale_in_language
  thanks_stale d lang = stale_in_language d.thanks (lookup (normalize_lang lang) d.localizations)

  unfoldable pub set_thanks_translation : Draft → Text → Text → Text → Bool → Draft × Option Error
  unfolding set_thanks_found
  set_thanks_translation d lang words label reviewed =
      let n = normalize_lang lang in
      set_thanks_found d n (lookup n d.localizations)
        (translated_thanks d.thanks words label reviewed)

  -- The code normalizes the language before it asks `ThanksPending`, which normalizes it again.
  unfoldable pub localized_thanks : Draft → Text → Option ThankYou
  unfolding thanks_pending has_thanks_to_translate shown_in_language
  localized_thanks d lang =
      let n = normalize_lang lang in
      if not (has_thanks_to_translate d) || thanks_pending d n
      then none
      else shown_in_language d.thanks (lookup n d.localizations)

  set_thanks_translation-eq :
      (d d2 : Draft) (lang words label : Text) (reviewed : Bool)
      → set_thanks_translation d lang words label reviewed ≡ (d2, none)
      → (l : Localization) × (lookup (normalize_lang lang) d.localizations ≡ some l)
        × (d2
            ≡ put_localization d
                (normalize_lang lang)
                (record l { thanks = some (translated_thanks d.thanks words label reviewed) }))
  unfolding set_thanks_translation
  set_thanks_translation-eq d d2 lang words label reviewed h =
      elim (Option-cases (lookup (normalize_lang lang) d.localizations)) [
        | inl missing ↦ absurd (ground arith)
        | inr (l, there) ↦ (l, there, ground arith)
      ]

  -- After a thank you page is translated, the page is pending in the language exactly when it has
  -- words and the translation was not reviewed, or lacks a part that the page has; and it is not
  -- stale.
  pub set_thanks_translation-pending :
      (d d2 : Draft) (lang words label : Text) (reviewed : Bool)
      → set_thanks_translation d lang words label reviewed ≡ (d2, none)
      → (thanks_pending d2 lang ≡ (
          has_thanks_to_translate d
          && (not reviewed
              || (not (is_nil d.thanks.message) && is_nil (normalize_message words))
              || (not (is_nil d.thanks.link_label) && is_nil (trim_space label)))))
        × (thanks_stale d2 lang ≡ false)
  unfolding thanks_pending thanks_stale has_thanks_to_translate
  set_thanks_translation-pending d d2 lang words label reviewed h =
      let after = set_thanks_translation-eq d d2 lang words label reviewed h in
      rw (after.2, lookup-insert_self)
        (ground (arith, eq_refl d.thanks.message, eq_refl d.thanks.link_label))

  -- When a page with words is translated in a language with a valid code, and read, the translation
  -- is what a respondent of the language is shown, under the page's own address, unless it lacks a
  -- part that the page has; then, and on a page without words, nothing is shown.
  pub set_thanks_translation-localized_thanks :
      (d d2 : Draft) (lang words label : Text)
      → valid_lang (normalize_lang lang) ≡ true
      → set_thanks_translation d lang words label true ≡ (d2, none)
      → localized_thanks d2 lang ≡ (
          if not (has_thanks_to_translate d)
            || (not (is_nil d.thanks.message) && is_nil (normalize_message words))
            || (not (is_nil d.thanks.link_label) && is_nil (trim_space label))
          then none
          else some (record {
            message = kept_with d.thanks.message (normalize_message words);
            link_label = kept_with d.thanks.link_label (trim_space label);
            link_url = d.thanks.link_url;
          }))
  unfolding localized_thanks has_thanks_to_translate
  set_thanks_translation-localized_thanks d d2 lang words label valid h =
      let after = set_thanks_translation-eq d d2 lang words label true h in
      rw (after.2, normalize_lang_idem lang valid, lookup-insert_self)
        (ground (arith, eq_refl d.thanks.message, eq_refl d.thanks.link_label))
