-- ===== src/Tests/Words.antt =====
-- Styles, their words and a survey's choice of style at concrete inputs.
use earful.Tests.Data.{ascii, german, dutch}
use earful.Prelude.{
  ◌&&◌, ◌≢◌, true, length, none, ◌↔◌, if◌then◌else◌, arith, not, ◌≡◌, [], false, ◌∷◌, refl, some,
  ◌||◌, All,
}
use earful.Domain.Draft.{Draft, new_draft}
use earful.Domain.StyleChoice.{
  followed_parts, resolved_style-eq, resolved_style, own_parts, own_word_parts, own_style_words,
  followed_word_parts,
}
use earful.Domain.Style.{
  only-with_parts, Style, StyleParts, urls, no_header, with_parts, no_footer, words_of, StyleLink,
  no_parts, with_words_keeps, with_words, StyleWords, no_words, only, no_style, header_is_zero,
  words_is_zero, covers, thanks_is_zero, footer_is_zero,
}
use earful.Domain.Style.Validate.{validate_style, IsSound, validate_style-IsSound}
use earful.Domain.Style.Translate.{new_localized_style, fitted, LocalizedStyle}
use earful.Prelude.Text.{codes, Text, trim_space}
use earful.Domain.Localization.{Localization}
use earful.Domain.Thanks.{normalize_message}
use earful.Domain.WorkspaceStyle.{
  set_account_translation-pending_for, WorkspaceStyle, pending_for, account_stale,
  set_account_translation,
}
use earful.Domain.Language.{valid_lang, normalize_lang}
use earful.Domain.StyleLanguages.{
  style_pending, set_style_translation, style_stale, has_style_to_translate,
  set_style_translation-style_pending, account_style_pending, resolved_style_words,
  resolved_style_words-read,
}
use earful.Prelude.Dict.{insert, empty, lookup-insert_self}

abbrev site : StyleLink
site = record { label = codes "Site"; url = codes "https://earful.app" }

abbrev styled : Style
styled = record no_style {
  header = record no_header {
    name = codes "Earful";
    tagline = codes "We listen";
    links = site ∷ [];
  };
}

validate_style-IsSound_example : (validate_style styled ≡ none) ↔ IsSound styled
validate_style-IsSound_example = validate_style-IsSound styled

abbrev dutch_style_words : StyleWords
dutch_style_words = record no_words {
  tagline = codes "Wij luisteren";
  header_links = codes "Website" ∷ codes "Extra" ∷ [];
  footer_text = codes "Voet";
}

abbrev header_part : StyleParts
header_part = record no_parts { header = true }

abbrev footer_part : StyleParts
footer_part = record no_parts { footer = true }

abbrev own_header : Draft
own_header = record new_draft { style = styled }

abbrev slate : Style
slate = record no_style { theme = codes "slate" }

abbrev slate_named : Style
slate_named = record slate { header = record no_header { name = codes "Other" } }

follows_none : (followed_parts own_header).header ≡ false
unfolding followed_parts own_parts header_is_zero
follows_none = refl

follows_no_header : (followed_parts own_header).header ≢ true
follows_no_header h = absurd (ground (arith, follows_none))

resolved_style-eq_example : resolved_style own_header slate ≡ resolved_style own_header slate_named
resolved_style-eq_example =
    resolved_style-eq own_header slate slate_named (λ t. refl) (λ h. absurd (follows_no_header h))
      (λ f. refl) (λ k. refl)

normal_nl : normalize_lang dutch ≡ dutch
unfolding normalize_lang trim_space
normal_nl = refl

normal_de : normalize_lang german ≡ german
unfolding normalize_lang trim_space
normal_de = refl

other_language : normalize_lang german ≢ normalize_lang dutch
other_language = rw (normal_de, normal_nl) (ground arith)

abbrev account : WorkspaceStyle
account = record { style = styled; translations = empty }

abbrev tagline_words : StyleWords
tagline_words = record no_words { tagline = codes "Wij luisteren" }

abbrev no_fingerprint : StyleWords → Text
no_fingerprint w = []

abbrev translated_account : WorkspaceStyle
translated_account = record account {
  translations =
      insert dutch (new_localized_style (words_of styled) tagline_words true).0
        account.translations;
}

nl_is_code : valid_lang dutch ≡ true
unfolding valid_lang earful.Prelude.Text.byte_len
nl_is_code = refl

words_fit : (new_localized_style (words_of styled) tagline_words true).1 ≡ none
unfolding new_localized_style words_of normalize_message trim_space
words_fit = refl

account_translated :
    set_account_translation no_fingerprint account [] dutch tagline_words true
    ≡ (translated_account, none)
unfolding set_account_translation
account_translated = rw (normal_nl, nl_is_code, words_fit) refl

set_account_translation-pending_for_example :
    (pending_for translated_account dutch header_part ≡ (
      not (words_is_zero (only (words_of styled) header_part))
      && (not true
          || not (
              covers
                (only (fitted (words_of styled) tagline_words) header_part)
                (only (words_of styled) header_part)))))
    × (account_stale translated_account dutch ≡ false)
    × (pending_for translated_account german header_part ≡ pending_for account german header_part)
set_account_translation-pending_for_example =
    set_account_translation-pending_for no_fingerprint account translated_account [] dutch german
      tagline_words true header_part account_translated other_language

abbrev plain_nl : Localization
plain_nl = record { lang = dutch; questions = empty; thanks = none; style = none }

abbrev own_in_dutch : Draft
own_in_dutch = record own_header { localizations = insert dutch plain_nl empty }

abbrev own_translated : Draft
own_translated = record own_in_dutch {
  localizations =
      insert dutch
        (record plain_nl {
          style = some (new_localized_style (own_style_words own_in_dutch) tagline_words true).0;
        })
        own_in_dutch.localizations;
}

own_words_fit : (new_localized_style (own_style_words own_in_dutch) tagline_words true).1 ≡ none
unfolding new_localized_style own_style_words own_word_parts own_parts only words_of
    normalize_message trim_space header_is_zero thanks_is_zero footer_is_zero
own_words_fit = refl

own_words_set : set_style_translation own_in_dutch dutch tagline_words true ≡ (own_translated, none)
unfolding set_style_translation
own_words_set = rw (normal_nl, lookup-insert_self, own_words_fit) refl

set_style_translation-style_pending_example :
    (style_pending own_translated dutch ≡ (
      has_style_to_translate own_in_dutch
      && (not true
          || not (
              covers
                (only
                  (fitted (own_style_words own_in_dutch) tagline_words)
                  (own_word_parts own_in_dutch))
                (own_style_words own_in_dutch)))))
    × (style_stale own_translated dutch ≡ false)
set_style_translation-style_pending_example =
    set_style_translation-style_pending own_in_dutch own_translated dutch tagline_words true
      own_words_set

abbrev tagline_style : Style
tagline_style = record no_style { header = record no_header { tagline = codes "We listen" } }

abbrev read_words : LocalizedStyle
read_words = record { words = tagline_words; reviewed = true; source = words_of tagline_style }

abbrev read_account : WorkspaceStyle
read_account = record { style = tagline_style; translations = insert dutch read_words empty }

read_in_dutch :
    resolved_style_words new_draft read_account dutch
    ≡ some (with_parts no_words tagline_words (followed_word_parts new_draft))
unfolding resolved_style_words own_style_words own_word_parts followed_word_parts followed_parts
    own_parts only words_of pending_for header_is_zero footer_is_zero thanks_is_zero covers
    earful.Domain.Style.words_beq earful.Prelude.list_beq earful.Prelude.contains
read_in_dutch = rw (normal_nl, normal_nl, lookup-insert_self) refl

resolved_style_words-read_example :
    (style_pending new_draft (normalize_lang dutch) ≡ false)
    × (account_style_pending new_draft read_account (normalize_lang dutch) ≡ false)
resolved_style_words-read_example =
    resolved_style_words-read new_draft read_account dutch
      (with_parts no_words tagline_words (followed_word_parts new_draft)) read_in_dutch
