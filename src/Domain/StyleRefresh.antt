-- ===== src/Domain/StyleRefresh.antt =====
-- internal/domain/style_refresh.go: a published version as a draft to publish again from, and what
-- publishing it again would change.
pub mod Drawn
pub mod Reviewed
pub mod Ready
use earful.Domain.Style.Words.{words_eq}
use earful.Prelude.{
  List, ◌∷◌, contains, ◌++◌, Option, ◌==◌, some, ◌||◌, true, false, not, Bool, if◌then◌else◌, ◌&&◌,
  [], none, nat_eq, list_eq, bool_eq,
}
use earful.Domain.Draft.{Draft}
use earful.Domain.WorkspaceStyle.{WorkspaceStyle}
use earful.Runtime.{Runtime}
use earful.Domain.Publication.{ready_to_publish}
use earful.Domain.Localization.{Localization, LocalizedQuestion, LocalizedThanks}
use earful.Domain.Thanks.{ThankYou}
use earful.Domain.StyleLanguages.{resolved_style_words}
use earful.Domain.Errors.{Error, account_style_translation}
use earful.Domain.Question.{Question}
use earful.Domain.StyleChoice.{style_differs, resolved_style, own_word_parts, own_style_words}
use earful.Domain.Style.{
  Style, words_is_zero, header_is_zero, no_footer, parts_is_zero, no_header, only, footer_is_zero,
  StyleParts, no_picture, StyleWords,
}
use earful.Domain.Errors.Message.{message}
use earful.Domain.Draft.Languages.Thanks.{has_thanks_to_translate}
use earful.Prelude.Dict.{Dict, lookup, insert, keys, empty}
use earful.Prelude.Text.{Text}
use earful.Prelude.Text.Sort.{sort_strings}

pub record PublishedVersion : Type 0 where
  pub questions : List Question
  pub question_translations : Dict (Dict LocalizedQuestion)
  pub thanks : ThankYou
  pub thanks_translations : Dict ThankYou
  pub style : Style
  pub style_translations : Dict StyleWords
  pub follows : StyleParts

-- The loops of `PublishedVersion.Languages`, each over the keys of a map.
added : List Text → List Text → List Text
added langs [] = langs
added langs (lang ∷ more) = added (if contains langs lang then langs else langs ++ lang ∷ []) more

unfoldable pub version_languages : PublishedVersion → List Text
unfolding added
version_languages v =
    let questions = added [] (keys v.question_translations) in
    let thanks = added questions (keys v.thanks_translations) in
    sort_strings (added thanks (keys v.style_translations))

-- A header or a footer that the version neither shows nor follows is turned off.
abbrev pub turned_off : Bool → Bool → Bool
turned_off follows empty_part = not follows && empty_part

abbrev pub kept_part {ℓ} : {A : Type ℓ} → Bool → A → A → A
kept_part drop_it nothing part = if drop_it then nothing else part

-- The draft without its languages.
unfoldable pub version_base : PublishedVersion → Draft
version_base v =
    let f = v.follows in
    let no_top = header_is_zero v.style.header in
    let no_bottom = footer_is_zero v.style.footer in
    record {
      questions = v.questions;
      localizations = empty;
      thanks = v.thanks;
      style = record {
        theme = kept_part f.theme [] v.style.theme;
        header = kept_part (f.header || no_top) no_header v.style.header;
        footer = kept_part (f.footer || no_bottom) no_footer v.style.footer;
        thanks = kept_part f.thanks no_picture v.style.thanks;
      };
      style_choice = record {
        own = record {
          theme = not f.theme;
          header = not f.header && not no_top;
          footer = not f.footer && not no_bottom;
          thanks = not f.thanks;
        };
        no_header = turned_off f.header no_top;
        no_footer = turned_off f.footer no_bottom;
      };
    }

-- `v.QuestionTranslations[lang][q.IdentityID]` as read; the zero value where there is none.
unfoldable pub read_question : Question → Option LocalizedQuestion → LocalizedQuestion
read_question q none = record { text = []; options = []; reviewed = true; source_text = q.text }
read_question q (some t) = record {
  text = t.text;
  options = t.options;
  reviewed = true;
  source_text = q.text;
}

abbrev pub in_language : Option (Dict LocalizedQuestion) → Dict LocalizedQuestion
in_language none = empty
in_language (some m) = m

-- The loop over the questions.
unfoldable pub read_questions :
    Dict LocalizedQuestion → List Question → Dict LocalizedQuestion → Dict LocalizedQuestion
unfolding read_question
read_questions translations [] m = m
read_questions translations (q ∷ qs) m =
    read_questions translations qs
      (insert q.identity_id (read_question q (lookup q.identity_id translations)) m)

-- A translation that the version does not have is the original.
abbrev or_original {ℓ} : {A : Type ℓ} → A → Option A → A
or_original original none = original
or_original original (some t) = t

unfoldable pub read_thanks : ThankYou → ThankYou → LocalizedThanks
read_thanks page t = record {
  message = t.message;
  link_label = t.link_label;
  reviewed = true;
  source_message = page.message;
  source_link_label = page.link_label;
}

-- What the draft holds of a language.
unfoldable pub version_localization : PublishedVersion → Text → Localization
unfolding read_questions read_thanks
version_localization v lang =
    let d = version_base v in
    let own = own_style_words d in
    let words = or_original own (lookup lang v.style_translations) in
    record {
      lang = lang;
      questions =
          read_questions (in_language (lookup lang v.question_translations)) v.questions empty;
      thanks =
          if has_thanks_to_translate d
          then some
              (read_thanks v.thanks (or_original v.thanks (lookup lang v.thanks_translations)))
          else none;
      style =
          if words_is_zero own
          then none
          else some record { words = only words (own_word_parts d); reviewed = true; source = own };
    }

-- The loop over the languages.
unfoldable pub localized_in : PublishedVersion → List Text → Dict Localization → Dict Localization
unfolding version_localization
localized_in v [] m = m
localized_in v (lang ∷ langs) m = localized_in v langs (insert lang (version_localization v lang) m)

-- `PublishedVersion.Draft`
unfoldable pub version_draft : PublishedVersion → Draft
unfolding version_base localized_in
version_draft v = record (version_base v) {
  localizations = localized_in v (version_languages v) empty;
}

pub record AccountRefresh : Type 0 where
  pub changes : Bool
  pub blocked_in : Text

-- `IsAccountStyleTranslationError`, as `RefreshAgainst` uses it.
unfoldable pub blocked : Option Error → Text
blocked (some (account_style_translation lang)) = lang
blocked _ = []

shown_words : Option StyleWords → Option StyleWords
shown_words none = none
shown_words (some w) = if words_is_zero w then none else some w

-- `ok != had || (ok && !words.Equal(frozen))`
unfoldable pub words_differ : Option StyleWords → Option StyleWords → Bool
words_differ none none = false
words_differ none (some v) = true
words_differ (some w) none = true
words_differ (some w) (some v) = not (w == v)

module _ ⦃u : Runtime⦄ where
  unfoldable pub frozen_words : Draft → WorkspaceStyle → Text → Option StyleWords
  unfolding shown_words
  frozen_words d account lang = shown_words (resolved_style_words d account lang)

  -- The loop of `drawnAs`.
  same_in_each : PublishedVersion → Draft → WorkspaceStyle → List Text → Bool
  same_in_each v d account [] = true
  same_in_each v d account (lang ∷ langs) =
      let rest = same_in_each v d account langs in
      if words_differ (frozen_words d account lang) (lookup lang v.style_translations)
      then false
      else rest

  unfoldable pub drawn_as : PublishedVersion → Draft → WorkspaceStyle → Bool
  unfolding same_in_each
  drawn_as v d account =
      if not (parts_is_zero (style_differs v.style (resolved_style d account.style)))
      then false
      else same_in_each v d account (version_languages v)

  unfoldable pub refresh_against : PublishedVersion → WorkspaceStyle → AccountRefresh
  unfolding blocked
  refresh_against v account =
      let d = version_draft v in
      if parts_is_zero v.follows then record { changes = false; blocked_in = [] } else record {
        changes = not (drawn_as v d account);
        blocked_in = blocked (ready_to_publish d account);
      }

  -- The loop of `ChangedBetween`.
  differs_in_some : Draft → WorkspaceStyle → WorkspaceStyle → List Text → Bool
  differs_in_some d before after [] = false
  differs_in_some d before after (lang ∷ langs) =
      let rest = differs_in_some d before after langs in
      if words_differ (frozen_words d before lang) (frozen_words d after lang) then true else rest

  unfoldable pub changed_between : PublishedVersion → WorkspaceStyle → WorkspaceStyle → Bool
  unfolding differs_in_some
  changed_between v before after =
      let d = version_draft v in
      let drawn = style_differs (resolved_style d before.style) (resolved_style d after.style) in
      if parts_is_zero v.follows
      then false
      else if not (parts_is_zero drawn)
      then true
      else differs_in_some d before after (version_languages v)
