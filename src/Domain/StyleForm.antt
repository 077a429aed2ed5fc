-- ===== src/Domain/StyleForm.antt =====
-- internal/domain/style_choice.go: `SetStyleFromForm`, which records what the Style tab posted, and
-- `adoptStyleTranslations`.
pub mod Drawn
use earful.Domain.Style.Words.{words_eq}
use earful.Prelude.{
  List, ◌==◌, ◌&&◌, ◌||◌, some, ◌∷◌, eqb, Bool, true, Option, none, [], false, not, if◌then◌else◌,
  nat_eq, list_eq, bool_eq,
}
use earful.Domain.Draft.{Draft}
use earful.Domain.WorkspaceStyle.{WorkspaceStyle, unread, pending_for}
use earful.Runtime.{Runtime}
use earful.Domain.Publication.{languages}
use earful.Domain.Localization.{Localization}
use earful.Domain.Errors.{Error, style}
use earful.Domain.StyleChoice.{own_parts}
use earful.Domain.Style.{
  parts_is_zero, Style, same_theme, same_header, settled, same_footer, stored_theme, with_parts,
  words_is_zero, no_words, no_picture, no_footer, StyleParts, StyleWords, same_thanks, only,
  words_of, no_header, no_parts,
}
use earful.Domain.Style.Validate.{validate_style}
use earful.Domain.Style.Translate.{LocalizedStyle}
use earful.Prelude.Dict.{lookup, insert, Dict, size}
use earful.Prelude.Text.{Text}

-- The submitted style as the method first settles it.
unfoldable pub settled_style : Style → Style
settled_style s = record s { thanks = settled s.thanks; theme = stored_theme s.theme }

-- A carried part of the style: empty where it is the account's own part.
abbrev pub carried_part {ℓ} : {A : Type ℓ} → Bool → Bool → A → A → A → A
carried_part carried same nothing submitted old =
    if carried then (if same then nothing else submitted) else old

-- Whether a carried part is the survey's own.
abbrev pub carried_own : Bool → Bool → Bool → Bool
carried_own carried same old = if carried then not same else old

-- `*header` and `*footer`, where nil leaves the choice as it was.
abbrev pub hidden : Option Bool → Bool → Bool
hidden none old = old
hidden (some shown) old = not shown

-- The draft with the four carried parts and the two choices set.
unfoldable pub with_parts_from :
    Draft → Style → Style → StyleParts → Option Bool → Option Bool → Draft
with_parts_from d ws s carried header footer =
    let theme_same = same_theme s.theme ws.theme in
    let header_same = same_header s.header ws.header in
    let footer_same = same_footer s.footer ws.footer in
    let thanks_same = same_thanks s.thanks ws.thanks in
    let own = d.style_choice.own in
    record d {
      style = record {
        theme = carried_part carried.theme theme_same [] s.theme d.style.theme;
        header = carried_part carried.header header_same no_header s.header d.style.header;
        footer = carried_part carried.footer footer_same no_footer s.footer d.style.footer;
        thanks = carried_part carried.thanks thanks_same no_picture s.thanks d.style.thanks;
      };
      style_choice = record {
        own = record {
          theme = carried_own carried.theme theme_same own.theme;
          header = carried_own carried.header header_same own.header;
          footer = carried_own carried.footer footer_same own.footer;
          thanks = carried_own carried.thanks thanks_same own.thanks;
        };
        no_header = hidden header d.style_choice.no_header;
        no_footer = hidden footer d.style_choice.no_footer;
      };
    }

-- `partsWithin` and `unionParts`
unfoldable pub parts_within : StyleParts → StyleParts → Bool
parts_within p all =
    (not p.theme || all.theme)
    && (not p.header || all.header)
    && (not p.footer || all.footer)
    && (not p.thanks || all.thanks)

unfoldable pub union_parts : StyleParts → StyleParts → StyleParts
union_parts a b = record {
  theme = a.theme || b.theme;
  header = a.header || b.header;
  footer = a.footer || b.footer;
  thanks = a.thanks || b.thanks;
}

-- The loop over the three parts with words: those that are taken over with the account's words.
same_words : StyleWords → StyleWords → StyleParts → List StyleParts → StyleParts → StyleParts
unfolding parts_within union_parts
same_words own account parts [] same = same
same_words own account parts (p ∷ ps) same =
    let words = only own p in
    same_words own account parts ps (
      if not (parts_within p parts)
      then same
      else if words_is_zero words || not (words == only account p)
      then same
      else union_parts same p)

abbrev word_parts : List StyleParts
word_parts =
    record no_parts { header = true }
    ∷ record no_parts { footer = true }
    ∷ record no_parts { thanks = true }
    ∷ []

-- What the survey has for the language's style, before the account's words are put in.
abbrev begun : Option LocalizedStyle → LocalizedStyle
begun (some t) = t
begun none = record { words = no_words; reviewed = true; source = no_words }

-- The localization with the account's words for some parts, where `unread` says that the account's
-- are still pending for them.
unfoldable pub adopted :
    StyleWords → StyleParts → Bool → LocalizedStyle → Localization → Localization
adopted own same unread translated l =
    let t = begun l.style in
    record l {
      style = some record {
        words = with_parts t.words translated.words same;
        source = with_parts t.source own same;
        reviewed = t.reviewed && not unread;
      };
    }

adopted_found :
    StyleWords
    → StyleParts
    → Bool
    → Text
    → Option LocalizedStyle
    → Option Localization
    → Dict Localization
    → Dict Localization
unfolding adopted
adopted_found own same unread lang (some translated) (some l) m =
    insert lang (adopted own same unread translated l) m
adopted_found own same unread lang _ _ m = m

-- The parts that are the survey's own after an edit and were not before.
unfoldable pub newly_own : StyleParts → StyleParts → StyleParts
newly_own before after = record {
  theme = false;
  header = after.header && not before.header;
  footer = after.footer && not before.footer;
  thanks = after.thanks && not before.thanks;
}

module _ ⦃u : Runtime⦄ where
  -- The loop over the languages of the draft.
  unfoldable pub adopt_languages :
      WorkspaceStyle → StyleWords → StyleParts → List Text → Dict Localization → Dict Localization
  unfolding adopted_found
  adopt_languages account own same [] m = m
  adopt_languages account own same (lang ∷ langs) m = adopt_languages account own same langs (
      adopted_found own same (pending_for account lang same) lang (lookup lang account.translations)
        (lookup lang m) m)

  unfoldable pub adopt_style_translations : Draft → WorkspaceStyle → StyleParts → Draft
  unfolding same_words adopt_languages
  adopt_style_translations d account parts =
      let own = words_of d.style in
      let same = same_words own (words_of account.style) parts word_parts no_parts in
      record d {
        localizations =
            if parts_is_zero parts || eqb (size d.localizations) 0 || parts_is_zero same
            then d.localizations
            else adopt_languages account own same (languages d) d.localizations;
      }

  set_valid :
      Draft
      → WorkspaceStyle
      → Style
      → StyleParts
      → Option Bool
      → Option Bool
      → Option Error
      → Draft × Option Error
  unfolding with_parts_from adopt_style_translations newly_own
  set_valid d account s carried header footer (some e) = (d, some e)
  set_valid d account s carried header footer none =
      let after = with_parts_from d account.style s carried header footer in
      (adopt_style_translations after account (newly_own (own_parts d) (own_parts after)), none)

  unfoldable pub set_style_from_form :
      Draft → WorkspaceStyle → Style → StyleParts → Option Bool → Option Bool → Draft × Option Error
  unfolding settled_style set_valid
  set_style_from_form d account submitted carried header footer =
      let s = settled_style submitted in
      set_valid d account s carried header footer (validate_style s)
