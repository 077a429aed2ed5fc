-- ===== src/Tests/Publishing.antt =====
-- Form tokens, and what publishing asks for, at concrete inputs.
use earful.Tests.Data.{ascii, dutch, with_dutch, dutch_words, page, rating, comments}
use earful.Antibot.FormToken.{
  FormTokens, form_token_invalid, check-IsFresh, issue, check-issue, form_too_fast, check, IsFresh,
}
use earful.Prelude.{
  ◌≡◌, ◌/◌, false, ltb, ◌-◌, ◌*◌, ◌↔◌, ◌⊎◌, [], All, ◌∷◌, some, ◌||◌, if◌then◌else◌, true, arith,
  refl, not, none, ◌∙◌, ap, contains, sym, subst, eq_iff, nat_eq, list_eq, bool_eq,
}
use earful.Domain.Publication.{
  IsReviewed, ready_to_publish, first_with, ready_to_publish-IsReviewed, languages, unreviewed_in,
  ready_to_publish-account, first_loop,
}
use earful.Domain.Thanks.{no_thanks, ThankYou}
use earful.Domain.WorkspaceStyle.{WorkspaceStyle, pending_for}
use earful.Domain.StyleForm.{set_style_from_form}
use earful.Domain.StyleRefresh.{
  version_draft, PublishedVersion, blocked, version_languages, refresh_against,
}
use earful.Domain.StyleLanguages.{account_style_pending, style_pending}
use earful.Domain.Errors.{account_style_translation}
use earful.Domain.Draft.{Draft, new_draft}
use earful.Domain.StyleChoice.{
  resolved_style, followed_parts, style_differs, form_style, followed_word_parts, own_style_words,
}
use earful.Domain.Style.{
  same_theme, StyleParts, no_style, same_footer, same_thanks, no_parts, no_header, Style,
  same_header, StyleWords,
}
use earful.Domain.StyleForm.Drawn.{set_style_from_form-form_style}
use earful.Domain.StyleRefresh.Reviewed.{IsPublished}
use earful.Domain.StyleRefresh.Ready.{refresh_against-blocked}
use earful.Domain.StyleRefresh.Drawn.{style_differs-version_draft}
use earful.Prelude.Dict.{
  lookup-insert_self, found, keys, empty, lookup, insert, keys-insert-empty, lookup-empty,
  keys-empty,
}
use earful.Prelude.Text.{codes, Text}
use earful.Prelude.Int.{pos, int_eq, int_eq}
use earful.Domain.Language.{normalize_lang}
use earful.Domain.Style.Validate.{validate_style}
use earful.Domain.Draft.Languages.Thanks.{thanks_pending}
use earful.Domain.Draft.Languages.Pending.{pending}
use earful.Prelude.Text.Sort.{sort_strings}

-- A signature that shows its message, which serves where no one forges it.
abbrev shown_mac : FormTokens
shown_mac = record { mac = λ message. message }

check-issue_example :
    let drawn = 1700000000123456789 / 1000000 * 1000000 in
    check shown_mac
      (pos 1700000007123456789)
      (codes "s1")
      (issue shown_mac (pos 1700000000123456789) (codes "s1"))
      (pos 3000000000)
    ≡ (if ltb 1700000007123456789 drawn || ltb 86400000000000 (1700000007123456789 - drawn)
        then some form_token_invalid
        else if ltb (1700000007123456789 - drawn) 3000000000
        then some form_too_fast
        else none)
check-issue_example =
    check-issue shown_mac (codes "s1") 1700000000123456789 1700000007123456789 3000000000
      (omega arith)

check-IsFresh_example :
    (check shown_mac (pos 5000000) (codes "s1") (codes "2.s1|2") (pos 0) ≡ none)
    ↔ IsFresh shown_mac (pos 5000000) (codes "s1") (codes "2.s1|2") (pos 0)
check-IsFresh_example = check-IsFresh shown_mac (pos 5000000) (codes "s1") (codes "2.s1|2") (pos 0)

abbrev plain_account : WorkspaceStyle
plain_account = record { style = no_style; translations = empty }

ready_to_publish-IsReviewed_example :
    (ready_to_publish with_dutch plain_account ≡ none)
    ↔ All (IsReviewed with_dutch plain_account) (keys with_dutch.localizations)
ready_to_publish-IsReviewed_example = ready_to_publish-IsReviewed with_dutch plain_account

abbrev wordy_style : Style
wordy_style = record no_style { header = record no_header { tagline = codes "We listen" } }

abbrev wordy_account : WorkspaceStyle
wordy_account = record { style = wordy_style; translations = empty }

abbrev empty_dutch : Draft
empty_dutch = record new_draft { localizations = insert dutch dutch_words empty }

normal_nl : normalize_lang dutch ≡ dutch
unfolding normalize_lang earful.Prelude.Text.trim_space
normal_nl = refl

dutch_only : languages empty_dutch ≡ dutch ∷ []
unfolding languages sort_strings
dutch_only = rw keys-insert-empty refl

nothing_own : unreviewed_in empty_dutch dutch ≡ false
unfolding unreviewed_in pending thanks_pending style_pending own_style_words
    earful.Domain.Style.only earful.Domain.StyleChoice.own_word_parts
    earful.Domain.StyleChoice.own_parts earful.Domain.Style.header_is_zero
    earful.Domain.Style.footer_is_zero earful.Domain.Style.thanks_is_zero
nothing_own = rw (normal_nl, lookup-insert_self) refl

tagline_behind : account_style_pending empty_dutch wordy_account dutch ≡ true
unfolding account_style_pending pending_for followed_word_parts earful.Domain.Style.only
    followed_parts earful.Domain.StyleChoice.own_parts earful.Domain.Style.header_is_zero
    earful.Domain.Style.words_of
tagline_behind = rw (normal_nl, lookup-empty) refl

own_read : first_with (unreviewed_in empty_dutch) (languages empty_dutch) ≡ none
unfolding first_with
own_read = rw (dutch_only, nothing_own) refl

account_behind :
    first_with (account_style_pending empty_dutch wordy_account) (languages empty_dutch)
    ≡ some dutch
unfolding first_with
account_behind = rw (dutch_only, tagline_behind) refl

held_back : ready_to_publish empty_dutch wordy_account ≡ some (account_style_translation dutch)
unfolding ready_to_publish
held_back = rw (own_read, first_loop, account_behind) refl

dutch_there : found (lookup dutch empty_dutch.localizations) ≡ true
dutch_there = rw lookup-insert_self refl

ready_to_publish-account_example :
    (found (lookup dutch empty_dutch.localizations) ≡ true)
    × (account_style_pending empty_dutch wordy_account dutch ≡ true)
    × (unreviewed_in empty_dutch dutch ≡ false)
ready_to_publish-account_example =
    ready_to_publish-account empty_dutch wordy_account dutch dutch held_back dutch_there

abbrev header_only : StyleParts
header_only = record no_parts { header = true }

abbrev theme_and_header : StyleParts
theme_and_header = record header_only { theme = true }

abbrev themed_style : Style
themed_style = record wordy_style { theme = codes "forest" }

abbrev edited_draft : Draft
edited_draft =
    (set_style_from_form new_draft plain_account themed_style theme_and_header (some false)
      (some true)).0

edited_fine :
    set_style_from_form new_draft plain_account themed_style theme_and_header
      (some false)
      (some true)
    ≡ (edited_draft, none)
unfolding set_style_from_form validate_style earful.Domain.Style.Validate.known_theme
    earful.Domain.Style.stored_theme earful.Prelude.list_beq
    earful.Domain.Style.Validate.validate_header earful.Domain.Style.Validate.validate_links
    earful.Domain.Style.Validate.validate_image earful.Domain.Style.Validate.validate_footer
    earful.Domain.Style.Validate.validate_style_thanks earful.Domain.Style.settled
edited_fine = refl

set_style_from_form-form_style_example :
    let before = form_style new_draft plain_account.style in
    let after = form_style edited_draft plain_account.style in
    (same_theme after.theme (codes "forest") ≡ true)
    × (same_header after.header themed_style.header ≡ true)
    × (same_footer after.footer before.footer ≡ true)
    × (same_thanks after.thanks before.thanks ≡ true)
    × (not edited_draft.style_choice.no_header ≡ false)
    × (not edited_draft.style_choice.no_footer ≡ true)
    × (edited_draft.questions ≡ [])
    × (edited_draft.thanks ≡ no_thanks)
set_style_from_form-form_style_example =
    set_style_from_form-form_style new_draft edited_draft plain_account themed_style
      theme_and_header (some false) (some true) edited_fine

abbrev small_version : PublishedVersion
small_version = record {
  questions = rating ∷ comments ∷ [];
  question_translations = insert dutch empty empty;
  thanks = page;
  thanks_translations = empty;
  style = wordy_style;
  style_translations = empty;
  follows = header_only;
}

style_differs-version_draft_example :
    style_differs wordy_style (resolved_style (version_draft small_version) no_style) ≡ record {
      theme = false;
      header = not (same_header wordy_style.header no_style.header);
      footer = false;
      thanks = false;
    }
style_differs-version_draft_example =
    style_differs-version_draft small_version no_style (λ z. refl, λ z. refl)

small_languages : version_languages small_version ≡ dutch ∷ []
unfolding version_languages sort_strings earful.Prelude.contains
small_languages = rw (keys-insert-empty, keys-empty ThankYou, keys-empty StyleWords) refl

stored : (lang : Text) → contains (dutch ∷ []) lang ≡ true → normalize_lang lang ≡ lang
unfolding earful.Prelude.contains
stored lang there =
    let same : dutch ≡ lang = ground (arith, eq_iff dutch lang) in
    subst (λ x. normalize_lang x ≡ x) same normal_nl

small-IsPublished : IsPublished small_version
unfolding earful.Prelude.contains earful.Prelude.list_beq earful.Domain.Style.covers own_style_words
    earful.Domain.Style.only earful.Domain.StyleChoice.own_word_parts
    earful.Domain.StyleChoice.own_parts earful.Domain.StyleRefresh.version_base
    earful.Domain.Style.header_is_zero earful.Domain.Style.footer_is_zero
    earful.Domain.Style.words_of
small-IsPublished = record {
  distinct = (refl, (refl, tt));
  codes_stored =
      λ lang there. stored lang (ap (λ l. contains l lang) (sym small_languages) ∙ there);
  thanks_whole = λ lang t h. absurd (ground (arith, lookup-empty {V = ThankYou} lang));
  style_labelled = refl;
  style_whole = λ lang w h. absurd (ground (arith, lookup-empty {V = StyleWords} lang));
}

refresh_against-blocked_example :
    let d = version_draft small_version in
    let named = (refresh_against small_version wordy_account).blocked_in in
    (first_with (unreviewed_in d) (languages d) ≡ none)
    × (((ready_to_publish d wordy_account ≡ none) × (named ≡ []))
        ⊎ ((ready_to_publish d wordy_account ≡ some (account_style_translation named))
            × (account_style_pending d wordy_account named ≡ true)))
refresh_against-blocked_example =
    refresh_against-blocked small_version wordy_account small-IsPublished
