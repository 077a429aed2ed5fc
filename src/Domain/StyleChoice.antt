-- ===== src/Domain/StyleChoice.antt =====
-- internal/domain/style_choice.go: which parts of a survey's style are its own and which it follows
-- from its account, and the style that the two resolve to.
use earful.Prelude.{false, ◌&&◌, refl, arith, ◌||◌, true, if◌then◌else◌, Bool, not, is_nil, ◌≡◌}
use earful.Domain.Draft.{no_choice, Draft}
use earful.Domain.Style.{
  StyleParts, same_thanks, same_theme, same_header, words_of, words_is_zero, thanks_is_zero,
  StyleWords, only, no_footer, no_style, footer_is_zero, Style, same_footer, header_is_zero,
  no_header,
}

-- `OwnParts`: the parts named as the survey's own, and any part with something in it.
unfoldable pub own_parts : Draft → StyleParts
own_parts d = record {
  theme = d.style_choice.own.theme || not (is_nil d.style.theme);
  header = d.style_choice.own.header || not (header_is_zero d.style.header);
  footer = d.style_choice.own.footer || not (footer_is_zero d.style.footer);
  thanks = d.style_choice.own.thanks || not (thanks_is_zero d.style.thanks);
}

unfoldable pub followed_parts : Draft → StyleParts
followed_parts d =
    let own = own_parts d in
    record {
      theme = not own.theme;
      header = not own.header && not d.style_choice.no_header;
      footer = not own.footer && not d.style_choice.no_footer;
      thanks = not own.thanks;
    }

-- `FormStyle`: the account's style with the survey's own parts laid over it.
unfoldable pub form_style : Draft → Style → Style
form_style d account =
    let own = own_parts d in
    record {
      theme = if own.theme then d.style.theme else account.theme;
      header = if own.header then d.style.header else account.header;
      footer = if own.footer then d.style.footer else account.footer;
      thanks = if own.thanks then d.style.thanks else account.thanks;
    }

unfoldable pub resolved_style : Draft → Style → Style
resolved_style d account =
    let s = form_style d account in
    record s {
      header = if d.style_choice.no_header then no_header else s.header;
      footer = if d.style_choice.no_footer then no_footer else s.footer;
    }

unfoldable pub reset_style : Draft → Draft
reset_style d = record d { style = no_style; style_choice = no_choice }

-- `ownWordParts`: the parts whose words the survey translates itself.
unfoldable pub own_word_parts : Draft → StyleParts
own_word_parts d =
    let own = own_parts d in
    record {
      theme = false;
      header = own.header && not d.style_choice.no_header;
      footer = own.footer && not d.style_choice.no_footer;
      thanks = own.thanks;
    }

unfoldable pub followed_word_parts : Draft → StyleParts
followed_word_parts d = record (followed_parts d) { theme = false }

unfoldable pub own_style_words : Draft → StyleWords
own_style_words d = only (words_of d.style) (own_word_parts d)

unfoldable pub follows_account_words : Draft → Style → Bool
follows_account_words d account =
    not (words_is_zero (only (words_of account) (followed_word_parts d)))

-- `StyleDiffers`: the parts that draw different pages.
unfoldable pub style_differs : Style → Style → StyleParts
style_differs a b = record {
  theme = not (same_theme a.theme b.theme);
  header = not (same_header a.header b.header);
  footer = not (same_footer a.footer b.footer);
  thanks = not (same_thanks a.thanks b.thanks);
}

-- No part is both the survey's own and followed, and the theme and the thank you picture are always
-- one of the two; the header and the footer are drawn from the survey where they are its own and not
-- turned off, from the account where they are followed, and empty otherwise.
pub followed_parts_lem :
    (d : Draft) (account : Style)
    → let own = own_parts d in
      let follows = followed_parts d in
      (follows.theme ≡ not own.theme)
      × (follows.thanks ≡ not own.thanks)
      × ((own.header && follows.header) ≡ false)
      × ((own.footer && follows.footer) ≡ false)
      × ((resolved_style d account).header ≡ (
          if own.header && not d.style_choice.no_header
          then d.style.header
          else if follows.header
          then account.header
          else no_header))
      × ((resolved_style d account).footer ≡ (
          if own.footer && not d.style_choice.no_footer
          then d.style.footer
          else if follows.footer
          then account.footer
          else no_footer))
unfolding followed_parts resolved_style form_style
followed_parts_lem d account = ground arith

-- The pages of a survey change with its account's style only in the parts that it follows: two
-- accounts that agree on those resolve to the same style.
pub resolved_style-eq :
    (d : Draft) (a b : Style)
    → let follows = followed_parts d in
      (follows.theme ≡ true → a.theme ≡ b.theme)
      → (follows.header ≡ true → a.header ≡ b.header)
      → (follows.footer ≡ true → a.footer ≡ b.footer)
      → (follows.thanks ≡ true → a.thanks ≡ b.thanks)
      → resolved_style d a ≡ resolved_style d b
unfolding followed_parts resolved_style form_style
resolved_style-eq d a b t h f k = ground arith

-- A survey reset to its account's style is drawn in that style, whole.
pub resolved_style-reset_style :
    (d : Draft) (account : Style) → resolved_style (reset_style d) account ≡ account
unfolding resolved_style form_style own_parts reset_style header_is_zero footer_is_zero
    thanks_is_zero
resolved_style-reset_style d account = refl
