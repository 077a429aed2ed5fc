-- ===== src/Domain/Errors/Message.antt =====
-- `Error()` of the errors of internal/domain: what each says in English.
use Prim.Native.Nat.{ℕ}
use earful.Prelude.{◌++◌}
use earful.Domain.Errors.{
  empty_title, not_an_option, limit_account_style_images, too_few_options, not_a_date,
  limit_style_footer, reserved_option, unknown_language, range, style_thanks_alt, other_not_offered,
  limit_style_logo_alt, style, style_header_text, limit, language_exists, bad_style_image,
  style_header_links, out_of_range, limit_thanks_label, required_answer, style_banner, StylePart,
  unknown_theme, limit_style_name, empty_option, limit_languages, limit_title,
  limit_style_thanks_alt, limit_question_text, style_logo, bad_style_logo_alt, style_thanks_image,
  unknown_thanks_picture, LimitKind, language_invalid, thanks_link_address, unknown_type,
  duplicate_option, thanks_link_url, style_header_name, question, thanks_image_missing,
  style_footer_links, account_words_changed, unreviewed_translation, limit_style_tagline,
  style_logo_alt, draft_empty, thanks_link_label, empty_question_text, limit_questions, other_empty,
  thanks_image_alt, limit_scale, limit_answer_text, limit_style_images, limit_thanks_message,
  limit_style_links, limit_bounds, style_theme, style_thanks_picture, Error, style_footer_text,
  account_style_translation, question_unknown,
}
use earful.Domain.Errors.Grouping.{grouped}
use earful.Prelude.Text.Decimal.{itoa}
use earful.Prelude.Text.{codes, Text}
use earful.Prelude.Int.{neg, pos}

under : Text → ℕ → Text
under words n = codes "keep the " ++ words ++ codes " under " ++ itoa (pos n) ++ codes " characters"

-- `LimitError.Error`.
limit_message : LimitKind → ℕ → Text
unfolding under
limit_message limit_answer_text n =
    codes "please keep the answer under " ++ itoa (pos n) ++ codes " characters"
limit_message limit_question_text n = under (codes "question") n
limit_message limit_title n = under (codes "title") n
limit_message limit_scale n =
    codes "the scale must start at 0 or 1 and end no higher than " ++ itoa (pos n)
limit_message limit_bounds n =
    codes "the lowest answer must be below the highest, and both between "
    ++ grouped (neg (pos n))
    ++ codes " and "
    ++ grouped (pos n)
limit_message limit_questions n =
    codes "a survey can hold at most " ++ itoa (pos n) ++ codes " questions"
limit_message limit_languages n =
    codes "a survey can carry at most " ++ itoa (pos n) ++ codes " languages"
limit_message limit_thanks_message n = under (codes "thank you message") n
limit_message limit_thanks_label n = under (codes "link label") n
limit_message limit_style_name n = under (codes "name") n
limit_message limit_style_tagline n = under (codes "tagline") n
limit_message limit_style_footer n = under (codes "footer text") n
limit_message limit_style_links n = codes "add at most " ++ itoa (pos n) ++ codes " links"
limit_message limit_style_logo_alt n = under (codes "logo description") n
limit_message limit_style_thanks_alt n = under (codes "picture description") n
limit_message limit_style_images n =
    codes "this survey already keeps " ++ itoa (pos n) ++ codes " images, which is the most it can"
limit_message limit_account_style_images n =
    codes "your account style already keeps "
    ++ itoa (pos n)
    ++ codes " images, which is the most it can"

part_name : StylePart → Text
part_name style_theme = codes "theme"
part_name style_header_name = codes "header_name"
part_name style_header_text = codes "header_tagline"
part_name style_header_links = codes "header_links"
part_name style_banner = codes "banner"
part_name style_logo = codes "logo"
part_name style_logo_alt = codes "logo_alt"
part_name style_footer_text = codes "footer_text"
part_name style_footer_links = codes "footer_links"
part_name style_thanks_picture = codes "thanks_picture"
part_name style_thanks_image = codes "thanks_image"
part_name style_thanks_alt = codes "thanks_alt"

unfoldable pub message : Error → Text
unfolding limit_message part_name itoa
message draft_empty = codes "add at least one question before publishing"
message question_unknown = codes "that question is not part of this draft"
message empty_title = codes "give the survey a title"
message empty_question_text = codes "give the question some text"
message unknown_type = codes "choose a question type"
message too_few_options = codes "list at least two options"
message empty_option = codes "remove the blank option"
message duplicate_option = codes "two options are identical"
message other_not_offered = codes "only a choice question can offer Other"
message reserved_option = codes "choose a different wording for that option"
message required_answer = codes "this question needs an answer"
message not_an_option = codes "choose one of the options offered"
message out_of_range = codes "choose a value on the scale"
message not_a_date = codes "enter a date as year, month and day"
message other_empty = codes "write your answer in the box for Other"
message unknown_language = codes "that language is not part of this survey"
message language_invalid = codes "use a language code like \"nl\" or \"pt-BR\""
message language_exists = codes "that language is already on this survey"
message unreviewed_translation =
    codes "review every translation before publishing, or remove the language"
message thanks_link_url =
    codes "the link address must start with http:// or https:// and name a website"
message thanks_link_label = codes "give the link a label, so people know where it goes"
message thanks_link_address = codes "add the address the link goes to, or clear its label"
message unknown_theme = codes "choose one of the themes offered"
message bad_style_logo_alt = codes "say what the logo shows, for people who cannot see it"
message bad_style_image = codes "that image cannot be used"
message unknown_thanks_picture = codes "choose one of the pictures offered"
message thanks_image_missing = codes "choose an image to upload, or another picture"
message thanks_image_alt = codes "say what the picture shows, for people who cannot see it"
message account_words_changed =
    codes
      "your account style's words changed while this page was open, so read the new wording and save again"
message (account_style_translation lang) = codes "the account style is not reviewed in " ++ lang
message (limit kind n) = limit_message kind n
message (range min max) =
    codes "enter a whole number from " ++ grouped min ++ codes " to " ++ grouped max
message (style part link e) = part_name part ++ codes ": " ++ message e
message (question position e) = codes "question " ++ itoa (pos position) ++ codes ": " ++ message e
