-- ===== src/Domain/Errors.antt =====
-- internal/domain/errors.go, with the sentinels that the validators of the package declare: the
-- errors as values, and how a number in one of them is worded.
pub mod Grouping
pub mod Message
use earful.Prelude.{ℕ, List}
use earful.Prelude.Int.{ℤ}
use earful.Prelude.Text.{Text}

pub data LimitKind : Type 0 where
  limit_answer_text limit_question_text limit_title limit_scale limit_bounds : LimitKind
  limit_questions limit_languages limit_thanks_message limit_thanks_label : LimitKind
  limit_style_name limit_style_tagline limit_style_footer limit_style_links : LimitKind
  limit_style_logo_alt limit_style_thanks_alt limit_style_images : LimitKind
  limit_account_style_images : LimitKind

pub data StylePart : Type 0 where
  style_theme style_header_name style_header_text style_header_links style_banner : StylePart
  style_logo style_logo_alt style_footer_text style_footer_links : StylePart
  style_thanks_picture style_thanks_image style_thanks_alt : StylePart

-- A Go `error` of the package is `Option Error`, and nil is `none`.
pub data Error : Type 0 where
  -- survey.go
  draft_empty question_unknown empty_title : Error
  -- question.go
  empty_question_text unknown_type too_few_options empty_option duplicate_option : Error
  other_not_offered reserved_option : Error
  -- answer.go
  required_answer not_an_option out_of_range not_a_date other_empty : Error
  -- localization.go
  unknown_language language_invalid language_exists unreviewed_translation : Error
  -- thanks.go
  thanks_link_url thanks_link_label thanks_link_address : Error
  -- style.go, workspace_style.go, style_choice.go
  unknown_theme bad_style_logo_alt bad_style_image unknown_thanks_picture : Error
  thanks_image_missing thanks_image_alt account_words_changed : Error
  account_style_translation : Text → Error
  -- errors.go
  limit : LimitKind → ℕ → Error
  range : ℤ → ℤ → Error
  style : StylePart → ℕ → Error → Error
  question : ℕ → Error → Error
