-- ===== src/Domain/Localization.antt =====
-- internal/domain/localization.go: what a language holds of a draft.
use earful.Prelude.{Bool, Option, List}
use earful.Domain.Style.Translate.{LocalizedStyle}
use earful.Prelude.Dict.{Dict}
use earful.Prelude.Text.{Text}

pub record LocalizedThanks : Type 0 where
  pub message : Text
  pub link_label : Text
  pub reviewed : Bool
  pub source_message : Text
  pub source_link_label : Text

pub record LocalizedQuestion : Type 0 where
  pub text : Text
  pub options : List Text
  pub reviewed : Bool
  pub source_text : Text

pub record Localization : Type 0 where
  pub lang : Text
  pub questions : Dict LocalizedQuestion
  pub thanks : Option LocalizedThanks
  pub style : Option LocalizedStyle
