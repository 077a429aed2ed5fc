-- ===== src/Domain/Question/Types.antt =====
-- internal/domain/question.go: `QuestionType`, what each type needs, and `Question`.
use earful.Prelude.{Bool, true, false, List}
use earful.Prelude.Int.{ℤ}
use earful.Prelude.Text.{Text, codes}

-- `unknown` is a string that is none of the ten constants.
pub data QuestionType : Type 0 where
  long_text short_text single_choice multiple_choice rating_scale nps : QuestionType
  yes_no dropdown date number : QuestionType
  unknown : Text → QuestionType

unfoldable pub label : QuestionType → Text
label long_text = codes "Long text"
label short_text = codes "Short text"
label single_choice = codes "Single choice"
label multiple_choice = codes "Multiple choice"
label rating_scale = codes "Rating scale"
label nps = codes "Net Promoter Score"
label yes_no = codes "Yes / No"
label dropdown = codes "Dropdown"
label date = codes "Date"
label number = codes "Number"
label (unknown t) = t

unfoldable pub needs_options : QuestionType → Bool
needs_options single_choice = true
needs_options multiple_choice = true
needs_options dropdown = true
needs_options _ = false

unfoldable pub needs_scale : QuestionType → Bool
needs_scale rating_scale = true
needs_scale _ = false

unfoldable pub has_bounds : QuestionType → Bool
has_bounds rating_scale = true
has_bounds number = true
has_bounds _ = false

unfoldable pub accepts_voice : QuestionType → Bool
accepts_voice long_text = true
accepts_voice short_text = true
accepts_voice _ = false

-- The loop over `QuestionTypes`: the type is one of the ten.
unfoldable pub valid : QuestionType → Bool
valid (unknown t) = false
valid _ = true

-- The tests `q.Type == NPS` and `q.Type == Number`.
unfoldable pub is_nps : QuestionType → Bool
is_nps nps = true
is_nps _ = false

unfoldable pub is_number : QuestionType → Bool
is_number number = true
is_number _ = false

pub record Question : Type 0 where
  pub identity_id : Text
  pub type : QuestionType
  pub text : Text
  pub options : List Text
  pub required : Bool
  pub scale_min : ℤ
  pub scale_max : ℤ
  pub allow_other : Bool
