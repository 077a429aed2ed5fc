-- ===== src/Tests/Data.antt =====
-- The inputs that the examples share: a runtime over ASCII, questions, and a draft with a language.
use earful.Runtime.{ascii_upper, Url, ascii_lower, Runtime}
use earful.Prelude.{
  none, refl, if◌then◌else◌, some, ◌==◌, arith, [], true, eqb, false, ◌∷◌, nat_eq, list_eq, bool_eq,
}
use earful.Domain.Localization.{Localization}
use earful.Domain.Thanks.{ThankYou}
use earful.Domain.Answer.{AnswerValue}
use earful.Domain.Draft.{Draft, new_draft}
use earful.Domain.Question.{Question, long_text, rating_scale, single_choice}
use earful.Prelude.Dict.{empty, insert}
use earful.Prelude.Text.{codes, Text}
use earful.Prelude.Int.{pos}

abbrev pub example_url : Url
example_url = record {
  scheme = codes "https";
  host = codes "earful.app";
  hostname = codes "earful.app";
  opaque = [];
  user = false;
}

abbrev pub example_address : Text
example_address = codes "https://earful.app"

-- A runtime that knows the cases of ASCII only, and one address.
instance abbrev pub ascii : Runtime
ascii = record {
  lower_rune = ascii_lower;
  upper_rune = ascii_upper;
  same_fold = λ c d. eqb (ascii_lower c) (ascii_lower d);
  parse_url = λ t. if t == example_address then some example_url else none;
  lower_ascii = λ c h. refl;
  upper_ascii = λ c h. refl;
  lower_idem = λ c. ground arith;
  upper_idem = λ c. ground arith;
  lower_dash = λ c h. ground arith;
  same_fold_refl = λ c. ground arith;
}

abbrev pub rating : Question
rating = record {
  identity_id = codes "q1";
  type = rating_scale;
  text = codes "How was it?";
  options = [];
  required = true;
  scale_min = pos 1;
  scale_max = pos 5;
  allow_other = false;
}

abbrev pub comments : Question
comments = record {
  identity_id = codes "q2";
  type = long_text;
  text = codes "Anything else?";
  options = [];
  required = false;
  scale_min = pos 0;
  scale_max = pos 0;
  allow_other = false;
}

abbrev pub choice_question : Question
choice_question = record {
  identity_id = codes "q3";
  type = single_choice;
  text = codes "Which?";
  options = codes "Tea" ∷ codes "Coffee" ∷ [];
  required = true;
  scale_min = pos 0;
  scale_max = pos 0;
  allow_other = true;
}

abbrev pub blank_answer : AnswerValue
blank_answer = record {
  text = [];
  choice = [];
  choices = [];
  number = none;
  bool = none;
  date = [];
  other = [];
}

abbrev pub four : AnswerValue
four = record blank_answer { number = some (pos 4) }

abbrev pub page : ThankYou
page = record { message = codes "Thank you"; link_label = codes "More"; link_url = example_address }

abbrev pub two_questions : Draft
two_questions = record new_draft { questions = rating ∷ comments ∷ []; thanks = page }

abbrev pub dutch : Text
dutch = codes "nl"

abbrev pub german : Text
german = codes "de"

abbrev pub dutch_words : Localization
dutch_words = record { lang = dutch; questions = empty; thanks = none; style = none }

abbrev pub with_dutch : Draft
with_dutch = record two_questions { localizations = insert dutch dutch_words empty }
