-- ===== src/Tests/Drafts.antt =====
-- Drafts, their edits and their languages at concrete inputs.
use mathlib.Core.List.{Perm}
use earful.Tests.Data.{
  ascii, choice_question, dutch_words, rating, page, german, two_questions, comments, dutch,
  with_dutch,
}
use earful.Prelude.{
  refl, List, ◌≢◌, ◌∷◌, remove_at, ◌&&◌, some, if◌then◌else◌, none, ◌≡◌, not, true, arith, contains,
  ◌↔◌, [], ◌||◌, false, ◌≤◌, is_nil, nat_eq, list_eq, bool_eq,
}
use earful.Domain.Localization.{LocalizedThanks, Localization, LocalizedQuestion}
use earful.Domain.Thanks.{normalize_message}
use earful.Domain.Language.{normalize_lang, valid_lang}
use earful.Domain.Errors.{empty_question_text}
use earful.Domain.Draft.{identities, Draft, index_of}
use earful.Domain.Question.{validate, Question}
use earful.Domain.Question.Validate.Valid.{validate-WellFormed}
use earful.Domain.Draft.Publish.{
  IsPublishable, validate_for_publish, validate_for_publish-IsPublishable,
}
use earful.Domain.Draft.Languages.{has_language, add_language, set_translation}
use earful.Domain.Draft.Keeps.{
  DraftEdit, add_question, edited_by, IsValid, move_question, remove_question, AllMinted,
  edited_by-IsValid,
}
use earful.Domain.Draft.Edit.{replace, move}
use earful.Domain.Draft.Order.{move_lem}
use earful.Domain.Draft.Languages.Thanks.{
  has_thanks_to_translate, set_thanks_translation, set_thanks_translation-localized_thanks,
  localized_thanks, kept_with,
}
use earful.Domain.Draft.Languages.Pending.{
  pending, replace-pending, set_translation-pending, others,
}
use earful.Prelude.Dict.{lookup, insert, empty, lookup-insert_self, lookup-empty, size-empty}
use earful.Prelude.Text.{trim_space, codes}
use earful.Prelude.Int.{◌+ℤ◌, pos, int_eq, int_eq, int_eq, int_eq, IsInt64}

rating_passes : validate rating ≡ none
unfolding validate trim_space
rating_passes = refl

comments_pass : validate comments ≡ none
unfolding validate trim_space
comments_pass = refl

two_questions-IsValid : IsValid two_questions.questions
unfolding contains earful.Prelude.list_beq
two_questions-IsValid = record {
  within = omega arith;
  well = (
    (validate-WellFormed rating).0 rating_passes,
    ((validate-WellFormed comments).0 comments_pass, tt),
  );
  distinct = (refl, (refl, tt));
}

abbrev edits : List DraftEdit
edits =
    add_question choice_question
    ∷ move_question (codes "q1") (pos 1)
    ∷ remove_question (codes "q2")
    ∷ []

edits-AllMinted : AllMinted two_questions edits
unfolding contains earful.Prelude.list_beq
edits-AllMinted = (refl, (tt, (tt, tt)))

edited_by-IsValid_example : IsValid (edited_by two_questions edits).questions
edited_by-IsValid_example =
    edited_by-IsValid two_questions edits two_questions-IsValid edits-AllMinted

at_first : index_of (codes "q1") two_questions.questions ≡ some 0
unfolding index_of earful.Prelude.list_beq
at_first = refl

five_right : IsInt64 (pos 0 +ℤ pos 5)
unfolding ◌+ℤ◌
five_right = (omega arith, omega arith)

move_lem_example :
    let after = (move two_questions (codes "q1") (pos 5)).0.questions in
    (index_of (codes "q1") after ≡ some 1)
    × (remove_at 1 after ≡ remove_at 0 two_questions.questions)
    × Perm after two_questions.questions
    × ((move two_questions (codes "q1") (pos 5)).1 ≡ none)
move_lem_example =
    move_lem two_questions (codes "q1") (pos 5) 0 two_questions-IsValid.distinct at_first five_right

one_right : pos 0 +ℤ pos 1 ≡ pos 1
unfolding ◌+ℤ◌
one_right = refl

validate_for_publish-IsPublishable_example :
    (validate_for_publish two_questions ≡ none) ↔ IsPublishable two_questions
validate_for_publish-IsPublishable_example = validate_for_publish-IsPublishable two_questions

abbrev blank_question : Question
blank_question = record comments { text = codes "  " }

abbrev with_blank : Draft
with_blank = record two_questions { questions = rating ∷ blank_question ∷ [] }

blank_refused : validate blank_question ≡ some empty_question_text
unfolding validate trim_space
blank_refused = refl

normal_dutch : normalize_lang dutch ≡ dutch
unfolding normalize_lang trim_space
normal_dutch = refl

valid_dutch : valid_lang (normalize_lang dutch) ≡ true
unfolding valid_lang earful.Prelude.Text.byte_len
valid_dutch = rw normal_dutch refl

normal_german : normalize_lang german ≡ german
unfolding normalize_lang trim_space
normal_german = refl

german-ne-dutch : normalize_lang german ≢ normalize_lang dutch
german-ne-dutch = rw (normal_german, normal_dutch) (ground arith)

dutch_there : lookup (normalize_lang dutch) with_dutch.localizations ≡ some dutch_words
dutch_there = rw (normal_dutch, lookup-insert_self) refl

set_translation-pending_example :
    (pending (set_translation with_dutch dutch (codes "q1") (codes "Hoe was het?") [] true).0 dutch
      ≡ others (codes "q1") (pending with_dutch dutch))
    × (pending
          (set_translation with_dutch dutch (codes "q1") (codes "Hoe was het?") [] true).0
          german
        ≡ pending with_dutch german)
set_translation-pending_example =
    set_translation-pending with_dutch dutch german (codes "q1") (codes "Hoe was het?") []
      dutch_words 0 two_questions-IsValid.distinct dutch_there at_first german-ne-dutch

abbrev translated : LocalizedQuestion
translated = record {
  text = codes "Hoe was het?";
  options = [];
  reviewed = true;
  source_text = rating.text;
}

abbrev some_dutch : Localization
some_dutch = record dutch_words { questions = insert (codes "q1") translated empty }

abbrev with_some_dutch : Draft
with_some_dutch = record two_questions { localizations = insert dutch some_dutch empty }

abbrev reworded : Question
reworded = record rating { text = codes "How was the food?" }

reworded_passes : validate reworded ≡ none
unfolding validate trim_space
reworded_passes = refl

reworded-ne : reworded.text ≢ rating.text
reworded-ne = ground arith

some_dutch_there : lookup (normalize_lang dutch) with_some_dutch.localizations ≡ some some_dutch
some_dutch_there = rw (normal_dutch, lookup-insert_self) refl

replace-pending_example :
    contains
      (identities (pending (replace with_some_dutch (codes "q1") reworded).0 dutch))
      (codes "q1")
    ≡ true
replace-pending_example =
    replace-pending with_some_dutch dutch reworded rating some_dutch translated 0 at_first refl
      reworded_passes some_dutch_there (lookup-insert_self (codes "q1") translated empty) refl
      reworded-ne

valid_code : valid_lang dutch ≡ true
unfolding valid_lang earful.Prelude.Text.byte_len
valid_code = refl

dutch_added : add_language two_questions dutch ≡ (with_dutch, none)
unfolding add_language has_language
dutch_added =
    rw (normal_dutch, normal_dutch, lookup-empty, size-empty Localization, valid_code) refl

abbrev dutch_thanks : LocalizedThanks
dutch_thanks = record {
  message = codes "Dank je";
  link_label = codes "Meer";
  reviewed = true;
  source_message = page.message;
  source_link_label = page.link_label;
}

abbrev with_dutch_thanks : Draft
with_dutch_thanks = record with_dutch {
  localizations =
      insert dutch (record dutch_words { thanks = some dutch_thanks }) with_dutch.localizations;
}

thanks_set :
    set_thanks_translation with_dutch dutch (codes "Dank je") (codes " Meer ") true
    ≡ (with_dutch_thanks, none)
unfolding set_thanks_translation normalize_message trim_space
thanks_set = rw (normal_dutch, lookup-insert_self) refl

set_thanks_translation-localized_thanks_example : localized_thanks with_dutch_thanks dutch ≡ (
    if not (has_thanks_to_translate with_dutch)
      || (not (is_nil page.message) && is_nil (normalize_message (codes "Dank je")))
      || (not (is_nil page.link_label) && is_nil (trim_space (codes " Meer ")))
    then none
    else some (record {
      message = kept_with page.message (normalize_message (codes "Dank je"));
      link_label = kept_with page.link_label (trim_space (codes " Meer "));
      link_url = page.link_url;
    }))
set_thanks_translation-localized_thanks_example =
    set_thanks_translation-localized_thanks with_dutch with_dutch_thanks dutch (codes "Dank je")
      (codes " Meer ") valid_dutch thanks_set
