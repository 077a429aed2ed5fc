-- ===== src/Domain/Draft/Languages.antt =====
-- internal/domain/localization.go: the languages of a draft and the translations of its questions.
pub mod Pending
pub mod Thanks
use Prim.Native.Nat.{ℕ}
use earful.Runtime.{Runtime}
use earful.Prelude.{
  some, [], if◌then◌else◌, List, true, ◌≡◌, not, get_elem?, Bool, ◌⊎◌, refl, Option, ◌≢◌, false,
  none, leb, ◌<◌, arith,
}
use earful.Domain.Localization.{Localization, LocalizedQuestion}
use earful.Domain.Language.{normalize_lang, valid_lang}
use earful.Domain.Errors.{
  language_invalid, style, language_exists, limit_languages, limit, Error, unknown_language,
  question_unknown,
}
use earful.Domain.Question.{Question}
use earful.Domain.Draft.Types.{Draft, index_of}
use earful.Prelude.Dict.{lookup, delete, size, empty, found, insert}
use earful.Prelude.Text.{trim_space, Text}

abbrev pub max_languages_per_survey : ℕ
max_languages_per_survey = 10

abbrev pub new_localization : Text → Localization
new_localization lang = record { lang = lang; questions = empty; thanks = none; style = none }

-- `d.Questions[index].Text`; the index is that of a question of the draft.
abbrev pub text_at : Option Question → Text
text_at none = []
text_at (some q) = q.text

abbrev pub has_localization : Option Localization → Bool
has_localization none = false
has_localization (some l) = true

-- `d.Localizations[lang] = localization`
abbrev pub put_localization : Draft → Text → Localization → Draft
put_localization d lang l = record d { localizations = insert lang l d.localizations }

module _ ⦃u : Runtime⦄ where
  unfoldable pub has_language : Draft → Text → Bool
  has_language d lang = has_localization (lookup (normalize_lang lang) d.localizations)

  -- `AddLanguage` behind its first line.
  add_normalized : Draft → Text → Draft × Option Error
  unfolding has_language
  add_normalized d lang =
      if not (valid_lang lang)
      then (d, some language_invalid)
      else if has_language d lang
      then (d, some language_exists)
      else if leb max_languages_per_survey (size d.localizations)
      then (d, some (limit limit_languages max_languages_per_survey))
      else (put_localization d lang (new_localization lang), none)

  unfoldable pub add_language : Draft → Text → Draft × Option Error
  unfolding add_normalized
  add_language d lang = add_normalized d (normalize_lang lang)

  remove_normalized : Draft → Text → Draft × Option Error
  unfolding has_language
  remove_normalized d lang =
      if has_language d lang
      then (record d { localizations = delete lang d.localizations }, none)
      else (d, some unknown_language)

  unfoldable pub remove_language : Draft → Text → Draft × Option Error
  unfolding remove_normalized
  remove_language d lang = remove_normalized d (normalize_lang lang)

  -- `SetTranslation` once the language, and then the question, are found.
  set_question_found :
      Draft → Text → Localization → Text → Text → List Text → Bool → Option ℕ → Draft × Option Error
  set_question_found d lang l id text options reviewed none = (d, some question_unknown)
  set_question_found d lang l id text options reviewed (some i) =
      let t : LocalizedQuestion = record {
        text = trim_space text;
        options = options;
        reviewed = reviewed;
        source_text = text_at (get_elem? d.questions i);
      } in
      (put_localization d lang (record l { questions = insert id t l.questions }), none)

  set_language_found :
      Draft → Text → Option Localization → Text → Text → List Text → Bool → Draft × Option Error
  unfolding set_question_found
  set_language_found d lang none id text options reviewed = (d, some unknown_language)
  set_language_found d lang (some l) id text options reviewed =
      set_question_found d lang l id text options reviewed (index_of id d.questions)

  unfoldable pub set_translation :
      Draft → Text → Text → Text → List Text → Bool → Draft × Option Error
  unfolding set_language_found
  set_translation d lang id text options reviewed =
      let n = normalize_lang lang in
      set_language_found d n (lookup n d.localizations) id text options reviewed

  -- What a translation leaves when the language and the question are there.
  pub set_translation-eq :
      (d : Draft) (lang id text : Text) (options : List Text) (reviewed : Bool) (l : Localization)
      (i : ℕ) (q : Question)
      → lookup (normalize_lang lang) d.localizations ≡ some l
      → index_of id d.questions ≡ some i
      → get_elem? d.questions i ≡ some q
      → set_translation d lang id text options reviewed ≡ (
        put_localization d (normalize_lang lang) (record l {
          questions =
              insert id
                (record {
                  text = trim_space text;
                  options = options;
                  reviewed = reviewed;
                  source_text = q.text;
                })
                l.questions;
        }),
        none,
      )
  unfolding set_translation
  set_translation-eq d lang id text options reviewed l i q there at found =
      rw (there, set_language_found, at, set_question_found, found) refl

  -- What an addition that succeeds leaves, and what it asked for.
  pub add_language-eq :
      (d d2 : Draft) (lang : Text)
      → add_language d lang ≡ (d2, none)
      → (d2 ≡ put_localization d (normalize_lang lang) (new_localization (normalize_lang lang)))
        × (size d.localizations < max_languages_per_survey)
  unfolding add_language
  add_language-eq d d2 lang h = ground arith
