-- ===== src/Domain/WorkspaceStyle.antt =====
-- internal/domain/workspace_style.go: the style of an account and its words in other languages.
use earful.Domain.Style.Words.{words_eq}
use earful.Runtime.{Runtime}
use earful.Prelude.{
  ◌≡◌, ◌||◌, false, ◌&&◌, Bool, not, refl, arith, Option-cases, if◌then◌else◌, inr, Option, eq_refl,
  eq_iff, true, none, ◌==◌, is_nil, inl, some, ◌≢◌, nat_eq, list_eq, bool_eq,
}
use earful.Domain.Language.{normalize_lang, valid_lang}
use earful.Domain.Errors.{account_words_changed, Error, language_invalid}
use earful.Domain.Style.{
  StyleParts, words_is_zero, covers, all_style_parts, words_of, StyleWords, only, settled, Style,
}
use earful.Domain.Style.Validate.{validate_style}
use earful.Domain.Style.Translate.{new_localized_style, fitted, LocalizedStyle}
use earful.Prelude.Dict.{lookup-insert, delete, Dict, lookup-insert_self, lookup, insert}
use earful.Prelude.Text.{Text}

-- `UpdatedAt`, which no operation of the package reads or sets, is left out.
pub record WorkspaceStyle : Type 0 where
  pub style : Style
  pub translations : Dict LocalizedStyle

-- What a language holds for the words of some parts is still to be translated or reviewed.
abbrev pub unread : StyleWords → StyleParts → Option LocalizedStyle → Bool
unread source parts none = true
unread source parts (some t) =
    not t.reviewed
    || not (only t.source parts == source)
    || not (covers (only t.words parts) source)

abbrev outdated_words : StyleWords → Option LocalizedStyle → Bool
outdated_words source none = false
outdated_words source (some t) = not (words_is_zero t.words) && not (t.source == source)

-- `HasWords`
unfoldable pub has_words : WorkspaceStyle → Bool
has_words w = not (words_is_zero (words_of w.style))

store_checked :
    WorkspaceStyle → Text → LocalizedStyle × Option Error → WorkspaceStyle × Option Error
store_checked w lang (t, some e) = (w, some e)
store_checked w lang (t, none) = (record w { translations = insert lang t w.translations }, none)

set_style_checked : WorkspaceStyle → Style → Option Error → WorkspaceStyle × Option Error
set_style_checked w s (some e) = (w, some e)
set_style_checked w s none = (record w { style = s }, none)

module _ ⦃u : Runtime⦄ where
  -- `WorkspaceStyle.SetStyle`
  unfoldable pub set_account_style : WorkspaceStyle → Style → WorkspaceStyle × Option Error
  unfolding set_style_checked
  set_account_style w s =
      let t : Style = record s { thanks = settled s.thanks } in
      set_style_checked w t (validate_style t)

  -- `SetTranslationOf`, where `fingerprint` is the hash that `StyleWords.Fingerprint` takes of the
  -- words with crypto/sha256 and encoding/json.
  unfoldable pub set_account_translation :
      (StyleWords → Text)
      → WorkspaceStyle
      → Text
      → Text
      → StyleWords
      → Bool
      → WorkspaceStyle × Option Error
  unfolding store_checked
  set_account_translation fingerprint w source lang words reviewed =
      let n = normalize_lang lang in
      if not (is_nil source) && not (source == fingerprint (words_of w.style))
      then (w, some account_words_changed)
      else if not (valid_lang n)
      then (w, some language_invalid)
      else store_checked w n (new_localized_style (words_of w.style) words reviewed)

  unfoldable pub remove_account_language : WorkspaceStyle → Text → WorkspaceStyle
  remove_account_language w lang = record w {
    translations = delete (normalize_lang lang) w.translations;
  }

  unfoldable pub pending_for : WorkspaceStyle → Text → StyleParts → Bool
  pending_for w lang parts =
      let source = only (words_of w.style) parts in
      if words_is_zero source
      then false
      else unread source parts (lookup (normalize_lang lang) w.translations)

  unfoldable pub account_pending : WorkspaceStyle → Text → Bool
  unfolding pending_for
  account_pending w lang = pending_for w lang all_style_parts

  unfoldable pub account_stale : WorkspaceStyle → Text → Bool
  account_stale w lang =
      outdated_words (words_of w.style) (lookup (normalize_lang lang) w.translations)

  set_account_translation-eq :
      (fingerprint : StyleWords → Text) (w w2 : WorkspaceStyle) (source lang : Text)
      (words : StyleWords) (reviewed : Bool)
      → set_account_translation fingerprint w source lang words reviewed ≡ (w2, none)
      → w2 ≡ record w {
        translations =
            insert
              (normalize_lang lang)
              (new_localized_style (words_of w.style) words reviewed).0
              w.translations;
      }
  unfolding set_account_translation
  set_account_translation-eq fingerprint w w2 source lang words reviewed h =
      elim (Option-cases (new_localized_style (words_of w.style) words reviewed).1) [
        | inl fine ↦ ground arith
        | inr (e, bad) ↦ absurd (ground arith)
      ]

  -- After the account's words are translated into a language, some parts of them are pending in it
  -- exactly when they have words and the translation was not reviewed or lacks one of their words; no
  -- translation is stale in the language, and another language is pending as it was.
  pub set_account_translation-pending_for :
      (fingerprint : StyleWords → Text) (w w2 : WorkspaceStyle) (source lang other : Text)
      (words : StyleWords) (reviewed : Bool) (parts : StyleParts)
      → set_account_translation fingerprint w source lang words reviewed ≡ (w2, none)
      → normalize_lang other ≢ normalize_lang lang
      → (pending_for w2 lang parts ≡ (
          not (words_is_zero (only (words_of w.style) parts))
          && (not reviewed
              || not (
                  covers
                    (only (fitted (words_of w.style) words) parts)
                    (only (words_of w.style) parts)))))
        × (account_stale w2 lang ≡ false)
        × (pending_for w2 other parts ≡ pending_for w other parts)
  unfolding pending_for account_stale new_localized_style
  set_account_translation-pending_for fingerprint w w2 source lang other words reviewed parts h ne =
      let after = set_account_translation-eq fingerprint w w2 source lang words reviewed h in
      let differ : (normalize_lang lang == normalize_lang other) ≡ false =
        ground (arith, eq_iff (normalize_lang lang) (normalize_lang other)) in
      rw (after, lookup-insert_self)
        (
          ground (arith, eq_refl (only (words_of w.style) parts)),
          ground (arith, eq_refl (words_of w.style)),
          rw (lookup-insert, differ) refl,
        )
