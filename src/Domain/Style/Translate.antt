-- ===== src/Domain/Style/Translate.antt =====
-- internal/domain/style.go: `newLocalizedStyle`, the words of a style recorded in one language.
use Prim.Native.Nat.{ℕ}
use earful.Prelude.{
  Option, ◌∷◌, ◌≡◌, zero, is_nil, if◌then◌else◌, suc, none, Bool, refl, length, ltb, List, [], ap,
  ◌++◌, arith, some, not, ◌&&◌, false,
}
use earful.Domain.Thanks.{max_thanks_label_len, normalize_message}
use earful.Domain.Errors.{
  style_footer_text, limit_style_thanks_alt, style, limit_thanks_label, style_logo_alt,
  style_thanks_alt, limit_style_footer, limit_style_tagline, style_header_text,
  limit_style_logo_alt, Error, limit,
}
use earful.Domain.Style.Validate.{
  max_style_logo_alt_len, max_style_tagline_len, max_style_footer_len, max_style_thanks_alt_len,
}
use earful.Domain.Style.Words.{StyleWords}
use earful.Prelude.Text.{trim_space, one_line, Text}

pub record LocalizedStyle : Type 0 where
  pub words : StyleWords
  pub reviewed : Bool
  pub source : StyleWords

-- The loop of `fitLabels`: as many labels as the source has links.
unfoldable pub fit_labels : List Text → ℕ → List Text
fit_labels labels zero = []
fit_labels [] (suc n) = [] ∷ fit_labels [] n
fit_labels (t ∷ ts) (suc n) = trim_space t ∷ fit_labels ts n

-- A part that the source does not have is dropped.
abbrev where_worded : Text → Text → Text
where_worded source word = if is_nil source then [] else word

unfoldable pub fitted : StyleWords → StyleWords → StyleWords
unfolding fit_labels
fitted source words = record {
  tagline = where_worded source.tagline (normalize_message words.tagline);
  logo_alt = where_worded source.logo_alt (one_line words.logo_alt);
  header_links = fit_labels words.header_links (length source.header_links);
  footer_text = where_worded source.footer_text (normalize_message words.footer_text);
  footer_links = fit_labels words.footer_links (length source.footer_links);
  thanks_alt = where_worded source.thanks_alt (one_line words.thanks_alt);
}

-- The loop over the labels.
unfoldable pub check_labels : List Text → Option Error
check_labels [] = none
check_labels (t ∷ ts) =
    let rest = check_labels ts in
    if ltb max_thanks_label_len (length t)
    then some (limit limit_thanks_label max_thanks_label_len)
    else rest

unfoldable pub check_words : StyleWords → Option Error
unfolding check_labels
check_words w =
    if ltb max_style_logo_alt_len (length w.logo_alt)
    then some (style style_logo_alt 0 (limit limit_style_logo_alt max_style_logo_alt_len))
    else if ltb max_style_thanks_alt_len (length w.thanks_alt)
    then some (style style_thanks_alt 0 (limit limit_style_thanks_alt max_style_thanks_alt_len))
    else if ltb max_style_tagline_len (length w.tagline)
    then some (style style_header_text 0 (limit limit_style_tagline max_style_tagline_len))
    else if ltb max_style_footer_len (length w.footer_text)
    then some (style style_footer_text 0 (limit limit_style_footer max_style_footer_len))
    else check_labels (w.header_links ++ w.footer_links)

unfoldable pub new_localized_style : StyleWords → StyleWords → Bool → LocalizedStyle × Option Error
unfolding fitted check_words
new_localized_style source words reviewed =
    let w = fitted source words in
    (record { words = w; reviewed = reviewed; source = source }, check_words w)

length-fit_labels : (labels : List Text) (n : ℕ) → length (fit_labels labels n) ≡ n
unfolding fit_labels
length-fit_labels labels zero = refl
length-fit_labels [] (suc n) = ap suc (length-fit_labels [] n)
length-fit_labels (t ∷ ts) (suc n) = ap suc (length-fit_labels ts n)

-- Nothing where the source has nothing.
abbrev pub IsWithout : Text → Text → Type 0
IsWithout source t = (is_nil source && not (is_nil t)) ≡ false

-- A recorded translation never shows more than the original: it has one label for each of the
-- source's links, and no word where the source has none.
pub new_localized_style_fits :
    (source words : StyleWords) (reviewed : Bool)
    → let t = (new_localized_style source words reviewed).0 in
      (t.source ≡ source)
      × (t.reviewed ≡ reviewed)
      × (length t.words.header_links ≡ length source.header_links)
      × (length t.words.footer_links ≡ length source.footer_links)
      × (IsWithout source.tagline t.words.tagline)
      × (IsWithout source.footer_text t.words.footer_text)
      × (IsWithout source.logo_alt t.words.logo_alt)
      × (IsWithout source.thanks_alt t.words.thanks_alt)
unfolding new_localized_style
new_localized_style_fits source words reviewed = (
  refl,
  refl,
  length-fit_labels words.header_links (length source.header_links),
  length-fit_labels words.footer_links (length source.footer_links),
  ground arith,
  ground arith,
  ground arith,
  ground arith,
)
