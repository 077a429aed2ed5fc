-- ===== src/Domain/Style/Builders.antt =====
-- internal/domain/style.go: the parts of a style built from what a creator typed.
use earful.Runtime.{Runtime}
use earful.Prelude.{
  false, ◌∷◌, is_nil, not, ◌==◌, arith, ◌++◌, Bool, ◌||◌, some, if◌then◌else◌, ◌≡◌, none, refl, All,
  Option, ◌&&◌, [], List, nat_eq, list_eq, bool_eq,
}
use earful.Domain.Thanks.{normalize_message}
use earful.Domain.Errors.{
  Error, style_thanks_picture, style_theme, unknown_thanks_picture, style, unknown_theme,
}
use earful.Domain.Style.Validate.{
  known_theme, validate_header, known_thanks_picture, validate_footer,
}
use earful.Domain.Style.Types.{
  thanks_confetti, StyleFooter, no_style, StyleThanks, thanks_envelope, thanks_check, StyleImage,
  StyleHeader, image_is_zero, StyleLink, theme_earful, thanks_owl, Style, no_header,
}
use earful.Prelude.Text.{split, Text, trim_space, trim_space_idem, one_line}

-- `cleanLinks`
unfoldable pub clean_links : List StyleLink → List StyleLink
clean_links [] = []
clean_links (l ∷ ls) =
    let t : StyleLink = record { label = trim_space l.label; url = trim_space l.url } in
    let rest = clean_links ls in if is_nil t.label && is_nil t.url then rest else t ∷ rest

-- `PictureName` and `ThemeName`
unfoldable pub picture_name : StyleThanks → Text
picture_name t = if is_nil t.picture then thanks_owl else t.picture

unfoldable pub theme_name : Style → Text
theme_name s = if is_nil s.theme then theme_earful else s.theme

-- `Drawing`
unfoldable pub drawing : StyleThanks → Bool
drawing t =
    t.picture == thanks_check || t.picture == thanks_envelope || t.picture == thanks_confetti

picture_checked : StyleThanks → Text → StyleThanks × Option Error
picture_checked t picture =
    if known_thanks_picture picture
    then (record t { picture = picture }, none)
    else (t, some (style style_thanks_picture 0 unknown_thanks_picture))

unfoldable pub with_picture : StyleThanks → Text → StyleThanks × Option Error
unfolding picture_checked known_thanks_picture
with_picture t picture =
    let p = trim_space picture in picture_checked t (if p == thanks_owl then [] else p)

unfoldable pub with_alt : StyleThanks → Text → StyleThanks
with_alt t alt = record t { alt = one_line alt }

theme_checked : Style → Text → Style × Option Error
theme_checked s theme =
    if known_theme theme
    then (record s { theme = theme }, none)
    else (s, some (style style_theme 0 unknown_theme))

unfoldable pub with_theme : Style → Text → Style × Option Error
unfolding theme_checked known_theme
with_theme s theme =
    let t = trim_space theme in theme_checked s (if t == theme_earful then [] else t)

unfoldable pub new_style : Text → Style × Option Error
unfolding with_theme
new_style theme = with_theme no_style theme

-- `StyleHeader.WithWords`
unfoldable pub with_header_words : StyleHeader → StyleHeader → StyleHeader
with_header_words h words = record h {
  name = words.name;
  tagline = words.tagline;
  links = words.links;
}

unfoldable pub with_logo_alt : StyleHeader → Text → StyleHeader
with_logo_alt h alt = record h { logo_alt = one_line alt }

-- `Images`
abbrev shown_image : StyleImage → List StyleImage
shown_image i = if image_is_zero i then [] else i ∷ []

unfoldable pub images : Style → List StyleImage
images s = shown_image s.header.banner ++ shown_image s.header.logo ++ shown_image s.thanks.image

unfoldable pub branded : Style → Bool
branded s = not (image_is_zero s.header.logo)

-- `lines`, behind `TaglineLines` and `TextLines`
unfoldable pub shown_lines : List Text → List Text
shown_lines [] = []
shown_lines (l ∷ ls) =
    let t = trim_space l in let rest = shown_lines ls in if is_nil t then rest else t ∷ rest

unfoldable pub lines : Text → List Text
unfolding shown_lines
lines text = shown_lines (split 10 text)

module _ ⦃u : Runtime⦄ where
  unfoldable pub new_style_header : Text → Text → List StyleLink → StyleHeader × Option Error
  unfolding clean_links
  new_style_header name tagline links =
      let h : StyleHeader = record no_header {
        name = one_line name;
        tagline = normalize_message tagline;
        links = clean_links links;
      } in
      (h, validate_header h)

  unfoldable pub new_style_footer : Text → List StyleLink → StyleFooter × Option Error
  unfolding clean_links
  new_style_footer text links =
      let f : StyleFooter = record { text = normalize_message text; links = clean_links links } in
      (f, validate_footer f)

-- A row with something in it, without spaces at its ends.
abbrev pub IsClean : StyleLink → Type 0
IsClean l =
    ((is_nil l.label && is_nil l.url) ≡ false)
    × (trim_space l.label ≡ l.label)
    × (trim_space l.url ≡ l.url)

clean_links-IsClean : (ls : List StyleLink) → All IsClean (clean_links ls)
unfolding clean_links
clean_links-IsClean [] = tt
clean_links-IsClean (l ∷ ls) =
    ground (arith, clean_links-IsClean ls, trim_space_idem l.label, trim_space_idem l.url)

clean_links_of-IsClean : (ls : List StyleLink) → All IsClean ls → clean_links ls ≡ ls
unfolding clean_links
clean_links_of-IsClean [] h = refl
clean_links_of-IsClean (l ∷ ls) h = ground (arith, clean_links_of-IsClean ls h.1)

-- Cleaned rows of links have something in each row and no spaces at the ends, and cleaning them again
-- changes nothing.
pub clean_links_idem :
    (ls : List StyleLink)
    → All IsClean (clean_links ls) × (clean_links (clean_links ls) ≡ clean_links ls)
clean_links_idem ls =
    (clean_links-IsClean ls, clean_links_of-IsClean (clean_links ls) (clean_links-IsClean ls))
