-- ===== src/Domain/Style/Types.antt =====
-- internal/domain/style.go: the parts of a style, when they are empty and when two draw the same.
use earful.Prelude.{
  ◌==◌, is_nil, ◌↔◌, ◌≡◌, false, ◌||◌, arith, Comparable, if◌then◌else◌, eq_iff, [], Bool, true,
  ◌&&◌, List, not, nat_eq, list_eq, bool_eq,
}
use earful.Prelude.Text.{Text, codes}
use earful.Prelude.Int.{ℤ, eqb_ℤ, pos, eqb_ℤ_iff, int_eq, int_eq, int_eq}

pub record StyleImage : Type 0 where
  pub sha256 : Text
  pub width : ℤ
  pub height : ℤ

pub record StyleLink : Type 0 where
  pub label : Text
  pub url : Text

pub record StyleHeader : Type 0 where
  pub name : Text
  pub tagline : Text
  pub links : List StyleLink
  pub banner : StyleImage
  pub logo : StyleImage
  pub logo_alt : Text

pub record StyleFooter : Type 0 where
  pub text : Text
  pub links : List StyleLink

pub record StyleThanks : Type 0 where
  pub picture : Text
  pub image : StyleImage
  pub alt : Text

pub record Style : Type 0 where
  pub theme : Text
  pub header : StyleHeader
  pub footer : StyleFooter
  pub thanks : StyleThanks

-- The zero values.
abbrev pub no_image : StyleImage
no_image = record { sha256 = []; width = pos 0; height = pos 0 }

abbrev pub no_header : StyleHeader
no_header = record {
  name = [];
  tagline = [];
  links = [];
  banner = no_image;
  logo = no_image;
  logo_alt = [];
}

abbrev pub no_footer : StyleFooter
no_footer = record { text = []; links = [] }

abbrev pub no_picture : StyleThanks
no_picture = record { picture = []; image = no_image; alt = [] }

abbrev pub no_style : Style
no_style = record { theme = []; header = no_header; footer = no_footer; thanks = no_picture }

abbrev pub thanks_owl : Text
thanks_owl = codes "owl"

abbrev pub thanks_check : Text
thanks_check = codes "check"

abbrev pub thanks_envelope : Text
thanks_envelope = codes "envelope"

abbrev pub thanks_confetti : Text
thanks_confetti = codes "confetti"

abbrev pub thanks_image : Text
thanks_image = codes "image"

abbrev pub thanks_none : Text
thanks_none = codes "none"

abbrev pub theme_earful : Text
theme_earful = codes "earful"

abbrev pub theme_slate : Text
theme_slate = codes "slate"

abbrev pub theme_ocean : Text
theme_ocean = codes "ocean"

abbrev pub theme_forest : Text
theme_forest = codes "forest"

-- `==` on the structs that the code compares.
unfoldable pub image_beq : StyleImage → StyleImage → Bool
image_beq a b = a.sha256 == b.sha256 && eqb_ℤ a.width b.width && eqb_ℤ a.height b.height

pub image_beq_iff : (a b : StyleImage) → (image_beq a b ≡ true) ↔ (a ≡ b)
unfolding image_beq
image_beq_iff a b =
    ground (arith, eq_iff a.sha256 b.sha256, eqb_ℤ_iff a.width b.width, eqb_ℤ_iff a.height b.height)

instance abbrev pub image_eq : Comparable StyleImage
image_eq = record { alike = image_beq; alike_iff = image_beq_iff }

unfoldable pub link_beq : StyleLink → StyleLink → Bool
link_beq a b = a.label == b.label && a.url == b.url

pub link_beq_iff : (a b : StyleLink) → (link_beq a b ≡ true) ↔ (a ≡ b)
unfolding link_beq
link_beq_iff a b = ground (arith, eq_iff a.label b.label, eq_iff a.url b.url)

instance abbrev pub link_eq : Comparable StyleLink
link_eq = record { alike = link_beq; alike_iff = link_beq_iff }

unfoldable pub thanks_beq : StyleThanks → StyleThanks → Bool
thanks_beq a b = a.picture == b.picture && a.image == b.image && a.alt == b.alt

pub thanks_beq_iff : (a b : StyleThanks) → (thanks_beq a b ≡ true) ↔ (a ≡ b)
unfolding thanks_beq
thanks_beq_iff a b =
    ground (arith, eq_iff a.picture b.picture, eq_iff a.image b.image, eq_iff a.alt b.alt)

instance abbrev pub thanks_eq : Comparable StyleThanks
thanks_eq = record { alike = thanks_beq; alike_iff = thanks_beq_iff }

-- The `IsZero` methods.
abbrev pub image_is_zero : StyleImage → Bool
image_is_zero i = is_nil i.sha256

abbrev pub has_images : StyleHeader → Bool
has_images h = not (image_is_zero h.banner) || not (image_is_zero h.logo)

unfoldable pub header_is_zero : StyleHeader → Bool
header_is_zero h = is_nil h.name && is_nil h.tagline && is_nil h.links && not (has_images h)

unfoldable pub footer_is_zero : StyleFooter → Bool
footer_is_zero f = is_nil f.text && is_nil f.links

unfoldable pub thanks_is_zero : StyleThanks → Bool
thanks_is_zero t = is_nil t.picture && image_is_zero t.image && is_nil t.alt

unfoldable pub style_is_zero : Style → Bool
unfolding header_is_zero footer_is_zero thanks_is_zero
style_is_zero s =
    is_nil s.theme && header_is_zero s.header && footer_is_zero s.footer && thanks_is_zero s.thanks

-- `settled`: a picture that the choice does not show is dropped.
unfoldable pub settled : StyleThanks → StyleThanks
settled t = if t.picture == thanks_image then t else record t { image = no_image; alt = [] }

-- Earful's theme is stored as the empty text and may arrive by its name.
unfoldable pub stored_theme : Text → Text
stored_theme t = if t == theme_earful then [] else t

unfoldable pub same_theme : Text → Text → Bool
unfolding stored_theme
same_theme a b = stored_theme a == stored_theme b

-- `StyleHeader.logoAlt`: text left in the field after the logo was removed is shown to nobody.
unfoldable pub shown_logo_alt : StyleHeader → Text
shown_logo_alt h = if image_is_zero h.logo then [] else h.logo_alt

-- The `Equal` methods: the same pages are drawn.
unfoldable pub same_header : StyleHeader → StyleHeader → Bool
unfolding shown_logo_alt
same_header h k =
    h.name == k.name
    && h.tagline == k.tagline
    && h.links == k.links
    && h.banner == k.banner
    && h.logo == k.logo
    && shown_logo_alt h == shown_logo_alt k

unfoldable pub same_footer : StyleFooter → StyleFooter → Bool
same_footer f g = f.text == g.text && f.links == g.links

unfoldable pub same_thanks : StyleThanks → StyleThanks → Bool
unfolding settled
same_thanks t s = settled t == settled s

unfoldable pub same_style : Style → Style → Bool
unfolding same_theme same_header same_footer same_thanks
same_style a b =
    same_theme a.theme b.theme
    && same_header a.header b.header
    && same_footer a.footer b.footer
    && same_thanks a.thanks b.thanks

-- `StyleParts`: parts of a style, by name.
pub record StyleParts : Type 0 where
  pub theme : Bool
  pub header : Bool
  pub footer : Bool
  pub thanks : Bool

abbrev pub no_parts : StyleParts
no_parts = record { theme = false; header = false; footer = false; thanks = false }

abbrev pub all_style_parts : StyleParts
all_style_parts = record { theme = true; header = true; footer = true; thanks = true }

abbrev pub parts_is_zero : StyleParts → Bool
parts_is_zero p = not p.theme && not p.header && not p.footer && not p.thanks
