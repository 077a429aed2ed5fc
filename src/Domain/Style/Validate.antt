-- ===== src/Domain/Style/Validate.antt =====
-- internal/domain/style.go: `Style.Validate` and the validators of its parts.
use Prim.Native.Nat.{ℕ}
use earful.Runtime.{Runtime}
use earful.Prelude.{
  true, not, All, Bool, is_nil, ◌≤◌, none, some, eqb, leb, length, if◌then◌else◌, false, ◌∷◌, ◌&&◌,
  Option, [], ltb, arith, ◌≡◌, ◌||◌, ◌+◌, List, ◌==◌, nat_eq, list_eq, bool_eq, ◌↔◌,
}
use earful.Domain.Thanks.{validate_link_url, max_thanks_label_len}
use earful.Domain.Errors.{
  style_thanks_image, style_footer_text, limit_style_thanks_alt, thanks_link_address,
  style_header_links, bad_style_logo_alt, unknown_thanks_picture, style_header_name, style_banner,
  Error, style, limit_style_logo_alt, limit_thanks_label, limit_style_links, limit_style_tagline,
  StylePart, unknown_theme, style_logo, style_thanks_picture, limit_style_footer, thanks_image_alt,
  thanks_link_label, limit, bad_style_image, style_header_text, style_theme, style_logo_alt,
  limit_style_name, style_footer_links, style_thanks_alt, thanks_image_missing,
}
use earful.Domain.Question.{then_check}
use earful.Domain.Style.Types.{
  StyleLink, thanks_envelope, theme_forest, theme_ocean, StyleHeader, thanks_check, image_is_zero,
  thanks_none, StyleFooter, thanks_confetti, thanks_image, theme_slate, StyleImage, StyleThanks,
  Style,
}
use earful.Prelude.Text.{Text, byte_len}
use earful.Prelude.Int.{pos, leb_ℤ, ◌<ℤ◌, int_eq, int_eq}

abbrev pub max_style_name_len : ℕ
max_style_name_len = 80

abbrev pub max_style_tagline_len : ℕ
max_style_tagline_len = 280

abbrev pub max_style_footer_len : ℕ
max_style_footer_len = 280

abbrev pub max_style_logo_alt_len : ℕ
max_style_logo_alt_len = 120

abbrev pub max_style_thanks_alt_len : ℕ
max_style_thanks_alt_len = 120

abbrev pub max_style_links : ℕ
max_style_links = 3

unfoldable pub known_theme : Text → Bool
known_theme t = is_nil t || t == theme_slate || t == theme_ocean || t == theme_forest

unfoldable pub known_thanks_picture : Text → Bool
known_thanks_picture p =
    is_nil p
    || p == thanks_check
    || p == thanks_envelope
    || p == thanks_confetti
    || p == thanks_image
    || p == thanks_none

-- strings.Trim(hash, "0123456789abcdef") == "": every rune is in the cutset.
unfoldable pub is_hex : Text → Bool
is_hex [] = true
is_hex (c ∷ s) = ((leb b'0' c && leb c b'9') || (leb b'a' c && leb c b'f')) && is_hex s

unfoldable pub validate_image : StyleImage → Option Error
unfolding is_hex
validate_image i =
    if image_is_zero i
    then none
    else if not (eqb (byte_len i.sha256) 64)
        || not (is_hex i.sha256)
        || leb_ℤ i.width (pos 0)
        || leb_ℤ i.height (pos 0)
    then some bad_style_image
    else none

-- `if err != nil { return StyleError{...} }`, and what follows it.
abbrev pub in_part : StylePart → ℕ → Option Error → Option Error → Option Error
in_part part link none rest = rest
in_part part link (some e) rest = some (style part link e)

unfoldable pub validate_style_thanks : StyleThanks → Option Error
unfolding known_thanks_picture validate_image
validate_style_thanks t =
    if not (known_thanks_picture t.picture)
    then some (style style_thanks_picture 0 unknown_thanks_picture)
    else in_part style_thanks_image 0 (validate_image t.image) (
        if ltb max_style_thanks_alt_len (length t.alt)
        then some (style style_thanks_alt 0 (limit limit_style_thanks_alt max_style_thanks_alt_len))
        else if t.picture == thanks_image && image_is_zero t.image
        then some (style style_thanks_image 0 thanks_image_missing)
        else if not (image_is_zero t.image) && is_nil t.alt
        then some (style style_thanks_alt 0 thanks_image_alt)
        else none)

module _ ⦃u : Runtime⦄ where
  unfoldable pub validate_link : StyleLink → Option Error
  validate_link l =
      if ltb max_thanks_label_len (length l.label)
      then some (limit limit_thanks_label max_thanks_label_len)
      else if is_nil l.url
      then some thanks_link_address
      else if is_nil l.label
      then some thanks_link_label
      else validate_link_url l.url

  -- The loop of `validateLinks`, at index `i`.
  unfoldable pub check_links : StylePart → ℕ → List StyleLink → Option Error
  check_links part i [] = none
  check_links part i (l ∷ ls) = in_part part (i + 1) (validate_link l) (check_links part (i + 1) ls)

  unfoldable pub validate_links : StylePart → List StyleLink → Option Error
  unfolding check_links validate_link
  validate_links part links =
      if ltb max_style_links (length links)
      then some (style part 0 (limit limit_style_links max_style_links))
      else check_links part 0 links

  unfoldable pub validate_header : StyleHeader → Option Error
  validate_header h =
      if ltb max_style_name_len (length h.name)
      then some (style style_header_name 0 (limit limit_style_name max_style_name_len))
      else if ltb max_style_tagline_len (length h.tagline)
      then some (style style_header_text 0 (limit limit_style_tagline max_style_tagline_len))
      else then_check (validate_links style_header_links h.links) (
          in_part style_banner 0 (validate_image h.banner) (
            in_part style_logo 0 (validate_image h.logo) (
              if ltb max_style_logo_alt_len (length h.logo_alt)
              then some (style style_logo_alt 0 (limit limit_style_logo_alt max_style_logo_alt_len))
              else if not (image_is_zero h.logo) && is_nil h.logo_alt
              then some (style style_logo_alt 0 bad_style_logo_alt)
              else none)))

  unfoldable pub validate_footer : StyleFooter → Option Error
  validate_footer f =
      if ltb max_style_footer_len (length f.text)
      then some (style style_footer_text 0 (limit limit_style_footer max_style_footer_len))
      else validate_links style_footer_links f.links

  unfoldable pub validate_style : Style → Option Error
  validate_style s =
      if not (known_theme s.theme)
      then some (style style_theme 0 unknown_theme)
      else then_check (validate_header s.header)
          (then_check (validate_footer s.footer) (validate_style_thanks s.thanks))

  -- A link that a header or a footer may hold.
  abbrev pub LinkFits : StyleLink → Type 0
  LinkFits l =
      (is_nil l.label ≡ false)
      × (is_nil l.url ≡ false)
      × (length l.label ≤ max_thanks_label_len)
      × (validate_link_url l.url ≡ none)

  abbrev pub ImageFits : StyleImage → Type 0
  ImageFits i =
      image_is_zero i ≡ false
      → (byte_len i.sha256 ≡ 64)
        × (is_hex i.sha256 ≡ true)
        × (pos 0 <ℤ i.width)
        × (pos 0 <ℤ i.height)

  validate_link_iff : (l : StyleLink) → (validate_link l ≡ none) ↔ LinkFits l
  unfolding validate_link
  validate_link_iff l = ground arith

  check_links_iff :
      (part : StylePart) (i : ℕ) (ls : List StyleLink)
      → (check_links part i ls ≡ none) ↔ All LinkFits ls
  unfolding check_links
  check_links_iff part i [] = ground arith
  check_links_iff part i (l ∷ ls) =
      ground (arith, validate_link_iff l, check_links_iff part (i + 1) ls)

  abbrev pub LinksFit : List StyleLink → Type 0
  LinksFit ls = (length ls ≤ max_style_links) × All LinkFits ls

  validate_links_iff :
      (part : StylePart) (ls : List StyleLink) → (validate_links part ls ≡ none) ↔ LinksFit ls
  unfolding validate_links
  validate_links_iff part ls = ground (arith, check_links_iff part 0 ls)

  validate_image_iff : (i : StyleImage) → (validate_image i ≡ none) ↔ ImageFits i
  unfolding validate_image
  validate_image_iff i = ground arith

  abbrev pub HeaderFits : StyleHeader → Type 0
  HeaderFits h =
      (length h.name ≤ max_style_name_len)
      × (length h.tagline ≤ max_style_tagline_len)
      × LinksFit h.links
      × ImageFits h.banner
      × ImageFits h.logo
      × (length h.logo_alt ≤ max_style_logo_alt_len)
      × (image_is_zero h.logo ≡ false → is_nil h.logo_alt ≡ false)

  validate_header_iff : (h : StyleHeader) → (validate_header h ≡ none) ↔ HeaderFits h
  unfolding validate_header
  validate_header_iff h = ground (
    arith,
    validate_links_iff style_header_links h.links,
    validate_image_iff h.banner,
    validate_image_iff h.logo,
  )

  abbrev pub ThanksFit : StyleThanks → Type 0
  ThanksFit t =
      (known_thanks_picture t.picture ≡ true)
      × ImageFits t.image
      × (length t.alt ≤ max_style_thanks_alt_len)
      × ((t.picture == thanks_image) ≡ true → image_is_zero t.image ≡ false)
      × (image_is_zero t.image ≡ false → is_nil t.alt ≡ false)

  validate_thanks_iff : (t : StyleThanks) → (validate_style_thanks t ≡ none) ↔ ThanksFit t
  unfolding validate_style_thanks
  validate_thanks_iff t = ground (arith, validate_image_iff t.image)

  -- What a style must be: every text within its length, at most three links in the header and in the
  -- footer, every link labelled and safe, every picture reference the hash and size of a picture, and
  -- words for each picture that needs them.
  pub record IsSound (s : Style) : Type 0 where
    pub theme : known_theme s.theme ≡ true
    pub header : HeaderFits s.header
    pub footer : (length s.footer.text ≤ max_style_footer_len) × LinksFit s.footer.links
    pub thanks : ThanksFit s.thanks

  -- A style passes `Validate` exactly when its theme and its thank you picture are known, every text is
  -- within its length, the header and the footer have at most three links each, every link has a label
  -- and an address that passes, every image is empty or has the hash and the size of an image, the
  -- thank you picture that is an image has one, and a logo and a thank you image come with their
  -- descriptions.
  pub validate_style-IsSound : (s : Style) → (validate_style s ≡ none) ↔ IsSound s
  unfolding validate_style validate_footer
  validate_style-IsSound s = ground (
    arith,
    validate_header_iff s.header,
    validate_links_iff style_footer_links s.footer.links,
    validate_thanks_iff s.thanks,
  )
