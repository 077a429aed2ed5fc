-- ===== src/Domain/StyleRefresh/Drawn.antt =====
-- internal/domain/style_refresh.go: the draft of a version follows what the version followed, and draws
-- the version's own parts as the version does.
use earful.Domain.Style.Types.{link_eq, image_eq, thanks_eq}
use earful.Prelude.{
  true, ◌&&◌, not, ◌≡◌, false, Bool-cases, is_nil, inl, [], arith, refl, Bool, inr, ◌||◌, eq_iff,
  if◌then◌else◌, nat_eq, list_eq, bool_eq, eq_refl,
}
use earful.Domain.StyleRefresh.{PublishedVersion, version_draft, kept_part, turned_off}
use earful.Domain.StyleChoice.{followed_parts, resolved_style, form_style, own_parts, style_differs}
use earful.Domain.Style.{
  same_footer, same_thanks, same_theme, image_is_zero, Style, StyleHeader, same_header,
  thanks_is_zero, footer_is_zero, no_image, header_is_zero, no_picture, no_header, no_footer,
  shown_logo_alt, StyleFooter,
}
use earful.Domain.Style.Same.{same_footer_refl, same_header_refl, same_thanks_refl, same_theme_refl}

-- A part that is always drawn, and one that is turned off where it is empty.
part_own {ℓ} :
    {A : Type ℓ} (is_zero : A → Bool) (nothing part : A) (follows : Bool)
    → is_zero nothing ≡ true
    → (not follows || not (is_zero (kept_part follows nothing part))) ≡ not follows
part_own is_zero nothing part true z = rw z refl
part_own is_zero nothing part false z = refl

shown_part_own {ℓ} :
    {A : Type ℓ} (is_zero : A → Bool) (nothing part : A) (follows : Bool)
    → is_zero nothing ≡ true
    → ((not follows && not (is_zero part))
        || not (is_zero (kept_part (follows || is_zero part) nothing part)))
      ≡ (not follows && not (is_zero part))
shown_part_own is_zero nothing part true z = rw z refl
shown_part_own is_zero nothing part false z = elim (Bool-cases (is_zero part)) [
  | inl e ↦ rw (e, z) refl
  | inr e ↦ rw e refl
]

own_parts-version_draft :
    (v : PublishedVersion)
    → own_parts (version_draft v) ≡ record {
      theme = not v.follows.theme;
      header = not v.follows.header && not (header_is_zero v.style.header);
      footer = not v.follows.footer && not (footer_is_zero v.style.footer);
      thanks = not v.follows.thanks;
    }
unfolding own_parts version_draft header_is_zero footer_is_zero thanks_is_zero
own_parts-version_draft v =
    let f = v.follows in
    rw
      (
        part_own is_nil [] v.style.theme f.theme refl,
        shown_part_own header_is_zero no_header v.style.header f.header refl,
        shown_part_own footer_is_zero no_footer v.style.footer f.footer refl,
        part_own thanks_is_zero no_picture v.style.thanks f.thanks refl,
      )
      refl

-- The draft of a version follows the parts of its account's style that the version followed, and no
-- other.
pub followed_parts-version_draft :
    (v : PublishedVersion) → followed_parts (version_draft v) ≡ v.follows
unfolding version_draft followed_parts
followed_parts-version_draft v = rw (own_parts-version_draft v) (ground arith)

-- A banner and a logo without a hash are empty references, without width and height.
abbrev pub IsTrim : StyleHeader → Type 0
IsTrim h =
    (image_is_zero h.banner ≡ true → h.banner ≡ no_image)
    × (image_is_zero h.logo ≡ true → h.logo ≡ no_image)

part_differs {ℓ} :
    {A : Type ℓ} (same : A → A → Bool) (nothing part account : A) (follows : Bool)
    → same part part ≡ true
    → not (same part (if not follows then kept_part follows nothing part else account))
      ≡ (follows && not (same part account))
part_differs same nothing part account true r = refl
part_differs same nothing part account false r = rw r refl

shown_part_differs {ℓ} :
    {A : Type ℓ} (same : A → A → Bool) (is_zero : A → Bool) (nothing part account : A)
    (follows : Bool)
    → same part part ≡ true
    → (is_zero part ≡ true → same part nothing ≡ true)
    → not (
        same part (
          if turned_off follows (is_zero part)
          then nothing
          else if not follows && not (is_zero part)
          then kept_part (follows || is_zero part) nothing part
          else account))
      ≡ (follows && not (same part account))
shown_part_differs same is_zero nothing part account true r z = refl
shown_part_differs same is_zero nothing part account false r z = elim (Bool-cases (is_zero part)) [
  | inl e ↦ rw (e, z e) refl
  | inr e ↦ rw (e, r) refl
]

header_of_nothing :
    (h : StyleHeader) → IsTrim h → header_is_zero h ≡ true → same_header h no_header ≡ true
unfolding header_is_zero same_header shown_logo_alt
header_of_nothing h trim z =
    let banner : h.banner ≡ no_image = trim.0 (ground arith) in
    let logo : h.logo ≡ no_image = trim.1 (ground arith) in
    rw (banner, logo)
      (ground (
        arith,
        z,
        eq_iff h.name [],
        eq_iff h.tagline [],
        eq_iff h.links [],
        eq_refl no_image,
        eq_refl no_header.name,
      ))

footer_of_nothing : (f : StyleFooter) → footer_is_zero f ≡ true → same_footer f no_footer ≡ true
unfolding footer_is_zero same_footer
footer_of_nothing f z = ground (arith, z, eq_iff f.text [], eq_iff f.links [])

-- Published again, a version changes in the parts that it follows only, and in those exactly where the
-- account's part is drawn differently from the version's, when a banner and a logo of the version's
-- header that have no hash have no width and height either.
pub style_differs-version_draft :
    (v : PublishedVersion) (account : Style)
    → IsTrim v.style.header
    → style_differs v.style (resolved_style (version_draft v) account) ≡ record {
      theme = v.follows.theme && not (same_theme v.style.theme account.theme);
      header = v.follows.header && not (same_header v.style.header account.header);
      footer = v.follows.footer && not (same_footer v.style.footer account.footer);
      thanks = v.follows.thanks && not (same_thanks v.style.thanks account.thanks);
    }
unfolding version_draft style_differs resolved_style form_style
style_differs-version_draft v account trim =
    let f = v.follows in
    rw
      (
        own_parts-version_draft v,
        part_differs same_theme [] v.style.theme account.theme f.theme
            (same_theme_refl v.style.theme),
        shown_part_differs same_header header_is_zero no_header v.style.header account.header
            f.header (same_header_refl v.style.header) (header_of_nothing v.style.header trim),
        shown_part_differs same_footer footer_is_zero no_footer v.style.footer account.footer
            f.footer (same_footer_refl v.style.footer) (footer_of_nothing v.style.footer),
        part_differs same_thanks no_picture v.style.thanks account.thanks f.thanks
            (same_thanks_refl v.style.thanks),
      )
      refl
