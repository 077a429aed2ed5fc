-- ===== src/Domain/Style/Same.antt =====
-- internal/domain/style.go: the `Equal` methods, which say that two parts are drawn alike, do not depend
-- on the order of their arguments, and a part is drawn as itself.
use earful.Domain.Style.Types.{
  link_eq, thanks_eq, image_eq, settled, same_thanks, shown_logo_alt, StyleThanks, same_header,
  StyleHeader, stored_theme, StyleFooter, same_theme, same_footer,
}
use earful.Prelude.{
  ◌≡◌, eq_refl, ◌==◌, true, sym, Comparable, arith, eq_iff, nat_eq, list_eq, bool_eq,
}
use earful.Prelude.Text.{Text}

eq_sym {ℓ} : {A : Type ℓ} ⦃c : Comparable A⦄ (a b : A) → (a == b) ≡ true → (b == a) ≡ true
eq_sym a b h = (eq_iff b a).1 (sym ((eq_iff a b).0 h))

pub same_theme_sym : (a b : Text) → same_theme a b ≡ true → same_theme b a ≡ true
unfolding same_theme
same_theme_sym a b h =
    ground
      (arith, h, eq_iff (stored_theme a) (stored_theme b), eq_iff (stored_theme b) (stored_theme a))

pub same_thanks_sym : (a b : StyleThanks) → same_thanks a b ≡ true → same_thanks b a ≡ true
unfolding same_thanks
same_thanks_sym a b h =
    ground (arith, h, eq_iff (settled a) (settled b), eq_iff (settled b) (settled a))

pub same_footer_sym : (a b : StyleFooter) → same_footer a b ≡ true → same_footer b a ≡ true
unfolding same_footer
same_footer_sym a b h = ground (
  arith,
  h,
  eq_iff a.text b.text,
  eq_iff b.text a.text,
  eq_iff a.links b.links,
  eq_iff b.links a.links,
)

pub same_header_sym : (a b : StyleHeader) → same_header a b ≡ true → same_header b a ≡ true
unfolding same_header
same_header_sym a b h = ground (
  arith,
  h,
  eq_sym a.name b.name,
  eq_sym a.tagline b.tagline,
  eq_sym a.links b.links,
  eq_sym a.banner b.banner,
  eq_sym a.logo b.logo,
  eq_sym (shown_logo_alt a) (shown_logo_alt b),
)

pub same_theme_refl : (a : Text) → same_theme a a ≡ true
unfolding same_theme
same_theme_refl a = eq_refl (stored_theme a)

pub same_thanks_refl : (a : StyleThanks) → same_thanks a a ≡ true
unfolding same_thanks
same_thanks_refl a = eq_refl (settled a)

pub same_footer_refl : (a : StyleFooter) → same_footer a a ≡ true
unfolding same_footer
same_footer_refl a = ground (arith, eq_refl a.text, eq_refl a.links)

pub same_header_refl : (a : StyleHeader) → same_header a a ≡ true
unfolding same_header
same_header_refl a = ground (
  arith,
  eq_refl a.name,
  eq_refl a.tagline,
  eq_refl a.links,
  eq_refl a.banner,
  eq_refl a.logo,
  eq_refl (shown_logo_alt a),
)
