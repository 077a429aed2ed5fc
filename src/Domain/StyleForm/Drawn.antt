-- ===== src/Domain/StyleForm/Drawn.antt =====
-- internal/domain/style_choice.go: after `SetStyleFromForm`, the form shows what it posted.
use earful.Prelude.Text.{Text}
use earful.Domain.Style.Types.{image_eq, thanks_eq}
use earful.Prelude.{
  [], inr, arith, ◌≡◌, false, refl, true, if◌then◌else◌, inl, Option, Bool, is_nil, not, ◌||◌,
  Bool-cases, none, Option-cases, ap, sym, subst, ◌∙◌, ◌==◌, nat_eq, list_eq, some,
}
use earful.Domain.StyleForm.{
  set_style_from_form, set_valid, with_parts_from, carried_part, carried_own,
  adopt_style_translations, settled_style, hidden, newly_own,
}
use earful.Domain.Draft.{Draft}
use earful.Runtime.{Runtime}
use earful.Domain.WorkspaceStyle.{WorkspaceStyle}
use earful.Domain.StyleChoice.{form_style, own_parts}
use earful.Domain.Style.{
  footer_is_zero, thanks_is_zero, no_footer, same_header, header_is_zero, Style, StyleParts,
  no_header, same_thanks, same_footer, no_picture, same_theme, stored_theme, settled, StyleThanks,
  theme_earful, thanks_image,
}
use earful.Domain.Style.Same.{
  same_header_refl, same_theme_refl, same_footer_refl, same_theme_sym, same_thanks_refl,
  same_header_sym, same_thanks_sym, same_footer_sym,
}
use earful.Domain.Style.Validate.{validate_style}

-- A part of the form's style after it was posted, for any of the four kinds of part.
part_drawn {ℓ} :
    {A : Type ℓ} (same : A → A → Bool) (is_zero : A → Bool) (nothing posted old account : A)
    (carried own : Bool)
    → is_zero nothing ≡ true
    → ((a : A) → same a a ≡ true)
    → (same posted account ≡ true → same account posted ≡ true)
    → let part = carried_part carried (same posted account) nothing posted old in
      same
        (if carried_own carried (same posted account) own || not (is_zero part)
          then part
          else account)
        (if carried then posted else if own || not (is_zero old) then old else account)
      ≡ true
part_drawn same is_zero nothing posted old account true own z reflexive symmetric =
    elim (Bool-cases (same posted account)) [
      | inl alike ↦ rw (alike, z) (symmetric alike)
      | inr other ↦ rw other (reflexive posted)
    ]
part_drawn same is_zero nothing posted old account false own z reflexive symmetric =
    reflexive (if own || not (is_zero old) then old else account)

-- Settling a theme or a thank you picture does not change how it is drawn.
same_theme-stored_theme : (a b : Text) → same_theme a (stored_theme b) ≡ same_theme a b
unfolding same_theme stored_theme earful.Prelude.list_beq
same_theme-stored_theme a b = elim (Bool-cases (b == theme_earful)) [
  | inl named ↦ rw named refl
  | inr other ↦ rw (other, other) refl
]

same_thanks-settled : (a b : StyleThanks) → same_thanks a (settled b) ≡ same_thanks a b
unfolding same_thanks settled
same_thanks-settled a b = elim (Bool-cases (b.picture == thanks_image)) [
  | inl own ↦ rw (own, own) refl
  | inr drawing ↦ rw (drawing, drawing) refl
]

-- A choice that was posted, or the one there was.
abbrev pub posted_or : Option Bool → Bool → Bool
posted_or none before = before
posted_or (some posted) before = posted

not-hidden :
    (posted : Option Bool) (old : Bool) → not (hidden posted old) ≡ posted_or posted (not old)
not-hidden none old = refl
not-hidden (some true) old = refl
not-hidden (some false) old = refl

module _ ⦃u : Runtime⦄ where
  -- Taking over translations changes nothing but the languages.
  adopt_keeps :
      (d : Draft) (account : WorkspaceStyle) (parts : StyleParts)
      → ((adopt_style_translations d account parts).style ≡ d.style)
        × ((adopt_style_translations d account parts).style_choice ≡ d.style_choice)
        × ((adopt_style_translations d account parts).questions ≡ d.questions)
        × ((adopt_style_translations d account parts).thanks ≡ d.thanks)
  unfolding adopt_style_translations
  adopt_keeps d account parts = (refl, refl, refl, refl)

  -- The parts of the form's style.
  form_style-eq :
      (d e : Draft) (account : Style)
      → d.style ≡ e.style
      → d.style_choice ≡ e.style_choice
      → form_style d account ≡ form_style e account
  unfolding form_style own_parts
  form_style-eq d e account h k = rw (h, k) refl

  with_parts_from-form_style :
      (d : Draft) (account posted : Style) (carried : StyleParts) (header footer : Option Bool)
      → let before = form_style d account in
        let after = form_style (with_parts_from d account posted carried header footer) account in
        (same_theme after.theme (if carried.theme then posted.theme else before.theme) ≡ true)
        × (same_header after.header (if carried.header then posted.header else before.header)
            ≡ true)
        × (same_footer after.footer (if carried.footer then posted.footer else before.footer)
            ≡ true)
        × (same_thanks after.thanks (if carried.thanks then posted.thanks else before.thanks)
            ≡ true)
  unfolding form_style own_parts with_parts_from header_is_zero footer_is_zero thanks_is_zero
  with_parts_from-form_style d account posted carried header footer = (
    part_drawn same_theme is_nil [] posted.theme d.style.theme account.theme carried.theme
        d.style_choice.own.theme refl same_theme_refl (same_theme_sym posted.theme account.theme),
    part_drawn same_header header_is_zero no_header posted.header d.style.header account.header
        carried.header d.style_choice.own.header refl same_header_refl
        (same_header_sym posted.header account.header),
    part_drawn same_footer footer_is_zero no_footer posted.footer d.style.footer account.footer
        carried.footer d.style_choice.own.footer refl same_footer_refl
        (same_footer_sym posted.footer account.footer),
    part_drawn same_thanks thanks_is_zero no_picture posted.thanks d.style.thanks account.thanks
        carried.thanks d.style_choice.own.thanks refl same_thanks_refl
        (same_thanks_sym posted.thanks account.thanks),
  )

  newly_own_after : Draft → Style → Style → StyleParts → Option Bool → Option Bool → StyleParts
  newly_own_after d account s carried header footer =
      newly_own (own_parts d) (own_parts (with_parts_from d account s carried header footer))

  set_style_from_form-eq :
      (d d2 : Draft) (account : WorkspaceStyle) (submitted : Style) (carried : StyleParts)
      (header footer : Option Bool)
      → set_style_from_form d account submitted carried header footer ≡ (d2, none)
      → let s = settled_style submitted in
        d2
        ≡ adopt_style_translations
            (with_parts_from d account.style s carried header footer)
            account
            (newly_own_after d account.style s carried header footer)
  unfolding set_style_from_form newly_own_after
  set_style_from_form-eq d d2 account submitted carried header footer h =
      let s = settled_style submitted in
      elim (Option-cases (validate_style s)) [
        | inl fine ↦ sym (
            ap (λ p. p.0)
              (subst (λ o. set_valid d account s carried header footer o ≡ (d2, none)) fine h))
        | inr (e, bad) ↦ absurd (ground arith)
      ]

  theme_posted :
      (carried : Bool) (after submitted before : Text)
      → same_theme after (if carried then stored_theme submitted else before) ≡ true
      → same_theme after (if carried then submitted else before) ≡ true
  theme_posted true after submitted before h = sym (same_theme-stored_theme after submitted) ∙ h
  theme_posted false after submitted before h = h

  thanks_posted :
      (carried : Bool) (after submitted before : StyleThanks)
      → same_thanks after (if carried then settled submitted else before) ≡ true
      → same_thanks after (if carried then submitted else before) ≡ true
  thanks_posted true after submitted before h = sym (same_thanks-settled after submitted) ∙ h
  thanks_posted false after submitted before h = h

  -- What the Style tab posts is what the form shows next: of each part that it carried, a part drawn
  -- as the one submitted, and the others as they were; whether the header and the footer are shown is
  -- as posted, where it was posted, and as it was otherwise. The questions and the thank you page do
  -- not change. The form was accepted.
  pub set_style_from_form-form_style :
      (d d2 : Draft) (account : WorkspaceStyle) (submitted : Style) (carried : StyleParts)
      (header footer : Option Bool)
      → set_style_from_form d account submitted carried header footer ≡ (d2, none)
      → let before = form_style d account.style in
        let after = form_style d2 account.style in
        (same_theme after.theme (if carried.theme then submitted.theme else before.theme) ≡ true)
        × (same_header after.header (if carried.header then submitted.header else before.header)
            ≡ true)
        × (same_footer after.footer (if carried.footer then submitted.footer else before.footer)
            ≡ true)
        × (same_thanks after.thanks (if carried.thanks then submitted.thanks else before.thanks)
            ≡ true)
        × (not d2.style_choice.no_header ≡ posted_or header (not d.style_choice.no_header))
        × (not d2.style_choice.no_footer ≡ posted_or footer (not d.style_choice.no_footer))
        × (d2.questions ≡ d.questions)
        × (d2.thanks ≡ d.thanks)
  unfolding with_parts_from settled_style
  set_style_from_form-form_style d d2 account submitted carried header footer h =
      let s = settled_style submitted in
      let e = with_parts_from d account.style s carried header footer in
      let parts = newly_own_after d account.style s carried header footer in
      let after = set_style_from_form-eq d d2 account submitted carried header footer h in
      let kept = adopt_keeps e account parts in
      let same : form_style d2 account.style ≡ form_style e account.style =
        ap (λ x. form_style x account.style) after
        ∙ form_style-eq (adopt_style_translations e account parts) e account.style kept.0 kept.1 in
      let drawn = with_parts_from-form_style d account.style s carried header footer in
      rw (same, after, kept.1)
        (
          theme_posted carried.theme _ submitted.theme _ drawn.0,
          drawn.1,
          drawn.2,
          thanks_posted carried.thanks _ submitted.thanks _ drawn.3,
          not-hidden header d.style_choice.no_header,
          not-hidden footer d.style_choice.no_footer,
          kept.2,
          kept.3,
        )
