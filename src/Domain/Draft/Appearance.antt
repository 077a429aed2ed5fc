-- ===== src/Domain/Draft/Appearance.antt =====
-- internal/domain/thanks.go and internal/domain/style.go: `SetThanks` and `SetStyle` of a draft.
use earful.Runtime.{Runtime}
use earful.Prelude.{none, some, inr, ◌≡◌, Option, Option-cases, inl}
use earful.Domain.Thanks.{ThankYou, validate_thanks}
use earful.Domain.Errors.{Error}
use earful.Domain.Style.{settled, Style}
use earful.Domain.Style.Validate.{validate_style, IsSound, validate_style-IsSound}
use earful.Domain.Draft.Types.{Draft}

thanks_checked : Draft → ThankYou → Option Error → Draft × Option Error
thanks_checked d t (some e) = (d, some e)
thanks_checked d t none = (record d { thanks = t }, none)

style_checked : Draft → Style → Option Error → Draft × Option Error
style_checked d s (some e) = (d, some e)
style_checked d s none = (record d { style = s }, none)

module _ ⦃u : Runtime⦄ where
  unfoldable pub set_thanks : Draft → ThankYou → Draft × Option Error
  unfolding thanks_checked
  set_thanks d t = thanks_checked d t (validate_thanks t)

  unfoldable pub set_style : Draft → Style → Draft × Option Error
  unfolding style_checked
  set_style d s =
      let t : Style = record s { thanks = settled s.thanks } in style_checked d t (validate_style t)

  -- The draft keeps a sound style and a valid page, whatever is set.
  pub set_style-IsSound :
      (d : Draft) (s : Style) → IsSound d.style → IsSound (set_style d s).0.style
  unfolding set_style
  set_style-IsSound d s sound =
      let t : Style = record s { thanks = settled s.thanks } in
      elim (Option-cases (validate_style t)) [
        | inl fine ↦ rw fine ((validate_style-IsSound t).0 fine)
        | inr (e, bad) ↦ rw bad sound
      ]

  pub set_thanks-valid :
      (d : Draft) (t : ThankYou)
      → validate_thanks d.thanks ≡ none
      → validate_thanks (set_thanks d t).0.thanks ≡ none
  unfolding set_thanks
  set_thanks-valid d t h = elim (Option-cases (validate_thanks t)) [
    | inl fine ↦ rw fine fine
    | inr (e, bad) ↦ rw bad h
  ]
