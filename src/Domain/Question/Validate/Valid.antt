-- ===== src/Domain/Question/Validate/Valid.antt =====
-- What `Question.Validate` decides, stated without the order of its tests.
use earful.Prelude.{
  ◌≤◌, ◌≡◌, ◌↔◌, ◌⊎◌, true, false, none, map, arith, length, is_nil, All, contains, nat_eq, list_eq,
  bool_eq, subst, AllDistinct,
}
use earful.Prelude.Int.{pos, negsuc, ◌≤ℤ◌, ◌<ℤ◌, int_eq, int_eq, -ℤ_parts, int_eq, int_eq, int_eq}
use earful.Prelude.Text.{trim_space}
use earful.Runtime.{Runtime}
use earful.Domain.Question.Types.{Question, valid, needs_options, needs_scale, is_number}
use earful.Domain.Question.Scale.{scale, scale_points, length-scale_points}
use earful.Domain.Question.Validate.{
  validate, check_bounds, max_question_text_len, number_bound_limit, rating_scale_max_cap,
}
use earful.Domain.Question.Validate.Options.{
  other_choice, option_key, OptionFits, check_options_lem, fits-ne-marker,
}

abbrev pub Bounded : Question → Type 0
Bounded q =
    (q.allow_other ≡ true → needs_options q.type ≡ true)
    × (needs_scale q.type ≡ true
        → ((q.scale_min ≡ pos 0) ⊎ (q.scale_min ≡ pos 1))
          × (q.scale_min <ℤ q.scale_max)
          × (q.scale_max ≤ℤ rating_scale_max_cap))
    × (is_number q.type ≡ true
        → (negsuc 999999 ≤ℤ q.scale_min)
          × (q.scale_min <ℤ q.scale_max)
          × (q.scale_max ≤ℤ number_bound_limit))

check_bounds_iff : (q : Question) → (check_bounds q ≡ none) ↔ Bounded q
unfolding check_bounds
check_bounds_iff q = ground arith

module _ ⦃u : Runtime⦄ where
  abbrev pub Offers : Question → Type 0
  Offers q =
      needs_options q.type ≡ true
      → (2 ≤ length q.options)
        × All (OptionFits q.allow_other) q.options
        × AllDistinct (map option_key q.options)

  -- The invariant of a question that may enter a draft.
  pub record WellFormed (q : Question) : Type 0 where
    pub known : valid q.type ≡ true
    pub worded : is_nil (trim_space q.text) ≡ false
    pub short : length q.text ≤ max_question_text_len
    pub offers : Offers q
    pub bounded : Bounded q

  -- A question passes `Validate` exactly when it is well formed: its type is known, its text is not
  -- blank and not over 500 runes, a choice question has two options or more, none blank, none that
  -- reads as the marker for Other where Other is offered, no two alike but for case and outer
  -- spaces, only a choice question offers Other, and the bounds of a rating scale or of a number
  -- are in order and within their limits.
  pub validate-WellFormed : (q : Question) → (validate q ≡ none) ↔ WellFormed q
  unfolding validate
  validate-WellFormed q = (
    λ h. record {
      known = ground (arith);
      worded = ground arith;
      short = ground arith;
      offers = λ o. ground (arith, check_options_lem q.allow_other q.options);
      bounded = (check_bounds_iff q).0 (ground arith);
    },
    λ w.
        ground (arith, check_options_lem q.allow_other q.options, (check_bounds_iff q).1 w.bounded),
  )

  -- Where a valid question offers Other, the marker that an answer records for Other is none of
  -- its options.
  pub marker-not_option :
      (q : Question)
      → validate q ≡ none
      → q.allow_other ≡ true
      → contains q.options other_choice ≡ false
  marker-not_option q h o =
      let w = (validate-WellFormed q).0 h in
      let fits = (w.offers (w.bounded.0 o)).1 in
      fits-ne-marker q.options (subst (λ b. All (OptionFits b) q.options) o fits)

  -- A valid rating scale is drawn between its own bounds, never between the default ones, and offers
  -- from two to eleven values.
  pub scale_of_valid :
      (q : Question)
      → validate q ≡ none
      → needs_scale q.type ≡ true
      → (scale q ≡ (q.scale_min, q.scale_max))
        × (2 ≤ length (scale_points q))
        × (length (scale_points q) ≤ 11)
  unfolding scale needs_scale
  scale_of_valid q h s =
      let w = (validate-WellFormed q).0 h in
      let bounds = w.bounded.1 s in
      let own : scale q ≡ (q.scale_min, q.scale_max) = ground arith in
      let count = length-scale_points q s in
      let span = -ℤ_parts q.scale_max q.scale_min in
      (
        own,
        rw (count (rw own (ground arith)), own) (ground arith),
        rw (count (rw own (ground arith)), own) (ground arith),
      )
