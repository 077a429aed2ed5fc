-- ===== src/Domain/Question/Validate/Options.antt =====
-- The loop of `Question.Validate` over the options, and the conditions that it decides.
use earful.Prelude.{
  ◌≡◌, ◌↔◌, Bool, false, ◌&&◌, Option, none, some, List, [], ◌∷◌, arith, is_nil, if◌then◌else◌,
  contains, list_eq, nat_eq, All, map, refl, eq_iff, true, bool_eq, AllDistinct,
}
use earful.Prelude.Text.{Text, codes, trim_space}
use earful.Runtime.{Runtime, to_lower, equal_fold, equal_fold_refl}
use earful.Domain.Errors.{Error, empty_option, duplicate_option, reserved_option}

-- domain.OtherChoice, declared in answer.go.
abbrev pub other_choice : Text
other_choice = codes "__other__"

marker_trimmed : trim_space other_choice ≡ other_choice
unfolding trim_space
marker_trimmed = refl

module _ ⦃u : Runtime⦄ where
  -- What two options are compared by.
  abbrev pub option_key : Text → Text
  option_key opt = to_lower (trim_space opt)

  -- The loop over `q.Options`; `seen` holds the keys of the options before.
  unfoldable pub check_options : Bool → List Text → List Text → Option Error
  check_options allow_other seen [] = none
  check_options allow_other seen (opt ∷ opts) =
      let rest = check_options allow_other (option_key opt ∷ seen) opts in
      if is_nil (trim_space opt)
      then some empty_option
      else if contains seen (option_key opt)
      then some duplicate_option
      else if allow_other && equal_fold (trim_space opt) other_choice
      then some reserved_option
      else rest

  -- What one option must satisfy by itself.
  abbrev pub OptionFits : Bool → Text → Type 0
  OptionFits allow_other opt =
      (is_nil (trim_space opt) ≡ false)
      × ((allow_other && equal_fold (trim_space opt) other_choice) ≡ false)

  -- Each option fits, and no key is among `seen` or comes twice.
  abbrev pub OptionsFit : Bool → List Text → List Text → Type 0
  OptionsFit allow_other seen [] = Unit {0}
  OptionsFit allow_other seen (opt ∷ opts) =
      OptionFits allow_other opt
      × (contains seen (option_key opt) ≡ false)
      × OptionsFit allow_other (option_key opt ∷ seen) opts

  pub check_options_iff :
      (allow_other : Bool) (seen opts : List Text)
      → (check_options allow_other seen opts ≡ none) ↔ OptionsFit allow_other seen opts
  unfolding check_options
  check_options_iff allow_other seen [] = ground arith
  check_options_iff allow_other seen (opt ∷ opts) =
      ground (arith, check_options_iff allow_other (option_key opt ∷ seen) opts)

  -- No key is among `seen`.
  abbrev Unseen : List Text → List Text → Type 0
  Unseen seen opts = All (λ opt. contains seen (option_key opt) ≡ false) opts

  Unseen-cons :
      (k : Text) (seen opts : List Text)
      → Unseen (k ∷ seen) opts ↔ (Unseen seen opts × (contains (map option_key opts) k ≡ false))
  unfolding contains
  Unseen-cons k seen [] = ground arith
  Unseen-cons k seen (opt ∷ opts) =
      ground (arith, Unseen-cons k seen opts, eq_iff k (option_key opt), eq_iff (option_key opt) k)

  OptionsFit-iff :
      (allow_other : Bool) (seen opts : List Text)
      → OptionsFit allow_other seen opts
        ↔ (All (OptionFits allow_other) opts × AllDistinct (map option_key opts) × Unseen seen opts)
  OptionsFit-iff allow_other seen [] = ground arith
  OptionsFit-iff allow_other seen (opt ∷ opts) = ground (
    arith,
    OptionsFit-iff allow_other (option_key opt ∷ seen) opts,
    Unseen-cons (option_key opt) seen opts,
  )

  all-Unseen : (opts : List Text) → Unseen [] opts
  unfolding contains
  all-Unseen [] = tt
  all-Unseen (opt ∷ opts) = (refl, all-Unseen opts)

  -- The loop passes exactly when each option fits and no two have the same key.
  pub check_options_lem :
      (allow_other : Bool) (opts : List Text)
      → (check_options allow_other [] opts ≡ none)
        ↔ (All (OptionFits allow_other) opts × AllDistinct (map option_key opts))
  check_options_lem allow_other opts = ground (
    arith,
    check_options_iff allow_other [] opts,
    OptionsFit-iff allow_other [] opts,
    all-Unseen opts,
  )

  -- Where Other is offered no option is spelled like its marker.
  pub fits-ne-marker :
      (opts : List Text) → All (OptionFits true) opts → contains opts other_choice ≡ false
  unfolding contains
  fits-ne-marker [] h = refl
  fits-ne-marker (opt ∷ opts) h = ground (
    arith,
    fits-ne-marker opts h.1,
    eq_iff opt other_choice,
    equal_fold_refl other_choice,
    marker_trimmed,
  )
