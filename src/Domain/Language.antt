-- ===== src/Domain/Language.antt =====
-- internal/domain/localization.go: `NormalizeLang` and `ValidLang`, the language codes.
use Prim.Native.Nat.{ℕ}
use earful.Runtime.{to_lower, Runtime, to_upper, to_lower_idem, to_upper_idem}
use earful.Prelude.{
  is_nil, true, ◌||◌, leb, eqb, ◌++◌, not, ◌∷◌, [], if◌then◌else◌, false, ◌&&◌, arith, ◌≡◌, ltb,
  Bool, refl, All, Bool-cases, ◌∙◌, inr, ap, inl,
}
use earful.Prelude.Text.{byte_len, trim_space, Text, trim_space_of_none, is_space}

-- The test of `ValidLang` on the rune at a place; only the first place takes no dash.
abbrev lang_rune : Bool → ℕ → Bool
lang_rune first c =
    (leb b'a' c && leb c b'z') || (leb b'A' c && leb c b'Z') || (eqb c b'-' && not first)

-- The loop of `ValidLang` behind the first rune.
lang_tail : Text → Bool
lang_tail [] = true
lang_tail (c ∷ s) = lang_rune false c && lang_tail s

lang_runes : Text → Bool
lang_runes [] = true
lang_runes (c ∷ s) = lang_rune true c && lang_tail s

unfoldable pub valid_lang : Text → Bool
unfolding lang_tail lang_runes
valid_lang lang = if ltb (byte_len lang) 2 || ltb 8 (byte_len lang) then false else lang_runes lang

-- What is before the first dash, and what is behind it: strings.SplitN(lang, "-", 2).
unfoldable pub subtag : Text → Text
subtag [] = []
subtag (c ∷ s) = if eqb c b'-' then [] else c ∷ subtag s

unfoldable pub region : Text → Text
region [] = []
region (c ∷ s) = if eqb c b'-' then s else region s

module _ ⦃u : Runtime⦄ where
  -- An empty text has no subtag and no region, and gives the empty text too.
  joined_lang : Text → Text
  unfolding subtag region
  joined_lang t =
      if is_nil (region t)
      then to_lower (subtag t)
      else to_lower (subtag t) ++ b'-' ∷ to_upper (region t)

  unfoldable pub normalize_lang : Text → Text
  unfolding joined_lang
  normalize_lang lang = joined_lang (trim_space lang)

lang_rune_is_no_space : (first : Bool) (c : ℕ) → lang_rune first c ≡ true → is_space c ≡ false
unfolding is_space
lang_rune_is_no_space first c h = ground arith

lang_tail_has_no_space : (s : Text) → lang_tail s ≡ true → All (λ c. is_space c ≡ false) s
unfolding lang_tail
lang_tail_has_no_space [] h = tt
lang_tail_has_no_space (c ∷ s) h =
    (lang_rune_is_no_space false c (ground arith), lang_tail_has_no_space s (ground arith))

trim_space_of_valid_lang : (s : Text) → valid_lang s ≡ true → trim_space s ≡ s
unfolding valid_lang
trim_space_of_valid_lang [] h = trim_space_of_none [] tt
trim_space_of_valid_lang (c ∷ s) h =
    trim_space_of_none (c ∷ s)
      (lang_rune_is_no_space true c (ground arith), lang_tail_has_no_space s (ground arith))

module _ ⦃u : Runtime⦄ where
  subtag-lower : (t : Text) → subtag (to_lower (subtag t)) ≡ to_lower (subtag t)
  unfolding subtag
  subtag-lower [] = refl
  subtag-lower (c ∷ t) = ground (arith, subtag-lower t, u.lower_dash c)

  region-lower : (t : Text) → region (to_lower (subtag t)) ≡ []
  unfolding region subtag
  region-lower [] = refl
  region-lower (c ∷ t) = ground (arith, region-lower t, u.lower_dash c)

  subtag-joined : (t r : Text) → subtag (to_lower (subtag t) ++ b'-' ∷ r) ≡ to_lower (subtag t)
  unfolding subtag
  subtag-joined [] r = refl
  subtag-joined (c ∷ t) r = ground (arith, subtag-joined t r, u.lower_dash c)

  region-joined : (t r : Text) → region (to_lower (subtag t) ++ b'-' ∷ r) ≡ r
  unfolding region subtag
  region-joined [] r = refl
  region-joined (c ∷ t) r = ground (arith, region-joined t r, u.lower_dash c)

  is_nil-to_upper : (t : Text) → is_nil (to_upper t) ≡ is_nil t
  is_nil-to_upper [] = refl
  is_nil-to_upper (c ∷ t) = refl

  joined_lang_idem : (t : Text) → joined_lang (joined_lang t) ≡ joined_lang t
  unfolding joined_lang
  joined_lang_idem t = elim (Bool-cases (is_nil (region t))) [
    | inl bare ↦ rw (bare, region-lower, subtag-lower, to_lower_idem) refl
    | inr whole ↦
        rw
          (
            whole, region-joined, subtag-joined, is_nil-to_upper, whole, to_lower_idem,
            to_upper_idem,
          )
          refl
  ]

  -- A language code that is valid once it is in its normal form stays the same when it is put in the
  -- form again.
  pub normalize_lang_idem :
      (lang : Text)
      → valid_lang (normalize_lang lang) ≡ true
      → normalize_lang (normalize_lang lang) ≡ normalize_lang lang
  unfolding normalize_lang
  normalize_lang_idem lang h =
      ap joined_lang (trim_space_of_valid_lang (normalize_lang lang) h)
      ∙ joined_lang_idem (trim_space lang)
