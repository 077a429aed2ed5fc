-- ===== src/Runtime.antt =====
-- What the code takes from outside the repository and from the tables of the Unicode standard: the
-- case mappings of package unicode, which package strings applies rune by rune, and the parser of
-- net/url. Each is an operation of this record, with the documented behaviour that the code relies on
-- as its laws.
use earful.Prelude.{
  ℕ, ◌+◌, ◌-◌, ◌<◌, ◌≡◌, refl, Bool, true, false, ◌&&◌, Option, map, leb, if◌then◌else◌, arith, [],
  ◌∷◌,
}
use earful.Prelude.Text.{Text}

-- The fields of `url.URL` that the code reads; `user` is whether `User` is not nil.
pub record Url : Type 0 where
  pub scheme : Text
  pub host : Text
  pub hostname : Text
  pub opaque : Text
  pub user : Bool

abbrev pub ascii_lower : ℕ → ℕ
ascii_lower c = if leb b'A' c && leb c b'Z' then c + 32 else c

abbrev pub ascii_upper : ℕ → ℕ
ascii_upper c = if leb b'a' c && leb c b'z' then c - 32 else c

pub record Runtime : Type 0 where
  -- unicode.ToLower, unicode.ToUpper, and the relation of strings.EqualFold on two runes
  pub lower_rune : ℕ → ℕ
  pub upper_rune : ℕ → ℕ
  pub same_fold : ℕ → ℕ → Bool
  -- url.Parse: none is an error
  pub parse_url : Text → Option Url
  pub lower_ascii : (c : ℕ) → c < 128 → lower_rune c ≡ ascii_lower c
  pub upper_ascii : (c : ℕ) → c < 128 → upper_rune c ≡ ascii_upper c
  pub lower_idem : (c : ℕ) → lower_rune (lower_rune c) ≡ lower_rune c
  pub upper_idem : (c : ℕ) → upper_rune (upper_rune c) ≡ upper_rune c
  -- only letters have another case
  pub lower_dash : (c : ℕ) → lower_rune c ≡ b'-' → c ≡ b'-'
  pub same_fold_refl : (c : ℕ) → same_fold c c ≡ true

module _ ⦃u : Runtime⦄ where
  -- strings.ToLower and strings.ToUpper
  abbrev pub to_lower : Text → Text
  to_lower t = map u.lower_rune t

  abbrev pub to_upper : Text → Text
  to_upper t = map u.upper_rune t

  pub to_lower_idem : (t : Text) → to_lower (to_lower t) ≡ to_lower t
  to_lower_idem [] = refl
  to_lower_idem (c ∷ t) = rw (u.lower_idem c, to_lower_idem t) refl

  pub to_upper_idem : (t : Text) → to_upper (to_upper t) ≡ to_upper t
  to_upper_idem [] = refl
  to_upper_idem (c ∷ t) = rw (u.upper_idem c, to_upper_idem t) refl

  -- strings.EqualFold
  unfoldable pub equal_fold : Text → Text → Bool
  equal_fold [] [] = true
  equal_fold [] (d ∷ t) = false
  equal_fold (c ∷ s) [] = false
  equal_fold (c ∷ s) (d ∷ t) = u.same_fold c d && equal_fold s t

  pub equal_fold_refl : (t : Text) → equal_fold t t ≡ true
  unfolding equal_fold
  equal_fold_refl [] = refl
  equal_fold_refl (c ∷ t) = ground (arith, u.same_fold_refl c, equal_fold_refl t)
