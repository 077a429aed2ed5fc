-- ===== src/Domain/Thanks/Links.antt =====
-- internal/domain/thanks.go: `ValidateLinkURL`.
use Prim.Native.Nat.{ℕ}
use earful.Runtime.{Runtime, Url, to_lower}
use earful.Prelude.{
  not, eqb, ◌≤◌, ◌||◌, inr, Bool, false, some, inl, ◌∷◌, ◌≡◌, true, is_nil, [], none, Option-cases,
  ◌==◌, arith, ltb, if◌then◌else◌, Option, nat_eq, list_eq, bool_eq,
}
use earful.Domain.Errors.{thanks_link_url, Error}
use earful.Prelude.Text.{byte_len, codes, Text}

abbrev pub max_thanks_url_len : ℕ
max_thanks_url_len = 2000

-- strings.ContainsAny(raw, " \t\r\n")
unfoldable pub contains_blank : Text → Bool
contains_blank [] = false
contains_blank (c ∷ s) = eqb c 32 || eqb c 9 || eqb c 13 || eqb c 10 || contains_blank s

module _ ⦃u : Runtime⦄ where
  abbrev pub is_web : Url → Bool
  is_web a = to_lower a.scheme == codes "http" || to_lower a.scheme == codes "https"

  check_url : Option Url → Option Error
  check_url none = some thanks_link_url
  check_url (some a) =
      if not (is_web a)
      then some thanks_link_url
      else if is_nil a.host || is_nil a.hostname || a.user || not (is_nil a.opaque)
      then some thanks_link_url
      else none

  unfoldable pub validate_link_url : Text → Option Error
  unfolding contains_blank check_url
  validate_link_url raw =
      if ltb max_thanks_url_len (byte_len raw)
      then some thanks_link_url
      else if contains_blank raw
      then some thanks_link_url
      else check_url (u.parse_url raw)

  -- An address that is safe to put on a respondent's page.
  pub record IsWebAddress (a : Url) : Type 0 where
    pub web : is_web a ≡ true
    pub hosted : is_nil a.host ≡ false
    pub named : is_nil a.hostname ≡ false
    pub no_user : a.user ≡ false
    pub not_opaque : is_nil a.opaque ≡ true

  abbrev pub SafeLink : Text → Type 0
  SafeLink raw =
      (byte_len raw ≤ max_thanks_url_len)
      × (contains_blank raw ≡ false)
      × (a : Url) × (u.parse_url raw ≡ some a)
      × IsWebAddress a

  pub validate_link_url-SafeLink : (raw : Text) → validate_link_url raw ≡ none → SafeLink raw
  unfolding validate_link_url
  validate_link_url-SafeLink raw h = elim (Option-cases (u.parse_url raw)) [
    | inl e ↦ absurd (ground arith)
    | inr (a, e) ↦ (
      ground arith,
      ground arith,
      a,
      e,
      record {
        web = ground arith;
        hosted = ground arith;
        named = ground arith;
        no_user = ground arith;
        not_opaque = ground arith;
      },
    )
  ]

  pub SafeLink-validate_link_url : (raw : Text) → SafeLink raw → validate_link_url raw ≡ none
  unfolding validate_link_url
  SafeLink-validate_link_url raw (short, solid, a, e, w) = ground arith
