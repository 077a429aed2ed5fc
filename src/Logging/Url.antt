-- ===== src/Logging/Url.antt =====
-- internal/logging/scrub.go: `ScrubURL`, what a line of the log shows of a request's address.
use earful.Logging.Attrs.{redacted, is_sensitive_key}
use earful.Runtime.{Runtime}
use earful.Prelude.{
  Bool-cases, All, ap, length, inl, List, none, true, some, arith, [], is_nil, if◌then◌else◌,
  Option, Bool, ◌≡◌, ◌||◌, false, refl, ◌∷◌, ◌++◌, inr, ◌==◌, nat_eq, list_eq, bool_eq,
}
use earful.Prelude.Text.{Text, codes}
use earful.Logging.Path.{
  scrub_path-secret, segments_of, absolute, IsSegment, scrub_path, SecretRoute,
}

-- url.URL: the path, its escaped form where that is not the default, the parameters as `Query` reads
-- them and `Encode` writes them, and in one text the fields that are kept as they are.
pub record RequestUrl : Type 0 where
  pub path : Text
  pub raw_path : Text
  pub query : List (Text × List Text)
  pub other : Text

abbrev redacted_values : List Text → List Text
redacted_values [] = []
redacted_values (v ∷ vs) = redacted ∷ redacted_values vs

with_path : RequestUrl → Text × Bool → RequestUrl
with_path url (scrubbed, true) = record url { path = scrubbed; raw_path = scrubbed }
with_path url (scrubbed, false) = url

module _ ⦃u : Runtime⦄ where
  -- The loop over the parameters.
  scrub_query : List (Text × List Text) → List (Text × List Text)
  scrub_query [] = []
  scrub_query ((key, values) ∷ rest) =
      (key, if is_sensitive_key key then redacted_values values else values) ∷ scrub_query rest

  -- `ScrubURL`, up to the writing of the result by url.URL's `String`; nil is written as nothing.
  unfoldable pub scrub_url : Option RequestUrl → Option RequestUrl
  unfolding scrub_query with_path
  scrub_url none = none
  scrub_url (some url) =
      some (record (with_path url (scrub_path url.path)) { query = scrub_query url.query })

  -- Parameters that differ at most in the values under sensitive keys.
  abbrev pub IsAlike : List (Text × List Text) → List (Text × List Text) → Type 0
  IsAlike [] [] = Unit
  IsAlike [] (q ∷ qs) = ⊥
  IsAlike (p ∷ ps) [] = ⊥
  IsAlike ((key, values) ∷ ps) ((key2, values2) ∷ qs) =
      ((key ≡ key2)
        × (length values ≡ length values2)
        × (is_sensitive_key key ≡ false → values ≡ values2))
      × IsAlike ps qs

  redacted_values-length :
      (vs ws : List Text) → length vs ≡ length ws → redacted_values vs ≡ redacted_values ws
  redacted_values-length [] [] h = refl
  redacted_values-length [] (w ∷ ws) h = absurd (omega arith)
  redacted_values-length (v ∷ vs) [] h = absurd (omega arith)
  redacted_values-length (v ∷ vs) (w ∷ ws) h =
      ap (λ l. redacted ∷ l) (redacted_values-length vs ws (omega arith))

  scrub_query-IsAlike :
      (ps qs : List (Text × List Text)) → IsAlike ps qs → scrub_query ps ≡ scrub_query qs
  unfolding scrub_query
  scrub_query-IsAlike [] [] h = refl
  scrub_query-IsAlike [] (q ∷ qs) h = absurd h
  scrub_query-IsAlike (p ∷ ps) [] h = absurd h
  scrub_query-IsAlike ((key, values) ∷ ps) ((key2, values2) ∷ qs) h =
      let same = redacted_values-length values values2 h.0.1 in
      let rest = scrub_query-IsAlike ps qs h.1 in
      elim (Bool-cases (is_sensitive_key key)) [
        | inl hidden ↦ rw (← h.0.0, scrub_query, hidden, same, rest) refl
        | inr shown ↦ rw (← h.0.0, scrub_query, shown, h.0.2 shown, rest) refl
      ]

  -- What is written of a request to a route that carries a credential does not depend on the
  -- credential, nor on the values of the parameters under sensitive keys: two such addresses that
  -- differ in these alone are written alike. The segments hold no slash, and neither credential is
  -- empty or the word closure.
  pub scrub_url-IsAlike :
      (route : SecretRoute) (secret secret2 : Text) (rest : List Text) (raw raw2 other : Text)
      (query query2 : List (Text × List Text))
      → All IsSegment (secret ∷ secret2 ∷ rest)
      → (is_nil secret || is_nil secret2) ≡ false
      → (secret == codes "closure" || secret2 == codes "closure") ≡ false
      → IsAlike query query2
      → scrub_url (
          some record {
            path = absolute (segments_of route ++ secret ∷ rest);
            raw_path = raw;
            query = query;
            other = other;
          })
        ≡ scrub_url (
            some record {
              path = absolute (segments_of route ++ secret2 ∷ rest);
              raw_path = raw2;
              query = query2;
              other = other;
            })
  unfolding scrub_url
  scrub_url-IsAlike route secret secret2 rest raw raw2 other query query2 h there named alike =
      let first = scrub_path-secret route secret rest (h.0, h.1.1) (ground arith) (ground arith) in
      let second =
        scrub_path-secret route secret2 rest (h.1.0, h.1.1) (ground arith) (ground arith) in
      rw (first, second, scrub_query-IsAlike query query2 alike) refl
