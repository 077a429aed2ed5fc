-- ===== src/Logging/Path.antt =====
-- internal/logging/scrub.go: `scrubPath`, which takes the credential out of a path.
use mathlib.Core.List.{append_assoc}
use earful.Logging.Attrs.{redacted}
use earful.Prelude.{
  if◌then◌else◌, take, ℕ, All, ap, ◌==◌, false, not, set, get_elem?, true, is_nil, ◌∷◌, ◌≡◌, length,
  ◌∙◌, ◌+◌, List, ◌&&◌, drop, ◌++◌, refl, eqb, [], none, Option, some, Bool, nat_eq, list_eq,
  bool_eq, arith, list_beq,
}
use earful.Prelude.Text.{Text, join, split, codes}

abbrev slash : ℕ
slash = b'/'

abbrev pub secret_path_prefixes : List (List Text)
secret_path_prefixes =
    (codes "p" ∷ [])
    ∷ (codes "webhooks" ∷ codes "email" ∷ [])
    ∷ (codes "exports" ∷ codes "closure" ∷ [])
    ∷ (codes "exports" ∷ [])
    ∷ []

-- `segs[secret] != ""`, for an index within the slice.
filled : Option Text → Bool
filled none = false
filled (some s) = not (is_nil s)

-- A prefix of the list stands at `start`, with a segment behind it that is not empty.
applies : List Text → ℕ → List Text → Bool
unfolding filled
applies segs start prefix =
    filled (get_elem? segs (start + length prefix))
    && take (length prefix) (drop start segs) == prefix

-- The loop over the prefixes: the segments with the credential replaced, at the first that applies.
scrub_segments : List Text → ℕ → List (List Text) → Option (List Text)
unfolding applies
scrub_segments segs start [] = none
scrub_segments segs start (p ∷ ps) =
    let rest = scrub_segments segs start ps in
    if applies segs start p then some (set segs (start + length p) redacted) else rest

joined : Text → Option (List Text) → Text × Bool
joined path none = (path, false)
joined path (some segs) = (join (slash ∷ []) segs, true)

-- An absolute path has an empty segment in front.
first_of : List Text → ℕ
first_of [] = 0
first_of (s ∷ segs) = if is_nil s then 1 else 0

unfoldable pub scrub_path : Text → Text × Bool
unfolding scrub_segments joined first_of
scrub_path path =
    let segs = split slash path in
    joined path (scrub_segments segs (first_of segs) secret_path_prefixes)

-- The path of segments that hold no slash, from the root.
abbrev pub absolute : List Text → Text
absolute segs = join (slash ∷ []) ([] ∷ segs)

abbrev pub IsSegment : Text → Type 0
IsSegment s = All (λ c. eqb c slash ≡ false) s

split_of-IsSegment : (s : Text) → IsSegment s → split slash s ≡ s ∷ []
unfolding split
split_of-IsSegment [] h = refl
split_of-IsSegment (c ∷ s) h = rw (h.0, split_of-IsSegment s h.1) refl

split-append : (s t : Text) → IsSegment s → split slash (s ++ slash ∷ t) ≡ s ∷ split slash t
unfolding split
split-append [] t h = refl
split-append (c ∷ s) t h = rw (h.0, split-append s t h.1) refl

split-join :
    (s : Text) (segs : List Text)
    → All IsSegment (s ∷ segs)
    → split slash (join (slash ∷ []) (s ∷ segs)) ≡ s ∷ segs
unfolding join
split-join s [] h = split_of-IsSegment s h.0
split-join s (t ∷ segs) h =
    ap (split slash) (append_assoc s (slash ∷ []) (join (slash ∷ []) (t ∷ segs)))
    ∙ split-append s (join (slash ∷ []) (t ∷ segs)) h.0
    ∙ ap (λ l. s ∷ l) (split-join t segs h.1)

-- Routes whose next segment is a credential; behind `exports`, `closure` is no credential but the name
-- of the route before.
pub data SecretRoute : Type 0 where
  invitation : SecretRoute
  mail_webhook : SecretRoute
  closure_export : SecretRoute
  account_export : SecretRoute

abbrev pub segments_of : SecretRoute → List Text
segments_of invitation = codes "p" ∷ []
segments_of mail_webhook = codes "webhooks" ∷ codes "email" ∷ []
segments_of closure_export = codes "exports" ∷ codes "closure" ∷ []
segments_of account_export = codes "exports" ∷ []

scrub_segments-secret :
    (route : SecretRoute) (secret : Text) (rest : List Text)
    → is_nil secret ≡ false
    → (secret == codes "closure") ≡ false
    → scrub_segments ([] ∷ (segments_of route ++ secret ∷ rest)) 1 secret_path_prefixes
      ≡ some ([] ∷ (segments_of route ++ redacted ∷ rest))
unfolding scrub_segments list_beq
scrub_segments-secret invitation secret rest there other = rw there refl
scrub_segments-secret mail_webhook secret rest there other = rw there refl
scrub_segments-secret closure_export secret rest there other = rw there refl
scrub_segments-secret account_export secret [] there other = rw there refl
scrub_segments-secret account_export secret (r ∷ rest) there other = ground (arith, there, other)

segments-IsSegment :
    (route : SecretRoute) (rest : List Text)
    → All IsSegment rest
    → All IsSegment ([] ∷ (segments_of route ++ rest))
segments-IsSegment invitation rest h = ground (arith, h)
segments-IsSegment mail_webhook rest h = ground (arith, h)
segments-IsSegment closure_export rest h = ground (arith, h)
segments-IsSegment account_export rest h = ground (arith, h)

-- A path of a route that carries a credential is written with the credential replaced and the rest
-- kept, whatever the credential and whatever follows it, for segments without a slash and a
-- credential that is not empty nor the word closure.
pub scrub_path-secret :
    (route : SecretRoute) (secret : Text) (rest : List Text)
    → All IsSegment (secret ∷ rest)
    → is_nil secret ≡ false
    → (secret == codes "closure") ≡ false
    → scrub_path (absolute (segments_of route ++ secret ∷ rest))
      ≡ (absolute (segments_of route ++ redacted ∷ rest), true)
unfolding scrub_path
scrub_path-secret route secret rest h there other =
    let segs = segments_of route ++ secret ∷ rest in
    let whole : split slash (absolute segs) ≡ [] ∷ segs =
      split-join [] segs (segments-IsSegment route (secret ∷ rest) h) in
    rw (whole, scrub_segments-secret route secret rest there other) refl
