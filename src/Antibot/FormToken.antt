-- ===== src/Antibot/FormToken.antt =====
-- internal/antibot/formtoken.go: `FormTokens`, the signed time at which a form was drawn. An instant
-- is the nanoseconds since 1970 began.
use earful.Prelude.{
  ◌≡◌, arith, ◌∙◌, refl, none, ◌<◌, ◌+◌, suc, Option, ◌*◌, false, eq_refl, ◌↔◌, ◌/◌, ◌++◌, eqb,
  All-map_of, if◌then◌else◌, ◌==◌, All, ◌||◌, ◌∷◌, some, ℕ, not, nat_eq, list_eq, bool_eq, ap,
  Bool-cases, Option-cases, ◌-◌, inr, ltb, inl, subst, eq_iff,
}
use earful.Prelude.Text.{cut, cut-append, Text}
use earful.Prelude.Int.{time_sub, ◌-ℤ◌, pos, ◌≤ℤ◌, negsuc, ℤ, ltb_ℤ, int_eq, int_eq}
use earful.Prelude.Text.Decimal.{parse_int64, parse_int64-itoa, IsDigit, itoa, decimal-IsDigit}

-- `ErrFormTooFast` and `ErrFormTokenInvalid`.
pub data FormError : Type 0 where
  form_too_fast : FormError
  form_token_invalid : FormError

-- What a process holds: `mac` is the HMAC-SHA256 under its key, written in base64.
pub record FormTokens : Type 0 where
  pub mac : Text → Text

abbrev pub max_form_age : ℤ
max_form_age = pos 86400000000000

-- `UnixMilli` and `time.UnixMilli`: the milliseconds before an instant, and the instant they are at.
abbrev pub unix_milli : ℤ → ℤ
unix_milli (pos n) = pos (n / 1000000)
unix_milli (negsuc n) = negsuc (n / 1000000)

abbrev pub from_milli : ℤ → ℤ
from_milli (pos n) = pos (n * 1000000)
from_milli (negsuc n) = negsuc (n * 1000000 + 999999)

-- fmt.Fprintf(mac, "%s|%s", scope, ts)
unfoldable pub sign : FormTokens → Text → Text → Text
sign f scope ts = f.mac (scope ++ b'|' ∷ ts)

unfoldable pub issue : FormTokens → ℤ → Text → Text
unfolding sign
issue f now scope = let ts = itoa (unix_milli now) in ts ++ b'.' ∷ sign f scope ts

-- The tests of the age.
check_age : ℤ → ℤ → Option FormError
check_age min_age age =
    if ltb_ℤ age (pos 0) || ltb_ℤ max_form_age age
    then some form_token_invalid
    else if ltb_ℤ age min_age
    then some form_too_fast
    else none

check_time : ℤ → ℤ → Option ℤ → Option FormError
unfolding check_age
check_time now min_age none = some form_token_invalid
check_time now min_age (some millis) = check_age min_age (time_sub now (from_milli millis))

check_parts : FormTokens → ℤ → Text → ℤ → Option (Text × Text) → Option FormError
unfolding sign check_time
check_parts f now scope min_age none = some form_token_invalid
check_parts f now scope min_age (some (ts, sig)) =
    if not (sig == sign f scope ts)
    then some form_token_invalid
    else check_time now min_age (parse_int64 ts)

-- `Check`, where none is nil.
unfoldable pub check : FormTokens → ℤ → Text → Text → ℤ → Option FormError
unfolding check_parts
check f now scope token min_age = check_parts f now scope min_age (cut b'.' token)

digit-no_dot : (s : Text) → All IsDigit s → All (λ c. eqb c b'.' ≡ false) s
digit-no_dot s h = All-map_of IsDigit (λ c. eqb c b'.' ≡ false) (λ c d. ground arith) s h

itoa-IsDigit : (n : ℕ) → All IsDigit (itoa (pos n))
unfolding itoa
itoa-IsDigit n = decimal-IsDigit (suc n) n

check-issue_age :
    (f : FormTokens) (scope : Text) (n : ℕ) (now min_age : ℤ)
    → n / 1000000 < 9223372036854775808
    → check f now scope (issue f (pos n) scope) min_age
      ≡ check_age min_age (time_sub now (pos (n / 1000000 * 1000000)))
unfolding check issue
check-issue_age f scope n now min_age h =
    let ts = itoa (pos (n / 1000000)) in
    let parts : cut b'.' (ts ++ b'.' ∷ sign f scope ts) ≡ some (ts, sign f scope ts) =
      cut-append b'.' ts (sign f scope ts) (digit-no_dot ts (itoa-IsDigit (n / 1000000))) in
    rw (parts, eq_refl (sign f scope ts), parse_int64-itoa (n / 1000000) h) refl

-- A token is judged, for the scope that it was issued for, by the time since the start of the
-- millisecond in which it was issued: invalid if that lies in the future or more than 24 hours back,
-- too fast below the minimum age, and passed otherwise. The milliseconds of the issue fit an int64.
pub check-issue :
    (f : FormTokens) (scope : Text) (issued now min_age : ℕ)
    → issued / 1000000 < 9223372036854775808
    → let drawn = issued / 1000000 * 1000000 in
      check f (pos now) scope (issue f (pos issued) scope) (pos min_age) ≡ (
        if ltb now drawn || ltb 86400000000000 (now - drawn)
        then some form_token_invalid
        else if ltb (now - drawn) min_age
        then some form_too_fast
        else none)
unfolding check_age time_sub ◌-ℤ◌
check-issue f scope issued now min_age h =
    check-issue_age f scope issued (pos now) (pos min_age) h ∙ ground arith

-- What passes at an instant: a token that is a number of milliseconds and its signature for the
-- scope, at an age from the minimum to 24 hours.
pub record IsFresh (f : FormTokens) (now : ℤ) (scope token : Text) (min_age : ℤ) : Type 0 where
  pub ts : Text
  pub millis : ℤ
  pub parts : cut b'.' token ≡ some (ts, sign f scope ts)
  pub number : parse_int64 ts ≡ some millis
  pub not_before : pos 0 ≤ℤ time_sub now (from_milli millis)
  pub not_after : time_sub now (from_milli millis) ≤ℤ max_form_age
  pub not_fast : min_age ≤ℤ time_sub now (from_milli millis)

check_time-IsFresh :
    (f : FormTokens) (now : ℤ) (scope token ts : Text) (min_age : ℤ)
    → cut b'.' token ≡ some (ts, sign f scope ts)
    → check_time now min_age (parse_int64 ts) ≡ none
    → IsFresh f now scope token min_age
unfolding check_time
check_time-IsFresh f now scope token ts min_age parts h = elim (Option-cases (parse_int64 ts)) [
  | inl bad ↦ absurd (ground arith)
  | inr (millis, number) ↦
      (let good : check_age min_age (time_sub now (from_milli millis)) ≡ none =
          subst (λ o. check_time now min_age o ≡ none) number h in
        record {
          ts = ts;
          millis = millis;
          parts = parts;
          number = number;
          not_before = ground arith;
          not_after = ground arith;
          not_fast = ground arith;
        })
]

check-none-IsFresh :
    (f : FormTokens) (now : ℤ) (scope token : Text) (min_age : ℤ)
    → check f now scope token min_age ≡ none
    → IsFresh f now scope token min_age
unfolding check
check-none-IsFresh f now scope token min_age h = elim (Option-cases (cut b'.' token)) [
  | inl bad ↦ absurd (ground arith)
  | inr ((ts, sig), parts) ↦ elim (Bool-cases (sig == sign f scope ts)) [
    | inl signed ↦
        (let same : sig ≡ sign f scope ts = (eq_iff sig (sign f scope ts)).0 signed in
          let whole = parts ∙ ap (λ x. some (ts, x)) same in
          check_time-IsFresh f now scope token ts min_age whole (ground arith))
    | inr forged ↦ absurd (ground arith)
  ]
]

-- A token passes only with the process's signature of its scope and its time, the text before its
-- first dot, which is a number of milliseconds not in the future and from the minimum age to 24 hours
-- ago.
pub check-IsFresh :
    (f : FormTokens) (now : ℤ) (scope token : Text) (min_age : ℤ)
    → (check f now scope token min_age ≡ none) ↔ IsFresh f now scope token min_age
unfolding check
check-IsFresh f now scope token min_age = (
  check-none-IsFresh f now scope token min_age,
  λ h.
      rw (h.parts, eq_refl (sign f scope h.ts), h.number)
        (ground (arith, h.not_before, h.not_after, h.not_fast)),
)
