-- ===== src/Domain/Survey.antt =====
-- internal/domain/survey.go: the status of a survey at a time, and the validation of its title.
use Prim.Native.Nat.{ℕ}
use earful.Prelude.{
  Bool, true, some, ◌&&◌, ◌⊎◌, not, ◌↔◌, length, false, arith, ltb, is_nil, Option, none,
  if◌then◌else◌, ◌≡◌, inl, refl, inr,
}
use earful.Domain.Answer.{is_none}
use earful.Domain.Errors.{limit, empty_title, limit_title, Error}
use earful.Prelude.Text.{trim_space, Text}
use earful.Prelude.Int.{ℤ, ltb_ℤ, ◌≤ℤ◌, ◌<ℤ◌}

pub data Status : Type 0 where
  status_draft status_open status_closed : Status

-- Instants are integers; `t.Before(u)` is the strict order.
pub record SurveyState : Type 0 where
  pub has_published_version : Bool
  pub close_at : Option ℤ
  pub closed_at : Option ℤ
  pub suspended : Bool

-- `s.CloseAt != nil && !now.Before(*s.CloseAt)`
abbrev past : Option ℤ → ℤ → Bool
past none now = false
past (some t) now = not (ltb_ℤ now t)

unfoldable pub status_at : SurveyState → ℤ → Status
status_at s now =
    if not s.has_published_version
    then status_draft
    else if not (is_none s.closed_at)
    then status_closed
    else if past s.close_at now
    then status_closed
    else status_open

is_open : Status → Bool
is_open status_open = true
is_open _ = false

unfoldable pub accepts_responses : SurveyState → ℤ → Bool
unfolding is_open status_at
accepts_responses s now = not s.suspended && is_open (status_at s now)

abbrev pub max_title_len : ℕ
max_title_len = 200

unfoldable pub validate_title : Text → Option Error
validate_title title =
    let trimmed = trim_space title in
    if is_nil trimmed
    then some empty_title
    else if ltb max_title_len (length trimmed)
    then some (limit limit_title max_title_len)
    else none

accepts_sound :
    (s : SurveyState) (now : ℤ) (close : Option ℤ)
    → s.close_at ≡ close
    → accepts_responses s now ≡ true
    → (s.suspended ≡ false)
      × (s.has_published_version ≡ true)
      × (s.closed_at ≡ none)
      × ((s.close_at ≡ none) ⊎ ((t : ℤ) × (s.close_at ≡ some t) × (now <ℤ t)))
unfolding accepts_responses
accepts_sound s now none e h = (ground arith, ground arith, ground arith, inl e)
accepts_sound s now (some t) e h =
    (ground arith, ground arith, ground arith, inr (t, e, ground arith))

accepts_complete :
    (s : SurveyState) (now : ℤ)
    → (s.suspended ≡ false)
      × (s.has_published_version ≡ true)
      × (s.closed_at ≡ none)
      × ((s.close_at ≡ none) ⊎ ((t : ℤ) × (s.close_at ≡ some t) × (now <ℤ t)))
    → accepts_responses s now ≡ true
unfolding accepts_responses
accepts_complete s now (live, published, never, inl e) = ground arith
accepts_complete s now (live, published, never, inr (t, e, before)) = ground arith

-- A survey accepts responses exactly while it is published, not closed by hand, before its close
-- date if it has one, and its workspace is not suspended.
pub accepts_responses_iff :
    (s : SurveyState) (now : ℤ)
    → (accepts_responses s now ≡ true) ↔ (
        (s.suspended ≡ false)
        × (s.has_published_version ≡ true)
        × (s.closed_at ≡ none)
        × ((s.close_at ≡ none) ⊎ ((t : ℤ) × (s.close_at ≡ some t) × (now <ℤ t))))
unfolding accepts_responses
accepts_responses_iff s now = (accepts_sound s now s.close_at refl, accepts_complete s now)

-- As time goes on a survey's status changes only from open to closed: a draft stays a draft, and
-- what is closed stays closed.
pub status_at_mono :
    (s : SurveyState) (now later : ℤ)
    → now ≤ℤ later
    → (status_at s later ≡ status_at s now)
      ⊎ ((status_at s now ≡ status_open) × (status_at s later ≡ status_closed))
unfolding status_at
status_at_mono s now later h = ground arith
