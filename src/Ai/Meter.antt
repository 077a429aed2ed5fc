-- ===== src/Ai/Meter.antt =====
-- internal/ai/meter.go: `Meter`, the daily allowance of a workspace, the breaker of the whole instance
-- and what a call is charged.
use earful.Prelude.{
  List, Option, none, ℕ, ◌*◌, ◌&&◌, ◌+◌, some, ◌≡◌, ◌==◌, if◌then◌else◌, ◌∷◌, Bool, [], ◌/◌, ◌||◌,
  nat_eq, list_eq, bool_eq,
}
use earful.Prelude.Dict.{size}
use earful.Prelude.Text.{codes, Text}
use earful.Prelude.Int.{
  ◌+ℤ◌, pos, wrap64, leb_ℤ, ℤ, negsuc, ltb_ℤ, ◌-ℤ◌, int_eq, int_eq, int_eq, times64,
}

-- float64, as far as the meter computes with it: its operations round, and no law of them is used.
pub record Float : Type 1 where
  pub Carrier : Type 0
  pub of_int : ℤ → Carrier
  pub plus : Carrier → Carrier → Carrier
  pub times : Carrier → Carrier → Carrier
  pub over : Carrier → Carrier → Carrier
  pub at_least : Carrier → Carrier → Bool
  pub above : Carrier → Carrier → Bool

-- `Tier`
pub data Tier : Type 0 where
  low_normal normal high : Tier

pub record TierCaps : Type 0 where
  pub low_normal_cap : ℤ
  pub normal_cap : ℤ
  pub high_cap : ℤ

unfoldable pub parse_tier : Text → Option Tier
parse_tier s =
    if s == codes "low_normal"
    then some low_normal
    else if s == codes "normal"
    then some normal
    else if s == codes "high"
    then some high
    else none

-- `TierCaps.For`
unfoldable pub cap_for : TierCaps → Tier → ℤ
cap_for c low_normal = c.low_normal_cap
cap_for c normal = c.normal_cap
cap_for c high = c.high_cap

pub data MeterError : Type 0 where
  quota_exceeded breaker_tripped workspace_suspended store_failed : MeterError

-- A step that fails, or goes on.
pub data Metered {ℓ} (A : Type ℓ) : Type ℓ where
  failed : MeterError → Metered A
  fine : A → Metered A

infixl 5 ◌>>=◌
abbrev pub ◌>>=◌ {ℓ κ} : {A : Type ℓ} {B : Type κ} → Metered A → (A → Metered B) → Metered B
failed e >>= f = failed e
fine a >>= f = f a

-- One row of ai_usage.
pub record UsageRow (F : Float) : Type 0 where
  pub workspace : Text
  pub survey : Option Text
  pub kind : Text
  pub tokens : ℤ
  pub cost : F.Carrier
  pub seconds : ℤ
  pub day : ℤ

-- `UsageStore`, over the state of the database: each reads from it, or fails, and `add` leaves the next
-- state. The law: the tokens of a record that is added count for its workspace on its day.
pub record UsageStore (F : Float) : Type 1 where
  pub State : Type 0
  pub add : UsageRow F → State → Metered State
  pub tokens_on : Text → ℤ → State → Metered ℤ
  pub cost_on : ℤ → State → Metered F.Carrier
  pub voice_seconds_on : Text → ℤ → State → Metered ℤ
  pub tier_of : Text → State → Metered Text
  pub suspended : Text → State → Metered Bool
  pub tokens_on-add :
      (row : UsageRow F) (s s2 : State) (n : ℤ)
      → add row s ≡ fine s2
      → tokens_on row.workspace row.day s ≡ fine n
      → tokens_on row.workspace row.day s2 ≡ fine (n +ℤ row.tokens)

pub record Meter (F : Float) : Type 0 where
  pub daily_tokens : TierCaps
  pub daily_budget : F.Carrier
  pub cost_per_1k : F.Carrier
  pub voice_survey_daily_seconds : ℤ

abbrev pub audio_tokens_per_second : ℕ
audio_tokens_per_second = 32

-- `day`: the start of the day, in nanoseconds since 1970 began.
abbrev pub start_of_day : ℤ → ℤ
start_of_day (pos n) = pos (n / 86400000000000 * 86400000000000)
start_of_day (negsuc n) = negsuc (n / 86400000000000 * 86400000000000 + 86399999999999)

-- What is charged for an attachment of a size; sizes are those of slices in memory.
pub data MediaType : Type 0 where
  media_png media_jpeg media_pdf media_other : MediaType

unfoldable pub media_tokens : MediaType → ℕ → ℕ
media_tokens media_png size = 258 * (size / 204800 + 1)
media_tokens media_jpeg size = 258 * (size / 204800 + 1)
media_tokens media_pdf size = 258 + size / 16
media_tokens media_other size = size / 4 + 1

-- The loop of `EstimateTokens`, with the tokens so far.
estimate_from : ℤ → List (MediaType × ℕ) → ℤ
unfolding media_tokens
estimate_from tokens [] = tokens
estimate_from tokens ((mime, size) ∷ more) =
    estimate_from (wrap64 (tokens +ℤ pos (media_tokens mime size))) more

unfoldable pub estimate_tokens : List (MediaType × ℕ) → ℤ
unfolding estimate_from
estimate_tokens attachments = estimate_from (pos 0) attachments

pub record WorkspaceUsage : Type 0 where
  pub tier : Tier
  pub tokens : ℤ
  pub cap : ℤ

unfoldable pub or_normal : Option Tier → Tier
or_normal none = normal
or_normal (some t) = t

module _ {F : Float} (db : UsageStore F) (m : Meter F) where
  -- float64(tokens) / 1000 * m.CostPer1KTokensEUR
  abbrev pub cost_of : ℤ → F.Carrier
  cost_of tokens = F.times (F.over (F.of_int tokens) (F.of_int (pos 1000))) m.cost_per_1k

  unfoldable pub usage : ℤ → Text → db.State → Metered WorkspaceUsage
  unfolding parse_tier or_normal cap_for
  usage now workspace s = do
    stored ← db.tier_of workspace s
    tokens ← db.tokens_on workspace (start_of_day now) s
    fine (record {
      tier = or_normal (parse_tier stored);
      tokens = tokens;
      cap = cap_for m.daily_tokens (or_normal (parse_tier stored));
    })

  -- The two refusals: today's spend is at the limit, or would pass it.
  unfoldable pub over_budget : F.Carrier → ℤ → Bool
  over_budget cost estimated =
      F.at_least cost m.daily_budget
      || (ltb_ℤ (pos 0) estimated && F.above (F.plus cost (cost_of estimated)) m.daily_budget)

  unfoldable pub over_quota : WorkspaceUsage → ℤ → Bool
  over_quota u estimated =
      leb_ℤ u.cap u.tokens
      || (ltb_ℤ (pos 0) estimated && ltb_ℤ u.cap (wrap64 (u.tokens +ℤ estimated)))

  -- `CheckFor`; `Check` is the call with an estimate of nought.
  unfoldable pub check_for : ℤ → Text → ℤ → db.State → Metered (Unit {0})
  unfolding usage over_budget over_quota
  check_for now workspace estimated s = do
    is_suspended ← db.suspended workspace s
    if is_suspended then failed workspace_suspended else (do
      cost ← db.cost_on (start_of_day now) s
      if over_budget cost estimated then failed breaker_tripped else (do
        u ← usage now workspace s
        if over_quota u estimated then failed quota_exceeded else fine tt))

  -- `record`
  unfoldable pub record_tokens : ℤ → Text → Option Text → Text → ℤ → ℤ → db.State → Metered db.State
  record_tokens now workspace survey kind tokens seconds s =
      db.add
        (record {
          workspace = workspace;
          survey = survey;
          kind = kind;
          tokens = tokens;
          cost = cost_of tokens;
          seconds = seconds;
          day = start_of_day now;
        })
        s

  -- `RecordWith`; `Record` is the call without attachments. `chars` is the length of a text.
  unfoldable pub record_with : ℤ → Text → Option Text → Text → ℕ → ℤ → db.State → Metered db.State
  unfolding record_tokens
  record_with now workspace survey kind chars attachment_tokens s =
      record_tokens now workspace survey kind (wrap64 (pos (chars / 4 + 1) +ℤ attachment_tokens))
        (pos 0) s

  unfoldable pub record_voice : ℤ → Text → Option Text → ℕ → ℕ → db.State → Metered db.State
  unfolding record_tokens
  record_voice now workspace survey seconds transcript_chars s =
      record_tokens now workspace survey (codes "transcribe")
        (wrap64 (times64 (pos seconds) audio_tokens_per_second +ℤ pos (transcript_chars / 4 + 1)))
        (pos seconds) s

  -- `VoiceSecondsLeft`
  unfoldable pub voice_seconds_left : ℤ → Text → db.State → Metered ℤ
  voice_seconds_left now survey s =
      if leb_ℤ m.voice_survey_daily_seconds (pos 0) then fine (pos 2147483647) else (do
        spent ← db.voice_seconds_on survey (start_of_day now) s
        let left = wrap64 (m.voice_survey_daily_seconds -ℤ spent) in
            if ltb_ℤ left (pos 0) then fine (pos 0) else fine left)
