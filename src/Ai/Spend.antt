-- ===== src/Ai/Spend.antt =====
-- internal/ai/meter.go: what a call that was checked with an estimate, and then recorded, adds to the
-- day of its workspace.
use earful.Prelude.{
  sym, false, ℕ, ◌≡◌, Bool-cases, ◌+◌, arith, if◌then◌else◌, subst, Bool, ◌/◌, ap, inl, inr, Option,
  refl,
}
use earful.Ai.Meter.{
  Meter, WorkspaceUsage, quota_exceeded, usage, Metered, over_quota, Float, over_budget, UsageStore,
  failed, breaker_tripped, fine, check_for, workspace_suspended, ◌>>=◌, parse_tier, start_of_day,
  cap_for, or_normal, record_with, record_tokens, cost_of, UsageRow,
}
use earful.Prelude.Text.{Text}
use earful.Prelude.Int.{pos, ◌≤ℤ◌, ◌+ℤ◌, IsInt64, ◌<ℤ◌, ℤ, +ℤ_parts, wrap64_of_IsInt64, wrap64}

metered_inv {ℓ κ} :
    {A : Type ℓ} {B : Type κ} (o : Metered A) (f : A → Metered B) (b : B)
    → (o >>= f) ≡ fine b
    → (a : A) × (o ≡ fine a) × (f a ≡ fine b)
metered_inv (failed e) f b h = absurd (ground arith)
metered_inv (fine a) f b h = (a, refl, h)

value_or {ℓ} : {A : Type ℓ} → A → Metered A → A
value_or a (failed e) = a
value_or a (fine b) = b

pub read_once {ℓ} : {A : Type ℓ} (o : Metered A) (a b : A) → o ≡ fine a → o ≡ fine b → a ≡ b
unfolding value_or
read_once o a b h k = ap (value_or a) (subst (λ x. x ≡ fine b) h k)

module _ {F : Float} (db : UsageStore F) (m : Meter F) where
  -- What a check that passed has seen.
  record IsOpen (now : ℤ) (workspace : Text) (estimated : ℤ) (s : db.State) : Type 0 where
    u : WorkspaceUsage
    used : usage db m now workspace s ≡ fine u
    room : over_quota db m u estimated ≡ false

  check_for-IsOpen :
      (now : ℤ) (workspace : Text) (estimated : ℤ) (s : db.State)
      → check_for db m now workspace estimated s ≡ fine tt
      → IsOpen now workspace estimated s
  unfolding check_for
  check_for-IsOpen now workspace estimated s h =
      let quota : WorkspaceUsage → Metered (Unit {0}) =
        λ u. if over_quota db m u estimated then failed quota_exceeded else fine tt in
      let breaker : F.Carrier → Metered (Unit {0}) = λ cost.
        if over_budget db m cost estimated
        then failed breaker_tripped
        else (usage db m now workspace s >>= quota) in
      let gate : Bool → Metered (Unit {0}) = λ b.
        if b then failed workspace_suspended else (db.cost_on (start_of_day now) s >>= breaker) in
      let first = metered_inv (db.suspended workspace s) gate tt h in
      elim (Bool-cases first.0) [
        | inl held ↦ absurd (ground (arith, held, first.2))
        | inr free ↦
            (let passed : (db.cost_on (start_of_day now) s >>= breaker) ≡ fine tt =
                ground (arith, free, first.2) in
              let second = metered_inv (db.cost_on (start_of_day now) s) breaker tt passed in
              elim (Bool-cases (over_budget db m second.0 estimated)) [
                | inl tripped ↦ absurd (ground (arith, tripped, second.2))
                | inr whole ↦
                    (let third =
                        metered_inv (usage db m now workspace s) quota tt
                          (ground (arith, whole, second.2)) in
                      elim (Bool-cases (over_quota db m third.0 estimated)) [
                        | inl over ↦ absurd (ground (arith, over, third.2))
                        | inr room ↦ record { u = third.0; used = third.1; room = room }
                      ])
              ])
      ]

  usage-tokens_on :
      (now : ℤ) (workspace : Text) (s : db.State) (u : WorkspaceUsage)
      → usage db m now workspace s ≡ fine u
      → db.tokens_on workspace (start_of_day now) s ≡ fine u.tokens
  unfolding usage
  usage-tokens_on now workspace s u h =
      let made : Text → ℤ → Metered WorkspaceUsage = λ stored tokens. fine (record {
        tier = or_normal (parse_tier stored);
        tokens = tokens;
        cap = cap_for m.daily_tokens (or_normal (parse_tier stored));
      }) in
      let day = db.tokens_on workspace (start_of_day now) s in
      let first = metered_inv (db.tier_of workspace s) (λ stored. day >>= made stored) u h in
      let second = metered_inv day (made first.0) u first.2 in
      subst (λ k. day ≡ fine k) (ap tokens_of second.2) second.1
    where
      tokens_of : Metered WorkspaceUsage → ℤ
      tokens_of (failed e) = pos 0
      tokens_of (fine w) = w.tokens

  over_quota-room :
      (u : WorkspaceUsage) (estimated : ℤ)
      → pos 0 <ℤ estimated
      → IsInt64 (u.tokens +ℤ estimated)
      → over_quota db m u estimated ≡ false
      → u.tokens +ℤ estimated ≤ℤ u.cap
  unfolding over_quota
  over_quota-room u estimated e i h = ground (arith, wrap64_of_IsInt64 (u.tokens +ℤ estimated) i)

  sum_lem : (n e c : ℤ) (k : ℕ) → n +ℤ e ≤ℤ c → n +ℤ (pos k +ℤ e) ≤ℤ c +ℤ pos k
  sum_lem n e c k h =
      ground (arith, +ℤ_parts n e, +ℤ_parts (pos k) e, +ℤ_parts n (pos k +ℤ e), +ℤ_parts c (pos k))

  -- A call that is checked with an estimate above nought for its attachments, and then recorded with
  -- the same estimate on the same day, with nothing recorded in between, leaves the day's tokens of
  -- its workspace at what they were, the estimate and the text's own tokens. They exceed the cap of
  -- the workspace's tier by the text's own tokens at most, so the attachments never pass it. The sums
  -- must fit an int64.
  pub record_with-check_for :
      (now later : ℤ) (workspace : Text) (survey : Option Text) (kind : Text) (chars : ℕ)
      (estimated n : ℤ) (s s2 : db.State)
      → start_of_day later ≡ start_of_day now
      → pos 0 <ℤ estimated
      → db.tokens_on workspace (start_of_day now) s ≡ fine n
      → IsInt64 (n +ℤ estimated)
      → IsInt64 (pos (chars / 4 + 1) +ℤ estimated)
      → check_for db m now workspace estimated s ≡ fine tt
      → record_with db m later workspace survey kind chars estimated s ≡ fine s2
      → (u : WorkspaceUsage) × (usage db m now workspace s ≡ fine u)
        × (db.tokens_on workspace (start_of_day now) s2
            ≡ fine (n +ℤ (pos (chars / 4 + 1) +ℤ estimated)))
        × (n +ℤ (pos (chars / 4 + 1) +ℤ estimated) ≤ℤ u.cap +ℤ pos (chars / 4 + 1))
  unfolding record_with record_tokens
  record_with-check_for now later workspace survey kind chars estimated n s s2 day e before fits
        whole passed recorded =
      let open_day = check_for-IsOpen now workspace estimated s passed in
      let same : open_day.u.tokens ≡ n =
        read_once (db.tokens_on workspace (start_of_day now) s) open_day.u.tokens n
          (usage-tokens_on now workspace s open_day.u open_day.used) before in
      let tokens = pos (chars / 4 + 1) +ℤ estimated in
      let room =
        over_quota-room open_day.u estimated e
          (subst (λ k. IsInt64 (k +ℤ estimated)) (sym same) fits) open_day.room in
      let under =
        sum_lem n estimated open_day.u.cap (chars / 4 + 1)
          (subst (λ k. k +ℤ estimated ≤ℤ open_day.u.cap) same room) in
      let row : UsageRow F = record {
        workspace = workspace;
        survey = survey;
        kind = kind;
        tokens = wrap64 tokens;
        cost = cost_of db m (wrap64 tokens);
        seconds = pos 0;
        day = start_of_day later;
      } in
      let after =
        db.tokens_on-add row s s2 n recorded
          (subst (λ d. db.tokens_on workspace d s ≡ fine n) (sym day) before) in
      let summed = n +ℤ wrap64 tokens in
      (
        open_day.u,
        open_day.used,
        subst (λ k. db.tokens_on workspace (start_of_day now) s2 ≡ fine (n +ℤ k))
            (wrap64_of_IsInt64 tokens whole)
            (subst (λ d. db.tokens_on workspace d s2 ≡ fine summed) day after),
        under,
      )
