-- ===== src/Antibot/Limiter/Recovers.antt =====
-- internal/antibot/ratelimit.go: no key is refused for longer than a window.
use earful.Prelude.{
  List, true, ◌∙◌, refl, some, ap, ◌≡◌, ◌∷◌, arith, All, [], none, Option, Option-cases, Bool-cases,
  nat_eq, list_eq, ◌==◌, inl, inr, Bool, leb, subst, sym, not, eq_iff, ◌+◌,
}
use earful.Prelude.Dict.{
  lookup-empty, lookup, insert, retain, lookup-insert, lookup-retain, size, Dict,
}
use earful.Prelude.Text.{Text}
use earful.Prelude.Int.{time_sub, leb_ℤ, ℤ, -ℤ_parts, ◌≤ℤ◌, pos}
use earful.Antibot.Limiter.{
  allow, expired, allow-keeps, allow-first, Bucket, Limiter, new_limiter, sweep, max_buckets,
  first_event,
}

-- The limiter after events, each an instant and a key.
unfoldable pub after_events : Limiter → List (ℤ × Text) → Limiter
after_events l [] = l
after_events l ((now, key) ∷ es) = after_events (allow l now key).0 es

-- The key's window, if there is one, opened by the instant.
abbrev StartsBy : Text → ℤ → Limiter → Type 0
StartsBy key t l = (b : Bucket) → lookup key l.buckets ≡ some b → b.start ≤ℤ t

abbrev pub IsBy : ℤ → List (ℤ × Text) → Type 0
IsBy t es = All (λ e. e.0 ≤ℤ t) es

found_or : Bucket → Option Bucket → Bucket
found_or b none = b
found_or b (some c) = c

held_one : (b c : Bucket) → some b ≡ some c → b ≡ c
unfolding found_or
held_one b c h = ap (found_or b) h

abbrev AllBy : Text → ℤ → Dict Bucket → Type 0
AllBy key t m = (b : Bucket) → lookup key m ≡ some b → b.start ≤ℤ t

insert-AllBy :
    (m : Dict Bucket) (key other : Text) (v : Bucket) (t : ℤ)
    → ((other == key) ≡ true → v.start ≤ℤ t)
    → AllBy key t m
    → AllBy key t (insert other v m)
insert-AllBy m key other v t early by b h = elim (Bool-cases (other == key)) [
  | inl own ↦
      (let held : some v ≡ some b = ground (arith, own, lookup-insert key other v m, h) in
        subst (λ x. x.start ≤ℤ t) (held_one v b held) (early own))
  | inr foreign ↦ by b (ground (arith, foreign, lookup-insert key other v m, h))
]

retain-AllBy :
    (m : Dict Bucket) (key : Text) (p : Bucket → Bool) (t : ℤ)
    → AllBy key t m
    → AllBy key t (retain p m)
retain-AllBy m key p t by b h = elim (Option-cases (lookup key m)) [
  | inl missing ↦ absurd (ground (arith, missing, lookup-retain key p m, h))
  | inr (c, held) ↦
      (let same : b ≡ c = elim (Bool-cases (p c)) [
        | inl passes ↦
            (let read : some c ≡ some b = ground (arith, held, passes, lookup-retain key p m, h) in
              sym (held_one c b read))
        | inr drops ↦ absurd (ground (arith, held, drops, lookup-retain key p m, h))
      ] in
        subst (λ x. x.start ≤ℤ t) (sym same) (by c held))
]

allow-StartsBy :
    (l : Limiter) (now t : ℤ) (key other : Text)
    → now ≤ℤ t
    → StartsBy key t l
    → StartsBy key t (allow l now other).0
unfolding allow sweep
allow-StartsBy l now t key other early by = elim (Option-cases (lookup other l.buckets)) [
  | inl missing ↦ elim (Bool-cases (leb max_buckets (size l.buckets))) [
    | inl full ↦
        rw (missing, full)
          (insert-AllBy (retain (λ b. not (expired l now b)) l.buckets) key other (first_event now)
            t (λ own. early) (retain-AllBy l.buckets key (λ b. not (expired l now b)) t by))
    | inr room ↦
        rw (missing, room) (insert-AllBy l.buckets key other (first_event now) t (λ own. early) by)
  ]
  | inr (c, there) ↦ elim (Bool-cases (expired l now c)) [
    | inl past ↦
        rw (there, past) (insert-AllBy l.buckets key other (first_event now) t (λ own. early) by)
    | inr live ↦ elim (Bool-cases (leb_ℤ l.limit (pos c.count))) [
      | inl full ↦ rw (there, live, full) by
      | inr room ↦
          rw (there, live, room)
            (insert-AllBy l.buckets key other (record c { count = c.count + 1 }) t
              (λ own.
                by c (subst (λ k. lookup k l.buckets ≡ some c) ((eq_iff other key).0 own) there))
              by)
    ]
  ]
]

time_sub_anti : (t u v : ℤ) → u ≤ℤ v → time_sub t v ≤ℤ time_sub t u
unfolding time_sub
time_sub_anti t u v h = ground (arith, -ℤ_parts t u, -ℤ_parts t v)

after_events-StartsBy :
    (l : Limiter) (t : ℤ) (key : Text) (es : List (ℤ × Text))
    → IsBy t es
    → StartsBy key t l
    → StartsBy key t (after_events l es)
unfolding after_events
after_events-StartsBy l t key [] early by = by
after_events-StartsBy l t key ((now, other) ∷ es) early by =
    after_events-StartsBy (allow l now other).0 t key es early.1
      (allow-StartsBy l now t key other early.0 by)

after_events-window : (l : Limiter) (es : List (ℤ × Text)) → (after_events l es).window ≡ l.window
unfolding after_events
after_events-window l [] = refl
after_events-window l ((now, other) ∷ es) =
    after_events-window (allow l now other).0 es ∙ (allow-keeps l now other).1

-- Whatever events of whatever keys a new limiter has seen up to an instant, refused ones included, an
-- event of any key that comes at least a window after that instant is allowed.
pub after_events-allow :
    (limit window : ℤ) (es : List (ℤ × Text)) (t later : ℤ) (key : Text)
    → IsBy t es
    → leb_ℤ window (time_sub later t) ≡ true
    → (allow (after_events (new_limiter limit window) es) later key).1 ≡ true
unfolding expired new_limiter
after_events-allow limit window es t later key early past =
    let l = after_events (new_limiter limit window) es in
    let opened =
      after_events-StartsBy (new_limiter limit window) t key es early
        (λ b h. absurd (ground (arith, lookup-empty {V = Bucket} key, h))) in
    (allow-first l later key (λ b held. ground (
      arith,
      after_events-window (new_limiter limit window) es,
      opened b held,
      time_sub_anti later b.start t,
      past,
    ))).0
