-- ===== src/Antibot/Limiter/Bursts.antt =====
-- internal/antibot/ratelimit.go: how many events of a key a limiter allows among events of any keys.
use Prim.Native.Nat.{ℕ, min, max}
use earful.Prelude.{
  if◌then◌else◌, Bool-cases, ◌-◌, ◌≡◌, false, inl, some, arith, All, ◌==◌, List, ◌+◌, Bool, [],
  ◌&&◌, inr, ◌∷◌, nat_eq, list_eq, bool_eq, eq_refl, refl, eq_iff, true, ◌∙◌,
}
use earful.Domain.Answer.Check.{within}
use earful.Prelude.Dict.{lookup}
use earful.Prelude.Text.{Text}
use earful.Prelude.Int.{leb_ℤ, time_sub, ℤ, pos_part, int_eq, ltb_ℤ, pos, int_eq}
use earful.Antibot.Limiter.{
  Limiter, Bucket, allow, allow-keeps, allow-others, first_event, allow-next, allow-first, expired,
}

abbrev bit : Bool → ℕ
bit b = if b then 1 else 0

-- The events of the key, each an instant and a key, that `Allow` allows, one after the other.
unfoldable pub allowed : Limiter → Text → List (ℤ × Text) → ℕ
allowed l key [] = 0
allowed l key ((now, other) ∷ es) =
    let r = allow l now other in bit ((other == key) && r.1) + allowed r.0 key es

unfoldable pub asked : Text → List (ℤ × Text) → ℕ
asked key [] = 0
asked key ((now, other) ∷ es) = bit (other == key) + asked key es

-- Every event is in the window that opened at the instant.
abbrev pub IsWithin : ℤ → ℤ → List (ℤ × Text) → Type 0
IsWithin window start es = All (λ e. leb_ℤ window (time_sub e.0 start) ≡ false) es

-- What is left of a limit, above a count.
abbrev left_of : ℤ → ℕ → ℕ
left_of most count = pos_part most - count

allowed_in_window :
    (l : Limiter) (most window : ℤ) (key : Text) (b : Bucket) (es : List (ℤ × Text))
    → l.limit ≡ most
    → l.window ≡ window
    → lookup key l.buckets ≡ some b
    → IsWithin window b.start es
    → allowed l key es ≡ min (left_of most b.count) (asked key es)
unfolding allowed asked expired
allowed_in_window l most window key b [] hm hw held within = omega arith
allowed_in_window l most window key b ((now, other) ∷ es) hm hw held within =
    let live : expired l now b ≡ false = rw hw within.0 in
    let kept = allow-keeps l now other in
    elim (Bool-cases (other == key)) [
      | inl own ↦
          (let same : other ≡ key = (eq_iff other key).0 own in
            let next = allow-next l now key b held live in
            elim (Bool-cases (ltb_ℤ (pos b.count) l.limit)) [
              | inl under ↦
                  (let rest =
                      allowed_in_window (allow l now key).0 most window key
                        (record b { count = b.count + 1 }) es ((allow-keeps l now key).0 ∙ hm)
                        ((allow-keeps l now key).1 ∙ hw) (rw (next.1, under) refl) within.1 in
                    rw (same, eq_refl key, next.0, under, rest) (ground (arith, hm)))
              | inr over ↦
                  (let rest =
                      allowed_in_window (allow l now key).0 most window key b es
                        ((allow-keeps l now key).0 ∙ hm) ((allow-keeps l now key).1 ∙ hw)
                        (rw (next.1, over) refl) within.1 in
                    rw (same, eq_refl key, next.0, over, rest) (ground (arith, hm)))
            ])
      | inr foreign ↦
          (let rest =
              allowed_in_window (allow l now other).0 most window key b es (kept.0 ∙ hm)
                (kept.1 ∙ hw) (allow-others l now key other b held live foreign) within.1 in
            rw (foreign, rest) (omega arith))
    ]

-- When a key has no bucket, or one that has expired, its event opens a window: of that event and
-- those of any keys that follow in the window, the limiter allows the first ones of the key up to the
-- limit, and one when the limit is not positive, whatever the other keys do.
pub allowed_lem :
    (l : Limiter) (now : ℤ) (key : Text) (es : List (ℤ × Text))
    → ((b : Bucket) → lookup key l.buckets ≡ some b → expired l now b ≡ true)
    → IsWithin l.window now es
    → allowed l key ((now, key) ∷ es) ≡ min (max 1 (pos_part l.limit)) (asked key ((now, key) ∷ es))
unfolding allowed asked
allowed_lem l now key es stale within =
    let opened = allow-first l now key stale in
    let kept = allow-keeps l now key in
    let rest =
      allowed_in_window (allow l now key).0 l.limit l.window key (first_event now) es kept.0 kept.1
        opened.1 within in
    rw (eq_refl key, opened.0, rest) (omega arith)
