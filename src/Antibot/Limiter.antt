-- ===== src/Antibot/Limiter.antt =====
-- internal/antibot/ratelimit.go: the fixed-window limiter, keyed by a text.
pub mod Bursts
pub mod Recovers
use Prim.Native.Nat.{ℕ}
use earful.Prelude.{
  if◌then◌else◌, arith, some, not, ◌==◌, ◌+◌, refl, Option-cases, Option, inl, false, Bool, ◌≡◌,
  none, leb, true, inr, nat_eq, list_eq, bool_eq, Bool-cases,
}
use earful.Prelude.Dict.{
  retain, insert, empty, Dict, lookup-insert_self, lookup, size, lookup-retain, lookup-insert,
}
use earful.Prelude.Text.{Text}
use earful.Prelude.Int.{time_sub, leb_ℤ, pos, ltb_ℤ, ℤ, int_eq, int_eq, int_eq}

pub record Bucket : Type 0 where
  pub start : ℤ
  pub count : ℕ

pub record Limiter : Type 0 where
  pub limit : ℤ
  pub window : ℤ
  pub buckets : Dict Bucket

abbrev pub max_buckets : ℕ
max_buckets = 100000

unfoldable pub new_limiter : ℤ → ℤ → Limiter
new_limiter limit window = record { limit = limit; window = window; buckets = empty }

-- `now.Sub(b.start) >= l.window`
unfoldable pub expired : Limiter → ℤ → Bucket → Bool
expired l now b = leb_ℤ l.window (time_sub now b.start)

unfoldable pub sweep : Limiter → ℤ → Limiter
sweep l now = record l { buckets = retain (λ b. not (expired l now b)) l.buckets }

abbrev put_bucket : Limiter → Text → Bucket → Limiter
put_bucket l key b = record l { buckets = insert key b l.buckets }

abbrev pub first_event : ℤ → Bucket
first_event now = record { start = now; count = 1 }

-- `Allow` by what the limiter holds for the key.
allow_bucket : Limiter → ℤ → Text → Option Bucket → Limiter × Bool
unfolding sweep expired
allow_bucket l now key none =
    let room = if leb max_buckets (size l.buckets) then sweep l now else l in
    (put_bucket room key (first_event now), true)
allow_bucket l now key (some b) =
    if expired l now b
    then (put_bucket l key (first_event now), true)
    else if leb_ℤ l.limit (pos b.count)
    then (l, false)
    else (put_bucket l key (record b { count = b.count + 1 }), true)

unfoldable pub allow : Limiter → ℤ → Text → Limiter × Bool
unfolding allow_bucket
allow l now key = allow_bucket l now key (lookup key l.buckets)

-- The limit and the window never change.
pub allow-keeps :
    (l : Limiter) (now : ℤ) (key : Text)
    → ((allow l now key).0.limit ≡ l.limit) × ((allow l now key).0.window ≡ l.window)
unfolding allow sweep
allow-keeps l now key = elim (Option-cases (lookup key l.buckets)) [
  | inl missing ↦ ground arith
  | inr (b, held) ↦ ground arith
]

-- An event of another key leaves a bucket that has not expired as it is, also when it sweeps.
pub allow-others :
    (l : Limiter) (now : ℤ) (key other : Text) (b : Bucket)
    → lookup key l.buckets ≡ some b
    → expired l now b ≡ false
    → (other == key) ≡ false
    → lookup key (allow l now other).0.buckets ≡ some b
unfolding allow sweep
allow-others l now key other b held live ne = elim (Option-cases (lookup other l.buckets)) [
  | inl missing ↦ elim (Bool-cases (leb max_buckets (size l.buckets))) [
    | inl full ↦ rw (missing, full, lookup-insert, ne, lookup-retain, held, live) refl
    | inr room ↦ rw (missing, room, lookup-insert, ne) held
  ]
  | inr (c, there) ↦ rw there (
      ground (
        arith,
        lookup-insert key other (first_event now) l.buckets,
        lookup-insert key other (record c { count = c.count + 1 }) l.buckets,
      ))
]

-- An event of a key without a bucket, or with one that has expired, is allowed and starts a window.
pub allow-first :
    (l : Limiter) (now : ℤ) (key : Text)
    → ((b : Bucket) → lookup key l.buckets ≡ some b → expired l now b ≡ true)
    → ((allow l now key).1 ≡ true)
      × (lookup key (allow l now key).0.buckets ≡ some (first_event now))
unfolding allow
allow-first l now key stale = elim (Option-cases (lookup key l.buckets)) [
  | inl missing ↦ rw (missing, lookup-insert_self) (refl, refl)
  | inr (b, held) ↦ rw (held, stale b held, lookup-insert_self) (refl, refl)
]

-- In its window, an event is allowed while the count is below the limit, and counted when it is.
pub allow-next :
    (l : Limiter) (now : ℤ) (key : Text) (b : Bucket)
    → lookup key l.buckets ≡ some b
    → expired l now b ≡ false
    → ((allow l now key).1 ≡ ltb_ℤ (pos b.count) l.limit)
      × (lookup key (allow l now key).0.buckets
          ≡ some (if ltb_ℤ (pos b.count) l.limit then record b { count = b.count + 1 } else b))
unfolding allow
allow-next l now key b held live =
    rw (held, live)
      (ground (arith, lookup-insert_self key (record b { count = b.count + 1 }) l.buckets))
