-- ===== src/Antibot/Seen.antt =====
-- internal/antibot/seen.go: the set with expiry that single-use guarantees stand on.
use Prim.Native.Nat.{ℕ}
use earful.Prelude.{
  Option-cases, Bool-cases, none, [], All, arith, leb, eq_iff, if◌then◌else◌, ◌==◌, ◌+◌, ◌∷◌, Bool,
  true, some, List, ◌≡◌, inr, ◌&&◌, refl, eq_refl, inl, Option, false, nat_eq, list_eq, bool_eq,
}
use earful.Prelude.Dict.{
  lookup-retain, lookup, lookup-insert, insert, retain, empty, Dict, lookup-insert_self, size,
}
use earful.Prelude.Text.{Text}
use earful.Prelude.Int.{ℤ, ◌+ℤ◌, ltb_ℤ, int_eq, int_eq, int_eq}
use earful.Antibot.Limiter.{max_buckets}

pub record Seen : Type 0 where
  pub ttl : ℤ
  pub entries : Dict ℤ

unfoldable pub new_seen : ℤ → Seen
new_seen ttl = record { ttl = ttl; entries = empty }

abbrev pub record_use : Seen → ℤ → Text → Seen
unfolding ◌+ℤ◌
record_use s now key =
    let kept =
      if leb max_buckets (size s.entries)
      then retain (λ expiry. ltb_ℤ now expiry) s.entries
      else s.entries in
    record s { entries = insert key (now +ℤ s.ttl) kept }

first_use_found : Seen → ℤ → Text → Option ℤ → Seen × Bool
first_use_found s now key none = (record_use s now key, true)
first_use_found s now key (some expiry) =
    if ltb_ℤ now expiry then (s, false) else (record_use s now key, true)

unfoldable pub first_use : Seen → ℤ → Text → Seen × Bool
unfolding first_use_found
first_use s now key = first_use_found s now key (lookup key s.entries)

-- The uses of the key that are first ones, of uses of any keys, one after the other.
unfoldable pub first_uses : Seen → Text → List (ℤ × Text) → ℕ
first_uses s key [] = 0
first_uses s key ((now, other) ∷ es) =
    let r = first_use s now other in
    (if (other == key) && r.1 then 1 else 0) + first_uses r.0 key es

record_use_lem :
    (s : Seen) (now : ℤ) (key : Text)
    → lookup key (record_use s now key).entries ≡ some (now +ℤ s.ttl)
unfolding record_use
record_use_lem s now key = rw lookup-insert_self refl

record_use-others :
    (s : Seen) (now : ℤ) (key other : Text) (expiry : ℤ)
    → lookup key s.entries ≡ some expiry
    → ltb_ℤ now expiry ≡ true
    → (other == key) ≡ false
    → lookup key (record_use s now other).entries ≡ some expiry
unfolding record_use
record_use-others s now key other expiry held live ne =
    elim (Bool-cases (leb max_buckets (size s.entries))) [
      | inl full ↦ rw (full, lookup-insert, ne, lookup-retain, held, live) refl
      | inr room ↦ rw (room, lookup-insert, ne) held
    ]

first_use-others :
    (s : Seen) (now : ℤ) (key other : Text) (expiry : ℤ)
    → lookup key s.entries ≡ some expiry
    → ltb_ℤ now expiry ≡ true
    → (other == key) ≡ false
    → lookup key (first_use s now other).0.entries ≡ some expiry
unfolding first_use
first_use-others s now key other expiry held live ne =
    elim (Option-cases (lookup other s.entries)) [
      | inl missing ↦ rw missing (record_use-others s now key other expiry held live ne)
      | inr (e, there) ↦
          rw there (ground (arith, record_use-others s now key other expiry held live ne))
    ]

refused_while_held :
    (s : Seen) (now : ℤ) (key : Text) (expiry : ℤ)
    → lookup key s.entries ≡ some expiry
    → ltb_ℤ now expiry ≡ true
    → first_use s now key ≡ (s, false)
unfolding first_use
refused_while_held s now key expiry held live = rw held (ground arith)

first_use_opens :
    (s : Seen) (now : ℤ) (key : Text)
    → ((expiry : ℤ) → lookup key s.entries ≡ some expiry → ltb_ℤ now expiry ≡ false)
    → ((first_use s now key).1 ≡ true)
      × (lookup key (first_use s now key).0.entries ≡ some (now +ℤ s.ttl))
unfolding first_use
first_use_opens s now key stale = elim (Option-cases (lookup key s.entries)) [
  | inl missing ↦ rw missing (refl, record_use_lem s now key)
  | inr (expiry, held) ↦ rw held (ground (arith, stale expiry held, record_use_lem s now key))
]

-- While the entry of a key holds, no use of the key is a first one.
none_while_held :
    (s : Seen) (key : Text) (expiry : ℤ) (es : List (ℤ × Text))
    → lookup key s.entries ≡ some expiry
    → All (λ e. ltb_ℤ e.0 expiry ≡ true) es
    → first_uses s key es ≡ 0
unfolding first_uses
none_while_held s key expiry [] held before = refl
none_while_held s key expiry ((now, other) ∷ es) held before = elim (Bool-cases (other == key)) [
  | inl own ↦
      (let same : other ≡ key = (eq_iff other key).0 own in
        let refused : first_use s now key ≡ (s, false) =
          refused_while_held s now key expiry held before.0 in
        let rest = none_while_held s key expiry es held before.1 in
        rw (same, eq_refl key, refused, rest) (omega arith))
  | inr foreign ↦
      (let rest =
          none_while_held (first_use s now other).0 key expiry es
            (first_use-others s now key other expiry held before.0 foreign) before.1 in
        rw (foreign, rest) (omega arith))
]

-- A use of a key that has no entry, or one that has expired, is a first use, and the only one among
-- the uses of any keys that follow before it expires.
pub first_use_once :
    (s : Seen) (now : ℤ) (key : Text) (es : List (ℤ × Text))
    → ((expiry : ℤ) → lookup key s.entries ≡ some expiry → ltb_ℤ now expiry ≡ false)
    → All (λ e. ltb_ℤ e.0 (now +ℤ s.ttl) ≡ true) es
    → first_uses s key ((now, key) ∷ es) ≡ 1
unfolding first_uses
first_use_once s now key es stale before =
    let opened = first_use_opens s now key stale in
    let rest = none_while_held (first_use s now key).0 key (now +ℤ s.ttl) es opened.1 before in
    rw (eq_refl key, opened.0, rest) (omega arith)
