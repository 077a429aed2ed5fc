-- ===== src/Voice/Budget.antt =====
-- internal/voice/voice.go: `Budget`, the seconds of transcription that a session has spent. Every
-- operation takes the instant that it reads from the clock, in nanoseconds.
use Prim.Native.Nat.{ℕ}
use earful.Prelude.{
  Option, not, if◌then◌else◌, Bool, some, none, leb, eq_iff, false, inl, ◌<◌, ◌==◌, ◌+◌, inr,
  Bool-cases, suc, ◌-◌, true, arith, ◌≢◌, ◌≡◌, refl, ◌≤◌, nat_eq, list_eq, bool_eq, ◌∙◌, ap,
}
use earful.Prelude.Dict.{
  insert, lookup, Dict, size, retain, lookup-insert, lookup-retain, passing, lookup-insert_self,
}
use earful.Prelude.Text.{Text}
use earful.Prelude.Int.{
  leb_ℤ, ℤ, ◌+ℤ◌, wrap64, ltb_ℤ, pos, ◌-ℤ◌, time_sub, pos_part, time_sub_mono, ◌≤ℤ◌, int_eq, int_eq,
  int_eq, int_eq,
}

pub record BudgetEntry : Type 0 where
  pub spent : ℤ
  pub touched : ℤ

pub record Budget : Type 0 where
  pub cap_seconds : ℤ
  pub ttl : ℤ
  pub entries : Dict BudgetEntry

abbrev pub max_budget_entries : ℕ
max_budget_entries = 50000

-- math.MaxInt32
abbrev pub uncapped : ℤ
uncapped = pos 2147483647

-- `now.Sub(entry.touched) > b.ttl`
unfoldable pub lapsed : Budget → ℤ → BudgetEntry → Bool
lapsed b now e = ltb_ℤ b.ttl (time_sub now e.touched)

-- What a session has spent, as far as the budget still knows.
unfoldable pub spent_so_far : Budget → ℤ → Option BudgetEntry → ℤ
unfolding lapsed
spent_so_far b now none = pos 0
spent_so_far b now (some e) = if lapsed b now e then pos 0 else e.spent

remaining_found : Budget → ℤ → Option BudgetEntry → ℤ
unfolding lapsed ◌-ℤ◌ wrap64
remaining_found b now none = b.cap_seconds
remaining_found b now (some e) =
    if lapsed b now e
    then b.cap_seconds
    else if leb_ℤ b.cap_seconds e.spent
    then pos 0
    else wrap64 (b.cap_seconds -ℤ e.spent)

unfoldable pub remaining : Budget → ℤ → Text → ℤ
unfolding remaining_found
remaining b now key =
    if leb_ℤ b.cap_seconds (pos 0) then uncapped else remaining_found b now (lookup key b.entries)

unfoldable pub sweep_budget : Budget → ℤ → Budget
sweep_budget b now = record b { entries = retain (λ e. not (lapsed b now e)) b.entries }

unfoldable pub spend : Budget → ℤ → Text → ℤ → Budget
unfolding sweep_budget spent_so_far ◌+ℤ◌ wrap64
spend b now key s =
    let total = wrap64 (spent_so_far b now (lookup key b.entries) +ℤ s) in
    let room = if leb max_budget_entries (size b.entries) then sweep_budget b now else b in
    record room { entries = insert key (record { spent = total; touched = now }) room.entries }

lapsed_stays :
    (b : Budget) (now later : ℤ) (e : BudgetEntry)
    → now ≤ℤ later
    → lapsed b now e ≡ true
    → lapsed b later e ≡ true
unfolding lapsed
lapsed_stays b now later e after h = ground (arith, time_sub_mono now later e.touched after)

-- Sweeping forgets nothing that a later reading depends on.
remaining_found-passing :
    (b : Budget) (now later : ℤ) (held : Option BudgetEntry)
    → now ≤ℤ later
    → remaining_found b later (passing (λ e. not (lapsed b now e)) held)
      ≡ remaining_found b later held
unfolding remaining_found
remaining_found-passing b now later none after = refl
remaining_found-passing b now later (some e) after =
    ground (arith, lapsed_stays b now later e after)

-- What one session spends takes nothing from another, at that instant or later, whether or not the
-- budget sweeps its entries.
pub spend-others :
    (b : Budget) (now later : ℤ) (key other : Text) (s : ℤ)
    → now ≤ℤ later
    → key ≢ other
    → remaining (spend b now key s) later other ≡ remaining b later other
unfolding spend remaining
spend-others b now later key other s after ne =
    let differ : (key == other) ≡ false = ground (arith, eq_iff key other) in
    elim (Bool-cases (leb max_budget_entries (size b.entries))) [
      | inl full ↦
          rw (full, lookup-insert, differ, lookup-retain)
            (ground (arith, remaining_found-passing b now later (lookup other b.entries) after))
      | inr room ↦ rw (room, lookup-insert, differ) refl
    ]

-- The entry that a session has once it has spent.
spend-entry :
    (b : Budget) (now : ℤ) (key : Text) (s : ℤ)
    → (lookup key (spend b now key s).entries
        ≡ some (record {
          spent = wrap64 (spent_so_far b now (lookup key b.entries) +ℤ s);
          touched = now;
        }))
      × ((spend b now key s).cap_seconds ≡ b.cap_seconds)
      × ((spend b now key s).ttl ≡ b.ttl)
unfolding spend
spend-entry b now key s = elim (Bool-cases (leb max_budget_entries (size b.entries))) [
  | inl full ↦ rw (full, lookup-insert_self) (refl, refl, refl)
  | inr room ↦ rw (room, lookup-insert_self) (refl, refl, refl)
]

remaining_found-entry :
    (b : Budget) (later : ℤ) (c q : ℕ) (at : ℤ)
    → b.cap_seconds ≡ pos c
    → c ≤ 9223372036854775807
    → time_sub later at ≤ℤ b.ttl
    → remaining_found b later (some (record { spent = pos q; touched = at })) ≡ pos (c - q)
unfolding remaining_found
remaining_found-entry b later c q at capped small fresh = rw capped (ground arith)

remaining_found-spent :
    (b : Budget) (now : ℤ) (held : Option BudgetEntry) (c p : ℕ)
    → b.cap_seconds ≡ pos c
    → c ≤ 9223372036854775807
    → spent_so_far b now held ≡ pos p
    → remaining_found b now held ≡ pos (c - p)
unfolding remaining_found spent_so_far
remaining_found-spent b now none c p capped small before = ground arith
remaining_found-spent b now (some e) c p capped small before = rw capped (ground arith)

wrap64-pos : (p n : ℕ) → p + n ≤ 9223372036854775807 → wrap64 (pos p +ℤ pos n) ≡ pos (p + n)
unfolding wrap64 ◌+ℤ◌
wrap64-pos p n h = ground arith

remaining_capped :
    (b : Budget) (now : ℤ) (key : Text) (c : ℕ)
    → b.cap_seconds ≡ pos (suc c)
    → remaining b now key ≡ remaining_found b now (lookup key b.entries)
unfolding remaining
remaining_capped b now key c capped = ground arith

-- The seconds that a session spends come off those that it had left, down to none, until its entry
-- lapses: with a cap, and with seconds spent before that are not negative and do not pass int64 with
-- the new ones.
pub spend-remaining :
    (b : Budget) (now later : ℤ) (key : Text) (c p n : ℕ)
    → b.cap_seconds ≡ pos (suc c)
    → c < 9223372036854775807
    → spent_so_far b now (lookup key b.entries) ≡ pos p
    → p + n ≤ 9223372036854775807
    → time_sub later now ≤ℤ b.ttl
    → remaining (spend b now key (pos n)) later key ≡ pos (pos_part (remaining b now key) - n)
spend-remaining b now later key c p n capped small before room fresh =
    let whole : wrap64 (pos p +ℤ pos n) ≡ pos (p + n) = wrap64-pos p n room in
    let after = spend-entry b now key (pos n) in
    let b2 = spend b now key (pos n) in
    let left =
      remaining_found-entry b2 later (suc c) (p + n) now ((after.1) ∙ capped) (omega arith)
        (rw after.2 fresh) in
    rw
      (
        remaining_capped b2 later key c ((after.1) ∙ capped),
        remaining_capped b now key c capped,
        after.0,
        before,
        whole,
        left,
        remaining_found-spent b now (lookup key b.entries) (suc c) p capped (omega arith) before,
      )
      (ap pos (omega arith))
