-- ===== src/Geoip/Merge.antt =====
-- tools/geoipgen/main.go: `mergeV4` and `mergeV6`, and that merging rows moves no address to another
-- country.
use earful.Geoip.Table.{Row}
use earful.Prelude.{
  ◌≤◌, if◌then◌else◌, ℕ, ◌<◌, ◌≡◌, some, [], false, ◌||◌, Option, arith, eqb, leb, List, ◌∷◌, true,
  refl, sym, ◌∙◌, inl, none, All, inr, Bool-cases, ap, length,
}
use earful.Prelude.Dict.{found}

-- The loop of `mergeV4`, with the country of the last row kept.
merge_after : ℕ → List Row → List Row
merge_after last [] = []
merge_after last (r ∷ rs) = elim (eqb r.country last) [
  | true ↦ merge_after last rs
  | false ↦ r ∷ merge_after r.country rs
]

unfoldable pub merge_v4 : List Row → List Row
unfolding merge_after
merge_v4 rows = merge_after 65535 rows

-- The loop of `mergeV6` behind its first row, with the country and the prefix of the last row kept.
merge_prefixes : ℕ → ℕ → List Row → List Row
merge_prefixes last prefix [] = []
merge_prefixes last prefix (r ∷ rs) = elim (eqb r.country last || eqb r.start prefix) [
  | true ↦ merge_prefixes last prefix rs
  | false ↦ r ∷ merge_prefixes r.country r.start rs
]

unfoldable pub merge_v6 : List Row → List Row
unfolding merge_prefixes
merge_v6 [] = []
merge_v6 (r ∷ rs) = r ∷ merge_prefixes r.country r.start rs

-- The country of a key, row by row: that of the last row that starts at or below it.
unfoldable pub covering : Option ℕ → List Row → ℕ → Option ℕ
covering found [] key = found
covering found (r ∷ rs) key = covering (if leb r.start key then some r.country else found) rs key

-- Rows in the order of their starts, none below `low`.
abbrev pub IsSorted : ℕ → List Row → Type 0
IsSorted low [] = Unit
IsSorted low (r ∷ rs) = (low ≤ r.start) × IsSorted r.start rs

pub covering-below :
    (found : Option ℕ) (rs : List Row) (low key : ℕ)
    → IsSorted low rs
    → key < low
    → covering found rs key ≡ found
unfolding covering
covering-below found [] low key h lt = refl
covering-below found (r ∷ rs) low key h lt =
    ground (arith, covering-below found rs r.start key h.1 (omega (arith, h.0)))

IsSorted-weaken : (low low2 : ℕ) (rs : List Row) → low2 ≤ low → IsSorted low rs → IsSorted low2 rs
IsSorted-weaken low low2 [] le h = tt
IsSorted-weaken low low2 (r ∷ rs) le h = (omega (arith, h.0), h.1)

IsSorted-merge_after :
    (last low : ℕ) (rs : List Row) → IsSorted low rs → IsSorted low (merge_after last rs)
unfolding merge_after
IsSorted-merge_after last low [] h = tt
IsSorted-merge_after last low (r ∷ rs) h = elim (Bool-cases (eqb r.country last)) [
  | inl again ↦
      rw (IsSorted, merge_after, again)
        (IsSorted-weaken r.start low (merge_after last rs) h.0
          (IsSorted-merge_after last r.start rs h.1))
  | inr new ↦ rw (IsSorted, merge_after, new) (h.0, IsSorted-merge_after r.country r.start rs h.1)
]

-- Below every start of two lists of rows, neither says anything.
covering-after :
    (found : Option ℕ) (rs ss : List Row) (low key : ℕ)
    → IsSorted low rs
    → IsSorted low ss
    → key < low
    → covering found rs key ≡ covering found ss key
covering-after found rs ss low key h k lt =
    covering-below found rs low key h lt ∙ sym (covering-below found ss low key k lt)

-- A row in front of two lists that agree behind it.
covering-cons :
    (found : Option ℕ) (r : Row) (rs ss : List Row) (key : ℕ)
    → IsSorted r.start rs
    → IsSorted r.start ss
    → covering (some r.country) rs key ≡ covering (some r.country) ss key
    → covering found (r ∷ rs) key ≡ covering found (r ∷ ss) key
unfolding covering
covering-cons found r rs ss key h k same = elim (Bool-cases (leb r.start key)) [
  | inl from ↦ rw (from) same
  | inr before ↦ rw before (covering-after found rs ss r.start key h k (ground arith))
]

covering-merge_after :
    (last low key : ℕ) (rs : List Row)
    → IsSorted low rs
    → covering (some last) (merge_after last rs) key ≡ covering (some last) rs key
unfolding covering merge_after
covering-merge_after last low key [] h = refl
covering-merge_after last low key (r ∷ rs) h =
    let same = covering-merge_after last r.start key rs h.1 in
    elim (Bool-cases (eqb r.country last)) [
      | inl again ↦ rw (merge_after, again) (ground (arith, same))
      | inr new ↦
          rw (merge_after, new)
            (covering-cons (some last) r (merge_after r.country rs) rs key
              (IsSorted-merge_after r.country r.start rs h.1) h.1
              (covering-merge_after r.country r.start key rs h.1))
    ]

-- For rows in order whose countries are numbered below 65535, merging the rows of IPv4 leaves every
-- address with the country that it had: that of the last row that starts at or below it.
pub covering-merge_v4 :
    (rows : List Row) (key : ℕ)
    → IsSorted 0 rows
    → All (λ r. r.country < 65535) rows
    → covering none (merge_v4 rows) key ≡ covering none rows key
unfolding merge_v4
covering-merge_v4 [] key h few = refl
covering-merge_v4 (r ∷ rs) key h few =
    let new : eqb r.country 65535 ≡ false = ground (arith, few.0) in
    rw (merge_after, new)
      (covering-cons none r (merge_after r.country rs) rs key
        (IsSorted-merge_after r.country r.start rs h.1) h.1
        (covering-merge_after r.country r.start key rs h.1))

-- Rows in the order of their starts, no two of them the same, each above `low`.
abbrev pub IsStrict : ℕ → List Row → Type 0
IsStrict low [] = Unit
IsStrict low (r ∷ rs) = (low < r.start) × IsStrict r.start rs

IsStrict-IsSorted : (low : ℕ) (rs : List Row) → IsStrict low rs → IsSorted low rs
IsStrict-IsSorted low [] h = tt
IsStrict-IsSorted low (r ∷ rs) h = (omega (arith, h.0), IsStrict-IsSorted r.start rs h.1)

-- No prefix stands twice, so the loop drops a row for its country alone.
merge_prefixes-merge_after :
    (last prefix low : ℕ) (rs : List Row)
    → prefix ≤ low
    → IsStrict low rs
    → merge_prefixes last prefix rs ≡ merge_after last rs
unfolding merge_prefixes merge_after
merge_prefixes-merge_after last prefix low [] le h = refl
merge_prefixes-merge_after last prefix low (r ∷ rs) le h =
    let apart : eqb r.start prefix ≡ false = ground (arith, h.0) in
    elim (Bool-cases (eqb r.country last)) [
      | inl again ↦
          rw (merge_prefixes, merge_after, again)
            (merge_prefixes-merge_after last prefix r.start rs (omega (arith, h.0)) h.1)
      | inr new ↦
          rw (merge_prefixes, merge_after, new, apart)
            (ap (λ l. r ∷ l)
              (merge_prefixes-merge_after r.country r.start r.start rs (omega arith) h.1))
    ]

abbrev pub IsAscending : List Row → Type 0
IsAscending [] = Unit
IsAscending (r ∷ rs) = IsStrict r.start rs

-- For rows of IPv6 in order, no two with the same prefix, merging them leaves every prefix with the
-- country that it had.
pub covering-merge_v6 :
    (rows : List Row) (key : ℕ)
    → IsAscending rows
    → covering none (merge_v6 rows) key ≡ covering none rows key
unfolding merge_v6
covering-merge_v6 [] key h = refl
covering-merge_v6 (r ∷ rows) key h =
    let same = merge_prefixes-merge_after r.country r.start r.start rows (omega arith) h in
    let sorted = IsStrict-IsSorted r.start rows h in
    rw same (
      covering-cons none r (merge_after r.country rows) rows key
        (IsSorted-merge_after r.country r.start rows sorted) sorted
        (covering-merge_after r.country r.start key rows sorted))

-- Merging keeps the order and drops rows only.
pub IsSorted-merge_v4 : (rows : List Row) → IsSorted 0 rows → IsSorted 0 (merge_v4 rows)
unfolding merge_v4
IsSorted-merge_v4 rows h = IsSorted-merge_after 65535 0 rows h

pub IsSorted-merge_v6 : (rows : List Row) → IsAscending rows → IsSorted 0 (merge_v6 rows)
unfolding merge_v6
IsSorted-merge_v6 [] h = tt
IsSorted-merge_v6 (r ∷ rows) h =
    let same = merge_prefixes-merge_after r.country r.start r.start rows (omega arith) h in
    rw same
      (omega arith, IsSorted-merge_after r.country r.start rows (IsStrict-IsSorted r.start rows h))

All-merge_after :
    (P : Row → Type 0) (last : ℕ) (rs : List Row)
    → All P rs
    → All P (merge_after last rs) × (length (merge_after last rs) ≤ length rs)
unfolding merge_after
All-merge_after P last [] h = (tt, omega arith)
All-merge_after P last (r ∷ rs) h =
    let same = All-merge_after P last rs h.1 in
    let other = All-merge_after P r.country rs h.1 in
    elim (Bool-cases (eqb r.country last)) [
      | inl again ↦ rw (All, merge_after, again) (same.0, omega (arith, same.1))
      | inr new ↦ rw (All, merge_after, new) ((h.0, other.0), omega (arith, other.1))
    ]

pub All-merge_v4 :
    (P : Row → Type 0) (rows : List Row)
    → All P rows
    → All P (merge_v4 rows) × (length (merge_v4 rows) ≤ length rows)
unfolding merge_v4
All-merge_v4 P rows h = All-merge_after P 65535 rows h

pub All-merge_v6 :
    (P : Row → Type 0) (rows : List Row)
    → IsAscending rows
    → All P rows
    → All P (merge_v6 rows) × (length (merge_v6 rows) ≤ length rows)
unfolding merge_v6
All-merge_v6 P [] up h = (tt, omega arith)
All-merge_v6 P (r ∷ rows) up h =
    let same = merge_prefixes-merge_after r.country r.start r.start rows (omega arith) up in
    let rest = All-merge_after P r.country rows h.1 in
    rw same ((h.0, rest.0), omega (arith, rest.1))
