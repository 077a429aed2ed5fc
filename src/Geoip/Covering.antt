-- ===== src/Geoip/Covering.antt =====
-- internal/geoip/geoip.go: the binary search of `Country` finds the range that covers an address.
use earful.Geoip.Table.{Row, starts, row_countries}
use earful.Prelude.{
  length, get_elem?, suc, ◌∷◌, ◌<◌, List, Option, ℕ, true, ◌≤◌, arith, zero, ◌≡◌, [], refl, leb,
  none, some, ◌∙◌, sym, ap,
}
use earful.Geoip.Lookup.{is_above, Found, find_country, before_first, coded, code, no_country}
use earful.Geoip.Merge.{IsSorted, covering, covering-below}
use earful.Prelude.Dict.{found}
use earful.Prelude.Search.{IsFirst, sort_search-IsFirst}
use earful.Prelude.Text.{codes}

-- The row in front of an index, and `found` in front of the first.
row_before : Option ℕ → List ℕ → ℕ → Option ℕ
row_before found cs zero = found
row_before found cs (suc i) = get_elem? cs i

above_later :
    (low : ℕ) (rs : List Row) (i j key : ℕ)
    → IsSorted low rs
    → i ≤ j
    → j < length (starts rs)
    → is_above key (get_elem? (starts rs) i) ≡ true
    → is_above key (get_elem? (starts rs) j) ≡ true
above_later low [] i j key h le lt above = absurd (omega arith)
above_later low (r ∷ rs) zero zero key h le lt above = above
above_later low (r ∷ rs) zero (suc j) key h le lt above =
    above_all r.start rs j key h.1 (omega arith) (ground arith)
  where
    above_all :
        (low : ℕ) (rs : List Row) (j key : ℕ)
        → IsSorted low rs
        → j < length (starts rs)
        → key < low
        → is_above key (get_elem? (starts rs) j) ≡ true
    above_all low [] j key h lt above = absurd (omega arith)
    above_all low (r ∷ rs) zero key h lt above = ground (arith, h.0)
    above_all low (r ∷ rs) (suc j) key h lt above =
        above_all r.start rs j key h.1 (omega arith) (omega (arith, h.0))
above_later low (r ∷ rs) (suc i) zero key h le lt above = absurd (omega arith)
above_later low (r ∷ rs) (suc i) (suc j) key h le lt above =
    above_later r.start rs i j key h.1 (omega arith) (omega arith) above

row_before_cons : (c : ℕ) (cs : List ℕ) (i : ℕ) → get_elem? (c ∷ cs) i ≡ row_before (some c) cs i
unfolding row_before
row_before_cons c cs zero = refl
row_before_cons c cs (suc i) = refl

-- The row in front of the first start above the key is the last one at or below it.
covering-row_before :
    (found : Option ℕ) (low : ℕ) (rs : List Row) (key first : ℕ)
    → IsSorted low rs
    → IsFirst (length (starts rs)) (λ i. is_above key (get_elem? (starts rs) i)) first
    → row_before found (row_countries rs) first ≡ covering found rs key
unfolding covering row_before
covering-row_before found low [] key zero h at = refl
covering-row_before found low [] key (suc i) h at = absurd (omega (arith, at.within))
covering-row_before found low (r ∷ rs) key zero h at =
    let above = at.after 0 (omega arith) (omega arith) in
    sym (covering-below found (r ∷ rs) r.start key (omega arith, h.1) (ground arith))
covering-row_before found low (r ∷ rs) key (suc i) h at =
    let below = at.before 0 (omega arith) in
    let from : leb r.start key ≡ true = ground arith in
    let rest : IsFirst (length (starts rs)) (λ k. is_above key (get_elem? (starts rs) k)) i =
      record {
        within = omega (arith, at.within);
        before = λ k lt. at.before (suc k) (omega arith);
        after = λ k ge lt. at.after (suc k) (omega arith) (omega arith);
      } in
    rw from (
      row_before_cons r.country (row_countries rs) i
      ∙ covering-row_before (some r.country) r.start rs key i h.1 rest)

-- What is known of a country's index.
unfoldable pub known : List (List ℕ) → Option ℕ → Found
known codes none = no_country
known codes (some index) = code codes index

before_first-known :
    (codes : List (List ℕ)) (rs : List Row) (first : ℕ)
    → first ≤ length rs
    → before_first codes (row_countries rs) first
      ≡ known codes (row_before none (row_countries rs) first)
unfolding before_first known row_before coded
before_first-known codes rs zero le = refl
before_first-known codes [] (suc i) le = absurd (omega arith)
before_first-known codes (r ∷ rs) (suc i) le = coded_there codes (r ∷ rs) i (omega arith)
  where
    coded_there :
        (codes : List (List ℕ)) (rs : List Row) (i : ℕ)
        → i < length rs
        → coded codes (get_elem? (row_countries rs) i)
          ≡ known codes (get_elem? (row_countries rs) i)
    coded_there codes [] i lt = absurd (omega arith)
    coded_there codes (r ∷ rs) zero lt = refl
    coded_there codes (r ∷ rs) (suc i) lt = coded_there codes rs i (omega arith)

length-starts : (rs : List Row) → length (starts rs) ≡ length rs
length-starts [] = refl
length-starts (r ∷ rs) = ap suc (length-starts rs)

-- Among rows in the order of their starts, the binary search comes to the country of the last row that
-- starts at or below the key, and to none in front of the first row; it reads no index out of range.
pub find_country-covering :
    (codes : List (List ℕ)) (rs : List Row) (key : ℕ)
    → IsSorted 0 rs
    → find_country codes (starts rs) (row_countries rs) key ≡ known codes (covering none rs key)
unfolding find_country
find_country-covering codes rs key h =
    let at =
      sort_search-IsFirst (length (starts rs)) (λ i. is_above key (get_elem? (starts rs) i))
        (λ i j le lt above. above_later 0 rs i j key h le lt above) in
    before_first-known codes rs _ (omega (arith, at.within, length-starts rs))
    ∙ ap (known codes) (covering-row_before none 0 rs key _ h at)
