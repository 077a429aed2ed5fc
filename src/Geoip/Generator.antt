-- ===== src/Geoip/Generator.antt =====
-- tools/geoipgen/main.go: the loop of `run` over the lines of the published ranges, and what it makes
-- of them. The file, the CSV and the compression around it are input and output.
use earful.Geoip.Table.{Row, encode}
use earful.Geoip.Lookup.{Addr, no_addr, ipv4, ipv6}
use earful.Prelude.{
  ◌%◌, ◌^◌, eqb, Option, ltb, ◌==◌, List, some, [], ◌++◌, ℕ, if◌then◌else◌, not, none, ◌∷◌, length,
  suc, nat_eq, list_eq, bool_eq, inl, ◌≡◌, Bool-cases, get_elem?, ap, zero, eq_iff, Option-cases,
  inr, ◌<◌, refl, arith, take, take-append_self, take_all,
}
use earful.Geoip.Merge.{merge_v6, merge_v4}
use earful.Domain.Style.Builders.{lines}
use earful.Geoip.Covering.{known}

-- A line: what netip.ParseAddr makes of its first field, none on an error, and its third field.
pub record Line : Type 0 where
  pub start : Option Addr
  pub code : List ℕ

-- The variables that the loop fills; the map `countries` is the list read backwards.
pub record Collected : Type 0 where
  pub country_list : List (List ℕ)
  pub v4 : List Row
  pub v6 : List Row

abbrev pub nothing_yet : Collected
nothing_yet = record { country_list = []; v4 = []; v6 = [] }

abbrev pub one_later : Option ℕ → Option ℕ
one_later none = none
one_later (some i) = some (suc i)

-- `countries[code]`
unfoldable pub place_of : List ℕ → List (List ℕ) → Option ℕ
place_of code [] = none
place_of code (c ∷ cs) = if c == code then some 0 else one_later (place_of code cs)

indexed : List ℕ → List (List ℕ) → Option ℕ → ℕ × List (List ℕ)
indexed code cs (some i) = (i % 2 ^ 16, cs)
indexed code cs none = (length cs % 2 ^ 16, cs ++ code ∷ [])

-- The closure `index`: the code's number, a new one behind the last where the code is new.
unfoldable pub index_code : List ℕ → List (List ℕ) → ℕ × List (List ℕ)
unfolding place_of indexed
index_code code cs = indexed code cs (place_of code cs)

add_row : Collected → Addr → ℕ × List (List ℕ) → Collected
add_row c no_addr (i, cs) = record c { country_list = cs }
add_row c (ipv4 a) (i, cs) = record c {
  country_list = cs;
  v4 = c.v4 ++ record { start = a; country = i } ∷ [];
}
add_row c (ipv6 hi lo zone) (i, cs) = record c {
  country_list = cs;
  v6 = c.v6 ++ record { start = hi; country = i } ∷ [];
}

collect_parsed : Collected → List ℕ → Option Addr → Collected
unfolding index_code add_row
collect_parsed c code none = c
collect_parsed c code (some addr) =
    if not (eqb (length code) 2) then c else add_row c addr (index_code code c.country_list)

-- The body of the loop: a line without an address, or whose code has not two bytes, is passed over.
unfoldable pub collect_line : Collected → Line → Collected
unfolding collect_parsed
collect_line c l = collect_parsed c l.code l.start

unfoldable pub collect : Collected → List Line → Collected
unfolding collect_line
collect c [] = c
collect c (l ∷ ls) = collect (collect_line c l) ls

-- `run` from the lines to the bytes, where `sort` is `sort.Slice` by the starts; none is the error of
-- too many codes.
unfoldable pub generate : (List Row → List Row) → List Line → Option (List ℕ)
unfolding collect encode merge_v4 merge_v6
generate sort lines =
    let c = collect nothing_yet lines in
    let v4 = merge_v4 (sort c.v4) in
    let v6 = merge_v6 (sort c.v6) in
    if ltb (2 ^ 16) (length c.country_list) then none else some (encode c.country_list v4 v6)

-- The number that `index` gives a code is found in the list that it leaves.
place_of-get_elem? :
    (code : List ℕ) (cs : List (List ℕ)) (i : ℕ)
    → place_of code cs ≡ some i
    → get_elem? cs i ≡ some code
unfolding place_of
place_of-get_elem? code [] i h = cc
place_of-get_elem? code (c ∷ cs) i h = elim (Bool-cases (c == code)) [
  | inl same ↦ (let e : i ≡ 0 = ground arith in rw e (ap some ((eq_iff c code).0 same)))
  | inr other ↦ elim (Option-cases (place_of code cs)) [
    | inl e ↦ absurd (ground arith)
    | inr (j, e) ↦ (let k : i ≡ suc j = ground arith in rw k (place_of-get_elem? code cs j e))
  ]
]

get_elem?-lt : (cs : List (List ℕ)) (i : ℕ) (x : List ℕ) → get_elem? cs i ≡ some x → i < length cs
get_elem?-lt [] i x h = cc
get_elem?-lt (c ∷ cs) zero x h = omega arith
get_elem?-lt (c ∷ cs) (suc i) x h = omega (arith, get_elem?-lt cs i x h)

get_elem?-last : (cs : List (List ℕ)) (x : List ℕ) → get_elem? (cs ++ x ∷ []) (length cs) ≡ some x
get_elem?-last [] x = refl
get_elem?-last (c ∷ cs) x = get_elem?-last cs x

-- While there are fewer than 2 ^ 16 codes, from the first on, the number given to a code names that
-- code in the list that is left, and the codes that were in the list stand where they stood.
pub index_code-get_elem? :
    (code : List ℕ) (cs : List (List ℕ))
    → length cs < 2 ^ 16
    → let r = index_code code cs in (get_elem? r.1 r.0 ≡ some code) × (take (length cs) r.1 ≡ cs)
unfolding index_code
index_code-get_elem? code cs few = elim (Option-cases (place_of code cs)) [
  | inl new ↦
      (let n : length cs % 65536 ≡ length cs = omega arith in
        rw (new, n) (get_elem?-last cs code, take-append_self cs (code ∷ [])))
  | inr (i, known) ↦
      (let there = place_of-get_elem? code cs i known in
        let inside = get_elem?-lt cs i code there in
        let n : i % 65536 ≡ i = omega arith in
        rw (known, n) (there, take_all (length cs) cs (omega arith)))
]
