-- ===== src/Geoip/Table.antt =====
-- tools/geoipgen/main.go: the rows of the country table, and the bytes that `run` writes of them.
use earful.Prelude.{List, ◌%◌, ◌^◌, ℕ, [], length, take, ◌++◌, ◌∷◌, map}
use earful.Prelude.Text.{codes}
use earful.Prelude.Bytes.{little}

-- `v4Range` and `v6Range`: the first address of a range, as its 32 bits or as the first 64 of its 128
-- bits, and the index of its country.
pub record Row : Type 0 where
  pub start : ℕ
  pub country : ℕ

-- The package's variables that `decode` fills.
pub record Table : Type 0 where
  pub countries : List (List ℕ)
  pub v4_starts : List ℕ
  pub v4_country : List ℕ
  pub v6_starts : List ℕ
  pub v6_country : List ℕ

abbrev pub starts : List Row → List ℕ
starts rows = map (λ r. r.start) rows

abbrev pub row_countries : List Row → List ℕ
row_countries rows = map (λ r. r.country) rows

-- The table that the rows make.
abbrev pub table_of : List (List ℕ) → List Row → List Row → Table
table_of codes v4 v6 = record {
  countries = codes;
  v4_starts = starts v4;
  v4_country = row_countries v4;
  v6_starts = starts v6;
  v6_country = row_countries v6;
}

abbrev pub table_header : List ℕ
table_header = codes "EARGEO1\n"

-- `buf = append(buf, code[0], code[1])`, for codes that `run` has found to be of two bytes.
unfoldable pub encode_codes : List (List ℕ) → List ℕ
encode_codes [] = []
encode_codes (c ∷ cs) = take 2 c ++ encode_codes cs

-- The rows, each with `w` bytes of its start.
unfoldable pub encode_rows : ℕ → List Row → List ℕ
encode_rows w [] = []
encode_rows w (r ∷ rs) = little w r.start ++ little 2 r.country ++ encode_rows w rs

-- The bytes of the table before they are compressed; each count is cut to its width.
unfoldable pub encode : List (List ℕ) → List Row → List Row → List ℕ
unfolding encode_codes encode_rows
encode codes v4 v6 =
    table_header
    ++ little 2 (length codes % 2 ^ 16)
    ++ encode_codes codes
    ++ little 4 (length v4 % 2 ^ 32)
    ++ encode_rows 4 v4
    ++ little 4 (length v6 % 2 ^ 32)
    ++ encode_rows 8 v6
