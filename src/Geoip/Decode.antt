-- ===== src/Geoip/Decode.antt =====
-- internal/geoip/geoip.go: `decode`, and that it reads what tools/geoipgen writes.
use earful.Prelude.Fallible.{◌>>=◌}
use earful.Prelude.{
  List, if◌then◌else◌, zero, inr, suc, inl, not, [], length, ◌∷◌, ◌⊎◌, ◌+◌, ◌==◌, ◌||◌, take, some,
  Option, none, drop, ℕ, ltb, nat_eq, list_eq, bool_eq,
}
use earful.Geoip.Table.{Table, table_header}
use earful.Prelude.Text.{codes}
use earful.Prelude.Bytes.{read_little}

pub data TableError : Type 0 where
  not_a_table : TableError
  truncated : TableError

-- `take`, where `raw` is what stands from `pos` on: the next bytes and what follows them.
unfoldable pub take_bytes : ℕ → List ℕ → Option (List ℕ × List ℕ)
take_bytes n raw = if ltb (length raw) n then none else some (take n raw, drop n raw)

unfoldable pub read_codes : ℕ → List ℕ → Option (List (List ℕ) × List ℕ)
read_codes zero raw = some ([], raw)
read_codes (suc n) raw = do
  (code, after) ← take_bytes 2 raw
  (codes, rest) ← read_codes n after
  some (code ∷ codes, rest)

-- The rows of one family, whose starts have `w` bytes.
unfoldable pub read_rows : ℕ → ℕ → List ℕ → Option ((List ℕ × List ℕ) × List ℕ)
read_rows w zero raw = some (([], []), raw)
read_rows w (suc n) raw = do
  (row, after) ← take_bytes (w + 2) raw
  ((starts, countries), rest) ← read_rows w n after
  some ((read_little (take w row) ∷ starts, read_little (drop w row) ∷ countries), rest)

-- `decode` behind the header.
unfoldable pub read_table : List ℕ → Option Table
unfolding read_codes read_rows take_bytes
read_table raw = do
  (head, raw1) ← take_bytes 2 raw
  (codes, raw2) ← read_codes (read_little head) raw1
  (head4, raw3) ← take_bytes 4 raw2
  ((v4_starts, v4_country), raw4) ← read_rows 4 (read_little head4) raw3
  (head6, raw5) ← take_bytes 4 raw4
  ((v6_starts, v6_country), raw6) ← read_rows 8 (read_little head6) raw5
  some record {
    countries = codes;
    v4_starts = v4_starts;
    v4_country = v4_country;
    v6_starts = v6_starts;
    v6_country = v6_country;
  }

abbrev pub or_truncated : Option Table → TableError ⊎ Table
or_truncated none = inl truncated
or_truncated (some t) = inr t

unfoldable pub decode : List ℕ → TableError ⊎ Table
unfolding read_table
decode raw =
    if ltb (length raw) (length table_header)
      || not (take (length table_header) raw == table_header)
    then inl not_a_table
    else or_truncated (read_table (drop (length table_header) raw))
