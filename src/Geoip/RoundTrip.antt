-- ===== src/Geoip/RoundTrip.antt =====
-- internal/geoip/geoip.go: `decode` reads the table that tools/geoipgen writes.
use mathlib.Core.List.{append_assoc, append-nil}
use earful.Prelude.{
  List, drop, drop-append_self, ap, ◌^◌, ◌<◌, ◌∷◌, ◌+◌, arith, ℕ, ltb, ◌∙◌, length, [], take_all,
  take-append_self, some, refl, sym, false, ◌++◌, length-append, take, All, ◌≡◌, ◌%◌, inr, nat_eq,
  list_eq, true, ◌==◌, eq_refl, bool_eq,
}
use earful.Geoip.Decode.{take_bytes, read_codes, read_rows, decode, read_table, or_truncated}
use earful.Geoip.Table.{
  Row, encode_codes, encode_rows, row_countries, starts, table_of, encode, table_header,
}
use earful.Prelude.Bytes.{length-little, read_little-little, little_bound, little, read_little}
use earful.Prelude.Text.{codes}

-- A row that the table's fields hold, with `w` bytes for the start.
abbrev pub RowFits : ℕ → Row → Type 0
RowFits w r = (r.start < little_bound w) × (r.country < little_bound 2)

-- What `run` writes the table of: codes of two bytes, as many of each thing as its count holds.
pub record IsWritable (codes : List (List ℕ)) (v4 v6 : List Row) : Type 0 where
  pub two_bytes : All (λ c. length c ≡ 2) codes
  pub code_count : length codes < 2 ^ 16
  pub v4_fit : All (RowFits 4) v4
  pub v4_count : length v4 < 2 ^ 32
  pub v6_fit : All (RowFits 8) v6
  pub v6_count : length v6 < 2 ^ 32

take_bytes-append :
    (n : ℕ) (xs ys : List ℕ) → length xs ≡ n → take_bytes n (xs ++ ys) ≡ some (xs, ys)
unfolding take_bytes
take_bytes-append n xs ys h =
    let enough : ltb (length (xs ++ ys)) n ≡ false = ground (arith, length-append xs ys) in
    rw (enough, ← h, take-append_self, drop-append_self) refl

read_codes-encode_codes :
    (cs : List (List ℕ)) (rest : List ℕ)
    → All (λ c. length c ≡ 2) cs
    → read_codes (length cs) (encode_codes cs ++ rest) ≡ some (cs, rest)
unfolding read_codes encode_codes
read_codes-encode_codes [] rest h = refl
read_codes-encode_codes (c ∷ cs) rest h =
    let whole : take 2 c ≡ c = take_all 2 c (omega (arith, h.0)) in
    rw
      (
        whole,
        append_assoc c (encode_codes cs) rest,
        take_bytes-append 2 c _ h.0,
        read_codes-encode_codes cs rest h.1,
      )
      refl

read_rows-encode_rows :
    (w : ℕ) (rs : List Row) (rest : List ℕ)
    → All (RowFits w) rs
    → read_rows w (length rs) (encode_rows w rs ++ rest)
      ≡ some ((starts rs, row_countries rs), rest)
unfolding read_rows encode_rows
read_rows-encode_rows w [] rest h = refl
read_rows-encode_rows w (r ∷ rs) rest h =
    let row = little w r.start ++ little 2 r.country in
    let size : length row ≡ w + 2 =
      length-append (little w r.start) (little 2 r.country)
      ∙ ap (λ k. k + 2) (length-little w r.start) in
    let joined : (little w r.start ++ little 2 r.country ++ encode_rows w rs) ++ rest
        ≡ row ++ (encode_rows w rs ++ rest) =
      simp append_assoc refl in
    let start : take w row ≡ little w r.start =
      ap (λ k. take k row) (sym (length-little w r.start))
      ∙ take-append_self (little w r.start) (little 2 r.country) in
    let country : drop w row ≡ little 2 r.country =
      ap (λ k. drop k row) (sym (length-little w r.start))
      ∙ drop-append_self (little w r.start) (little 2 r.country) in
    rw
      (
        joined,
        take_bytes-append (w + 2) row _ size,
        read_rows-encode_rows w rs rest h.1,
        start,
        country,
        read_little-little w r.start h.0.0,
        read_little-little 2 r.country h.0.1,
      )
      refl

-- Bytes that say a count in `w` bytes.
abbrev Says : ℕ → List ℕ → ℕ → Type 0
Says w head n = (length head ≡ w) × (read_little head ≡ n)

little-Says : (w n : ℕ) → n < little_bound w → Says w (little w n) n
little-Says w n h = (length-little w n, read_little-little w n h)

read_table-parts :
    (head head4 head6 : List ℕ) (codes : List (List ℕ)) (v4 v6 : List Row)
    → Says 2 head (length codes)
    → Says 4 head4 (length v4)
    → Says 4 head6 (length v6)
    → IsWritable codes v4 v6
    → read_table (
        head
        ++ (encode_codes codes
            ++ (head4 ++ (encode_rows 4 v4 ++ (head6 ++ (encode_rows 8 v6 ++ []))))))
      ≡ some (table_of codes v4 v6)
unfolding read_table
read_table-parts head head4 head6 codes v4 v6 n n4 n6 h =
    rw
      (
        take_bytes-append 2 head _ n.0,
        n.1,
        read_codes-encode_codes codes _ h.two_bytes,
        take_bytes-append 4 head4 _ n4.0,
        n4.1,
        read_rows-encode_rows 4 v4 _ h.v4_fit,
        take_bytes-append 4 head6 _ n6.0,
        n6.1,
        read_rows-encode_rows 8 v6 [] h.v6_fit,
      )
      refl

decode-table_header : (raw : List ℕ) → decode (table_header ++ raw) ≡ or_truncated (read_table raw)
unfolding decode
decode-table_header raw =
    let enough : ltb (length (table_header ++ raw)) (length table_header) ≡ false = ground arith in
    let named : (take (length table_header) (table_header ++ raw) == table_header) ≡ true =
      eq_refl table_header in
    rw (enough, named) refl

-- The table that the generator writes of codes of two bytes and of rows that its fields hold, fewer
-- than 2 ^ 16 codes and 2 ^ 32 rows of each family, is decoded as that table.
pub decode-encode :
    (codes : List (List ℕ)) (v4 v6 : List Row)
    → IsWritable codes v4 v6
    → decode (encode codes v4 v6) ≡ inr (table_of codes v4 v6)
unfolding encode
decode-encode codes v4 v6 h =
    let head = little 2 (length codes % 65536) in
    let head4 = little 4 (length v4 % 4294967296) in
    let head6 = little 4 (length v6 % 4294967296) in
    let n : length codes % 65536 ≡ length codes = omega (arith, h.code_count) in
    let n4 : length v4 % 4294967296 ≡ length v4 = omega (arith, h.v4_count) in
    let n6 : length v6 % 4294967296 ≡ length v6 = omega (arith, h.v6_count) in
    let says : Says 2 head (length codes) = rw n (little-Says 2 (length codes) h.code_count) in
    let says4 : Says 4 head4 (length v4) = rw n4 (little-Says 4 (length v4) h.v4_count) in
    let says6 : Says 4 head6 (length v6) = rw n6 (little-Says 4 (length v6) h.v6_count) in
    let body =
      head
      ++ (encode_codes codes
          ++ (head4 ++ (encode_rows 4 v4 ++ (head6 ++ (encode_rows 8 v6 ++ []))))) in
    let joined : encode codes v4 v6 ≡ table_header ++ body = simp (append_assoc, append-nil) refl in
    ap decode joined
    ∙ decode-table_header body
    ∙ ap or_truncated (read_table-parts head head4 head6 codes v4 v6 says says4 says6 h)
