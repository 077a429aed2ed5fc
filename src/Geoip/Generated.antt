-- ===== src/Geoip/Generated.antt =====
-- internal/geoip and tools/geoipgen together: a lookup in the table that the generator wrote.
use earful.Geoip.Table.{Row, encode, table_of}
use earful.Geoip.Lookup.{
  Addr, key6, country, in_table, is_unroutable, Key, key_of, find_key, no_country, key4,
}
use earful.Prelude.{◌<◌, arith, ap, ◌≡◌, ◌∙◌, List, none, Option, if◌then◌else◌, All, ℕ, refl}
use earful.Geoip.Decode.{decode}
use earful.Geoip.RoundTrip.{decode-encode, RowFits, IsWritable}
use earful.Geoip.Covering.{known, find_country-covering}
use earful.Geoip.Merge.{
  IsSorted, covering, covering-merge_v4, All-merge_v6, All-merge_v4, IsSorted-merge_v4, merge_v4,
  IsAscending, merge_v6, covering-merge_v6, IsSorted-merge_v6,
}
use earful.Prelude.Text.{codes}

-- What the rows say of a key, read from the first to the last.
unfoldable pub covering_key : List Row → List Row → Key → Option ℕ
covering_key v4 v6 (key4 key) = covering none v4 key
covering_key v4 v6 (key6 key) = covering none v6 key

-- Rows as `run` has them before it merges them.
pub record IsCollected (codes : List (List ℕ)) (v4 v6 : List Row) : Type 0 where
  pub writable : IsWritable codes v4 v6
  pub v4_sorted : IsSorted 0 v4
  pub v4_countries : All (λ r. r.country < 65535) v4
  pub v6_ascending : IsAscending v6

IsWritable-merge :
    (codes : List (List ℕ)) (v4 v6 : List Row)
    → IsCollected codes v4 v6
    → IsWritable codes (merge_v4 v4) (merge_v6 v6)
IsWritable-merge codes v4 v6 h =
    let kept4 = All-merge_v4 (RowFits 4) v4 h.writable.v4_fit in
    let kept6 = All-merge_v6 (RowFits 8) v6 h.v6_ascending h.writable.v6_fit in
    record {
      two_bytes = h.writable.two_bytes;
      code_count = h.writable.code_count;
      v4_fit = kept4.0;
      v4_count = omega (arith, kept4.1, h.writable.v4_count);
      v6_fit = kept6.0;
      v6_count = omega (arith, kept6.1, h.writable.v6_count);
    }

find_key-covering_key :
    (codes : List (List ℕ)) (v4 v6 : List Row) (key : Key)
    → IsCollected codes v4 v6
    → find_key (table_of codes (merge_v4 v4) (merge_v6 v6)) key
      ≡ known codes (covering_key v4 v6 key)
unfolding find_key covering_key
find_key-covering_key codes v4 v6 (key4 key) h =
    find_country-covering codes (merge_v4 v4) key (IsSorted-merge_v4 v4 h.v4_sorted)
    ∙ ap (known codes) (covering-merge_v4 v4 key h.v4_sorted h.v4_countries)
find_key-covering_key codes v4 v6 (key6 key) h =
    find_country-covering codes (merge_v6 v6) key (IsSorted-merge_v6 v6 h.v6_ascending)
    ∙ ap (known codes) (covering-merge_v6 v6 key h.v6_ascending)

-- The country looked up in the table that the generator writes of sorted rows is, for every address,
-- that of the last of these rows that starts at or below it, and none for an address that is not
-- routed, in front of the first row or of an unknown country; no index is out of range. The rows of
-- IPv6 have distinct prefixes, the countries of IPv4 rows are numbered below 65535, and every code
-- and row fits its field.
pub country-covering :
    (codes : List (List ℕ)) (v4 v6 : List Row) (addr : Addr)
    → IsCollected codes v4 v6
    → country (decode (encode codes (merge_v4 v4) (merge_v6 v6))) addr
      ≡ (if is_unroutable addr then no_country else known codes (covering_key v4 v6 (key_of addr)))
unfolding country
country-covering codes v4 v6 addr h =
    let read = decode-encode codes (merge_v4 v4) (merge_v6 v6) (IsWritable-merge codes v4 v6 h) in
    rw (read, in_table, find_key-covering_key codes v4 v6 (key_of addr) h) refl
