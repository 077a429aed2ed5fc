-- ===== src/Tests/Tables.antt =====
-- The country table and what the log leaves out, at concrete inputs.
use earful.Prelude.{
  nat_eq, list_eq, some, ◌++◌, map, All, inr, ℕ, get_elem?, if◌then◌else◌, arith, ◌≡◌, true, none,
  refl, List, ◌∷◌, [], take,
}
use earful.Tests.Data.{ascii}
use earful.Geoip.Table.{Row, encode, row_countries, starts, table_of}
use earful.Logging.Attrs.{
  no_attrs, leaves, LogRecord, leaves-handle, value_of, attr, handle, redact, group_of,
  is_sensitive_key,
}
use earful.Geoip.Decode.{decode}
use earful.Geoip.Generated.{covering_key, country-covering, IsCollected}
use earful.Geoip.Lookup.{
  is_unroutable, find_country, country_code, no_country, country, key_of, ipv4,
}
use earful.Geoip.RoundTrip.{IsWritable, decode-encode}
use earful.Geoip.Covering.{known, find_country-covering}
use earful.Geoip.Merge.{merge_v6, covering, IsSorted, merge_v4}
use earful.Geoip.Generator.{index_code, index_code-get_elem?}
use earful.Prelude.Text.{codes, Text}
use earful.Logging.Path.{segments_of, IsSegment, absolute, invitation}
use earful.Logging.Url.{scrub_url, scrub_url-IsAlike, IsAlike}

abbrev two_codes : List (List ℕ)
two_codes = codes "NL" ∷ codes "DE" ∷ []

abbrev v4_rows : List Row
v4_rows =
    record { start = 16777216; country = 0 }
    ∷ record { start = 33554432; country = 1 }
    ∷ record { start = 50331648; country = 1 }
    ∷ []

abbrev v6_rows : List Row
v6_rows = record { start = 2306124484190404608; country = 0 } ∷ []

rows-IsWritable : IsWritable two_codes v4_rows v6_rows
rows-IsWritable = record {
  two_bytes = (refl, (refl, tt));
  code_count = omega arith;
  v4_fit =
      ((omega arith, omega arith), ((omega arith, omega arith), ((omega arith, omega arith), tt)));
  v4_count = omega arith;
  v6_fit = ((omega arith, omega arith), tt);
  v6_count = omega arith;
}

rows-IsSorted : IsSorted 0 v4_rows
rows-IsSorted = (omega arith, (omega arith, (omega arith, tt)))

rows-IsCollected : IsCollected two_codes v4_rows v6_rows
rows-IsCollected = record {
  writable = rows-IsWritable;
  v4_sorted = rows-IsSorted;
  v4_countries = (omega arith, (omega arith, (omega arith, tt)));
  v6_ascending = tt;
}

country-covering_example :
    country (decode (encode two_codes (merge_v4 v4_rows) (merge_v6 v6_rows))) (ipv4 50331650) ≡ (
      if is_unroutable (ipv4 50331650)
      then no_country
      else known two_codes (covering_key v4_rows v6_rows (key_of (ipv4 50331650))))
country-covering_example =
    country-covering two_codes v4_rows v6_rows (ipv4 50331650) rows-IsCollected

decode-encode_example :
    decode (encode two_codes v4_rows v6_rows) ≡ inr (table_of two_codes v4_rows v6_rows)
decode-encode_example = decode-encode two_codes v4_rows v6_rows rows-IsWritable

find_country-covering_example :
    find_country two_codes (starts v4_rows) (row_countries v4_rows) 40000000
    ≡ known two_codes (covering none v4_rows 40000000)
find_country-covering_example = find_country-covering two_codes v4_rows 40000000 rows-IsSorted

-- The search runs, and finds the second of the two codes.
german_address :
    find_country two_codes (starts v4_rows) (row_countries v4_rows) 40000000
    ≡ country_code (codes "DE")
unfolding find_country earful.Geoip.Lookup.code earful.Prelude.list_beq
    earful.Prelude.Search.sort_search
german_address = refl

index_code-get_elem?_example :
    let r = index_code (codes "FR") two_codes in
    (get_elem? r.1 r.0 ≡ some (codes "FR")) × (take 2 r.1 ≡ two_codes)
index_code-get_elem?_example = index_code-get_elem? (codes "FR") two_codes (omega arith)

abbrev signup_record : LogRecord
signup_record = record {
  text = codes "signup";
  attrs =
      attr
        (group_of (codes "user")
          (attr (value_of (codes "user_email") (codes "ada@example.com")) no_attrs))
        (attr (value_of (codes "status") (codes "200")) no_attrs);
}

leaves-handle_example :
    ((handle signup_record).text ≡ signup_record.text)
    × (leaves [] (handle signup_record).attrs ≡ map redact (leaves [] signup_record.attrs))
leaves-handle_example = leaves-handle signup_record

abbrev first_secret : Text
first_secret = codes "k3y"

abbrev second_secret : Text
second_secret = codes "other"

abbrev voice_page : List Text
voice_page = codes "voice" ∷ []

secrets_segments : All IsSegment (first_secret ∷ second_secret ∷ voice_page)
secrets_segments = ground arith

abbrev first_query : List (Text × List Text)
first_query = (codes "token", codes "abc" ∷ []) ∷ []

abbrev second_query : List (Text × List Text)
second_query = (codes "token", codes "xyz" ∷ []) ∷ []

queries-IsAlike : IsAlike first_query second_query
unfolding is_sensitive_key earful.Prelude.Text.contains_text
queries-IsAlike = ((refl, refl, λ shown. absurd (ground arith)), tt)

scrub_url-IsAlike_example :
    scrub_url (
      some record {
        path = absolute (segments_of invitation ++ first_secret ∷ voice_page);
        raw_path = [];
        query = first_query;
        other = [];
      })
    ≡ scrub_url (
        some record {
          path = absolute (segments_of invitation ++ second_secret ∷ voice_page);
          raw_path = [];
          query = second_query;
          other = [];
        })
unfolding earful.Prelude.list_beq
scrub_url-IsAlike_example =
    scrub_url-IsAlike invitation first_secret second_secret voice_page [] [] [] first_query
      second_query secrets_segments refl refl queries-IsAlike
