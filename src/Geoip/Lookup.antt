-- ===== src/Geoip/Lookup.antt =====
-- internal/geoip/geoip.go: `Country`, which finds the range of an address by binary search, and `code`.
use earful.Geoip.Table.{Table, starts}
use earful.Prelude.{
  ◌%◌, suc, ◌⊎◌, none, Bool, some, length, inr, false, ◌==◌, List, ◌^◌, is_nil, zero, ◌&&◌, inl,
  ltb, ℕ, ◌||◌, not, eqb, if◌then◌else◌, ◌/◌, Option, get_elem?, true, nat_eq, list_eq, bool_eq,
}
use earful.Geoip.Decode.{TableError}
use earful.Prelude.Search.{sort_search}
use earful.Prelude.Text.{Text, codes}

-- `netip.Addr`: no address, the 32 bits of an IPv4 address, or the upper and the lower 64 bits of an
-- IPv6 address with its zone.
pub data Addr : Type 0 where
  no_addr : Addr
  ipv4 : ℕ → Addr
  ipv6 : ℕ → ℕ → Text → Addr

-- The upper bits of ::ffff:0:0/96, behind which an IPv6 address carries an IPv4 address.
abbrev is_4_in_6 : ℕ → ℕ → Bool
is_4_in_6 hi lo = eqb hi 0 && eqb (lo / 4294967296) 0xffff

-- The ranges that the methods of netip.Addr document.
abbrev is_loopback_v4 : ℕ → Bool
is_loopback_v4 a = eqb (a / 2 ^ 24) 127

abbrev is_private_v4 : ℕ → Bool
is_private_v4 a = eqb (a / 2 ^ 24) 10 || eqb (a / 2 ^ 20) 0xac1 || eqb (a / 2 ^ 16) 0xc0a8

abbrev is_link_local_v4 : ℕ → Bool
is_link_local_v4 a = eqb (a / 2 ^ 16) 0xa9fe

abbrev unspecified_v6 : ℕ → ℕ → Text → Bool
unspecified_v6 hi lo zone = eqb hi 0 && eqb lo 0 && is_nil zone

-- An address that is of no country: `!addr.IsValid() || addr.IsLoopback() || ...`.
unfoldable pub is_unroutable : Addr → Bool
is_unroutable no_addr = true
is_unroutable (ipv4 a) = is_loopback_v4 a || is_private_v4 a || is_link_local_v4 a || eqb a 0
is_unroutable (ipv6 hi lo zone) =
    let a = lo % 4294967296 in
    if is_4_in_6 hi lo
    then is_loopback_v4 a || is_private_v4 a || is_link_local_v4 a
    else (eqb hi 0 && eqb lo 1)
      || eqb (hi / 2 ^ 57) 0x7e
      || eqb (hi / 2 ^ 54) 0x3fa
      || unspecified_v6 hi lo zone

-- The number of the family's rows by which an address is looked up.
pub data Key : Type 0 where
  key4 : ℕ → Key
  key6 : ℕ → Key

unfoldable pub key_of : Addr → Key
key_of no_addr = key6 0
key_of (ipv4 a) = key4 a
key_of (ipv6 hi lo zone) = if is_4_in_6 hi lo then key4 (lo % 4294967296) else key6 hi

-- `starts[i] > key`, at an index of the slice.
abbrev pub is_above : ℕ → Option ℕ → Bool
is_above key none = false
is_above key (some start) = ltb key start

-- What a lookup comes to: no country, a country, or an index out of range, on which Go panics.
pub data Found : Type 0 where
  no_country : Found
  country_code : List ℕ → Found
  panics : Found

code_at : Option (List ℕ) → Found
code_at none = no_country
code_at (some c) = if c == codes "ZZ" || is_nil c then no_country else country_code c

-- `code`
unfoldable pub code : List (List ℕ) → ℕ → Found
unfolding code_at
code countries index = code_at (get_elem? countries index)

unfoldable pub coded : List (List ℕ) → Option ℕ → Found
coded countries none = panics
coded countries (some index) = code countries index

-- `sort.Search(...) - 1`, and what follows from it.
unfoldable pub before_first : List (List ℕ) → List ℕ → ℕ → Found
unfolding coded
before_first countries country zero = no_country
before_first countries country (suc index) = coded countries (get_elem? country index)

-- The search among the rows of one family.
unfoldable pub find_country : List (List ℕ) → List ℕ → List ℕ → ℕ → Found
unfolding before_first
find_country countries starts country key =
    before_first countries country
      (sort_search (length starts) (λ i. is_above key (get_elem? starts i)))

unfoldable pub find_key : Table → Key → Found
unfolding find_country
find_key t (key4 key) = find_country t.countries t.v4_starts t.v4_country key
find_key t (key6 key) = find_country t.countries t.v6_starts t.v6_country key

unfoldable pub in_table : TableError ⊎ Table → Key → Found
unfolding find_key
in_table (inl e) key = no_country
in_table (inr t) key = find_key t key

-- `Country`, for what `load` made of the table in the binary.
unfoldable pub country : TableError ⊎ Table → Addr → Found
unfolding in_table
country loaded addr = if is_unroutable addr then no_country else in_table loaded (key_of addr)

has_rows : TableError ⊎ Table → Bool
has_rows (inl e) = false
has_rows (inr t) = not (is_nil t.v4_starts)

-- `Loaded`
unfoldable pub loaded : TableError ⊎ Table → Bool
unfolding has_rows
loaded t = has_rows t
