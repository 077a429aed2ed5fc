-- ===== src/Geoip.antt =====
-- internal/geoip and tools/geoipgen: the country of an address, from a table in the binary.
pub mod Table
pub mod Decode
pub mod RoundTrip
pub mod Lookup
pub mod Merge
pub mod Covering
pub mod Generator
pub mod Generated
