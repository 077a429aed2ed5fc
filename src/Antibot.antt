-- ===== src/Antibot.antt =====
-- internal/antibot: the rate limiter and the set of single uses. The clock is an argument: each
-- operation takes the instant that it reads, in nanoseconds.
pub mod Limiter
pub mod Seen
pub mod FormToken
