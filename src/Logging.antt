-- ===== src/Logging.antt =====
-- internal/logging/scrub.go: what a line of the log leaves out.
pub mod Attrs
pub mod Path
pub mod Url
