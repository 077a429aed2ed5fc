-- ===== src/Domain/Answer.antt =====
-- internal/domain/answer.go: an answer, its display, and its validation against its question.
pub mod Value
pub mod Dates
pub mod Check
pub mod Spec
pub mod Submission
unfoldable pub use Value.*
