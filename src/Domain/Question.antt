-- ===== src/Domain/Question.antt =====
-- internal/domain/question.go: the types of question, a question of a draft, and its validation.
pub mod Types
pub mod Scale
pub mod Validate
unfoldable pub use Types.*
unfoldable pub use Scale.*
unfoldable pub use Validate.*
