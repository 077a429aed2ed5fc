-- ===== src/Domain/Draft.antt =====
-- internal/domain/survey.go: the draft of a survey and the operations on it.
pub mod Types
pub mod Edit
pub mod Order
pub mod Keeps
pub mod Publish
pub mod Appearance
pub mod Languages
unfoldable pub use Types.*
