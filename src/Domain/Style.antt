-- ===== src/Domain/Style.antt =====
-- internal/domain/style.go: how a survey looks, its validation, and the words of it that are
-- translated.
pub mod Types
pub mod Validate
pub mod Words
pub mod Translate
pub mod Builders
pub mod Same
unfoldable pub use Types.*
unfoldable pub use Words.*
