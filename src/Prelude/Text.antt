-- ===== src/Prelude/Text.antt =====
-- Go's strings as the code uses them: a text is the list of its runes (code points). Each function
-- is one of package strings, named after it, for the arguments that the code gives it.
mod Spaces
mod Split
pub mod Sort
pub mod Decimal
unfoldable pub use Spaces.*
unfoldable pub use Split.*
