-- ===== src/Text.antt =====
-- Go's strings as the lists of their runes, with what the program uses of the packages strings,
-- unicode and unicode/utf8.
mod Defs
pub mod Equality
pub mod Tidy
pub mod Replace
pub mod Decimal
unfoldable pub use Defs.*
