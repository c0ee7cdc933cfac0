-- ===== src/Text/Regex.antt =====
-- Patterns of Python's `re`, and where they are found.
mod Defs
mod Laws
unfoldable pub use Defs.*
pub use Laws.*
