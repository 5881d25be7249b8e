-- ===== src/Strings.antt =====
-- The functions of Go's `strings` and `strconv` that the program calls, over lists of bytes.
mod Split
mod Text
pub mod Decimal
pub mod Trim
unfoldable pub use Split.*
unfoldable pub use Text.*
unfoldable pub use Decimal.{nat_text, itoa, atoi}
pub use Decimal.{Parsed, max_int}
