-- ===== src/Base/Text.antt =====
-- What the program uses of Go's `strings` and `strconv`, on the characters of a text.
mod Chars
mod Split
mod Number
mod Decimal
unfoldable pub use Chars.*
unfoldable pub use Split.*
unfoldable pub use Number.*
unfoldable pub use Decimal.*
