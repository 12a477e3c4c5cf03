-- ===== src/Text.antt =====
-- The functions of Rust's standard library on `str` that the source calls, with the documented
-- behaviour of each. A `str` is the list of its characters, as Unicode scalar values.
mod Chars
mod Split
mod Number
pub mod Range
pub mod Slice
pub mod RoundTrip
pub mod Utf8
unfoldable pub use Chars.*
unfoldable pub use Split.*
unfoldable pub use Number.*
