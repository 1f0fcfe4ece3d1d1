-- ===== src/Json/RoundTrip.antt =====
-- What `to_string` prints, `Parse` reads back.
pub mod Tokens
pub mod Numerals
pub mod Numbers
pub mod Printable
pub mod Peeks
pub mod Values
pub mod Places
pub mod Parse
pub mod Whole
pub mod Spaces
pub mod Reread
pub mod Checked
