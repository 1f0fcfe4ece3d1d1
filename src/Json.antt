-- ===== src/Json.antt =====
-- src/json
pub mod Value
pub mod Source
pub mod Scan
pub mod Parse
pub mod Keys
pub mod Equality
pub mod Iterator
pub mod Covers
pub mod Swap
pub mod Symmetry
pub mod Transitivity
pub mod Maps
pub mod Parsed
pub mod Refine
pub mod Total
pub mod RoundTrip
mod Tests
