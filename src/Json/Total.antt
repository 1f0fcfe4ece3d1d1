-- ===== src/Json/Total.antt =====
-- The scanner and the parser of src/json/parser.cc end on every input: no loop runs out of fuel, and
-- no assertion fails.
pub mod Bytes
pub mod Scan
pub mod Parse
pub mod Stream
