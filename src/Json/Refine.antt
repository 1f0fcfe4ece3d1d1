-- ===== src/Json/Refine.antt =====
-- The scanner and the parser of src/json/parser.cc do the same over the real source, a stream with a
-- lookahead byte and a size, and over the abstract one, a list of bytes.
pub mod Simulation
pub mod Scan
pub mod Parse
pub mod Stream
