-- ===== src/Encoding.antt =====
-- The byte encodings of Go's standard library that the program calls.
pub mod Hex
pub mod Base64
