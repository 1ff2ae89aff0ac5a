-- ===== src/Term/Parser.antt =====
-- The parser of components/term_core/src/parser.cpp and include/term_core/parser.hpp.
pub mod State
pub mod Feed
pub mod Buffers
pub mod Keeps
pub mod Utf8
pub mod Params
pub mod Digits
pub mod RoundTrip
