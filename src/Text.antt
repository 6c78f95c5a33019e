-- ===== src/Text.antt =====
-- Texts as lists of byte values: the parts of Utils.cpp and of the standard library that the
-- configuration code goes through.
pub mod Trim
pub mod Search
pub mod Decimal
pub mod Replace
pub mod Pieces
pub mod Words
