-- ===== src/Format.antt =====
-- The formatting of a record's text.
pub mod Fast
