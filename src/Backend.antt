-- ===== src/Backend.antt =====
-- logme/source/Backend: the two backends that keep their output in memory.
pub mod Ring
pub mod Growing
