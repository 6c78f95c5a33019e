-- ===== src/File.antt =====
-- What keeps the files of a file backend in bounds.
pub mod Retention
pub mod Rotation
