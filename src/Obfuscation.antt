-- ===== src/Obfuscation.antt =====
-- Obfuscate.cpp: log files whose records are encrypted, and their decoding.
pub mod Bytes
pub mod Cipher
pub mod Involution
pub mod Record
pub mod Nonce
pub mod Decoding
pub mod File
pub mod Line
