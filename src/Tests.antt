-- ===== src/Tests.antt =====
-- Runs of the modelled code at concrete inputs.
mod Queue
mod Values
mod Texts
mod Logging
mod Commands
mod Files
mod Obfuscated
mod Memory
mod Channels
mod Formats
mod Times
mod Repeats
