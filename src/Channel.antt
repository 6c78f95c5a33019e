-- ===== src/Channel.antt =====
-- logme/source/Channel.cpp and ReentryGuard.cpp: the channels that a record goes through.
pub mod Reentry
pub mod State
pub mod Distinct
pub mod Consistency
pub mod Display
pub mod Visits
pub mod ThreadNames
pub mod Shortener
pub mod Shown
pub mod Once
