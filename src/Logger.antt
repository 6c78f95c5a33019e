-- ===== src/Logger.antt =====
-- The filters of subsystems that Logger.cpp keeps, and what Context.cpp does with repeated messages.
pub mod Snapshots
pub mod Sorted
pub mod Filters
pub mod Levels
pub mod Collapse
