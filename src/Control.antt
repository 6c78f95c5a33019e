-- ===== src/Control.antt =====
-- The control commands that come from the environment: EnvironmentControl.cpp and ControlPolicy.cpp.
pub mod Policy
pub mod Split
pub mod Environment
