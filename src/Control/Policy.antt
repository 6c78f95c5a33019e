-- ===== src/Control/Policy.antt =====
-- ControlPolicy.cpp: what a source of commands may do.
use logme.Prelude.{Bool, true, false}

pub data ControlPolicyMode : Type 0 where
  full : ControlPolicyMode
  safe : ControlPolicyMode
  diagnostic : ControlPolicyMode
  custom : ControlPolicyMode

pub record ControlPolicy : Type 0 where
  pub mode : ControlPolicyMode
  pub allow_extensions : Bool
  pub allow_logs_command : Bool
  pub allow_format_command : Bool
  pub allow_file_backends : Bool
  pub allow_channel_create_delete : Bool
  pub allow_channel_routing : Bool
  pub allow_channel_error : Bool
  pub allow_backend_changes : Bool
  pub allow_level_changes : Bool
  pub allow_flag_changes : Bool
  pub allow_trace_changes : Bool
  pub allow_log_statistics : Bool
  pub allow_subsystem_changes : Bool

unfoldable pub full_policy : ControlPolicy
full_policy = record {
  mode = full;
  allow_extensions = true;
  allow_logs_command = true;
  allow_format_command = true;
  allow_file_backends = true;
  allow_channel_create_delete = true;
  allow_channel_routing = true;
  allow_channel_error = true;
  allow_backend_changes = true;
  allow_level_changes = true;
  allow_flag_changes = true;
  allow_trace_changes = true;
  allow_log_statistics = true;
  allow_subsystem_changes = true;
}

unfoldable pub safe_policy : ControlPolicy
safe_policy = record {
  mode = safe;
  allow_extensions = false;
  allow_logs_command = false;
  allow_format_command = true;
  allow_file_backends = false;
  allow_channel_create_delete = false;
  allow_channel_routing = false;
  allow_channel_error = false;
  allow_backend_changes = false;
  allow_level_changes = true;
  allow_flag_changes = true;
  allow_trace_changes = true;
  allow_log_statistics = true;
  allow_subsystem_changes = true;
}

unfoldable pub diagnostic_policy : ControlPolicy
unfolding safe_policy
diagnostic_policy = record safe_policy { mode = diagnostic; allow_backend_changes = true }
