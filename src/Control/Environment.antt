-- ===== src/Control/Environment.antt =====
-- `ApplyEnvironmentControl` and its helpers in EnvironmentControl.cpp. What the logger does with a
-- command is not modelled here: `answer` gives its response, after all that was done before.
pub mod Failures
pub mod Lengths
pub mod Bounds
use mathlib.Core.Option
use logme.Prelude.{
  ℕ, zero, suc, ◌+◌, Bool, true, false, not, ◌&&◌, ◌||◌, ◌==◌, ltb, leb, if◌then◌else◌, Option,
  none, some, List, [], ◌∷◌, ◌++◌, length, is_empty, add64,
}
use logme.Text.Trim.{codes, to_lower_ascii}
use logme.Text.Decimal.{to_string}
use logme.Text.Search.{starts_with}
use logme.Text.Words.{word_split}
use logme.Control.Policy.{ControlPolicy, safe_policy}
use logme.Control.Split.{split_environment_control_commands}

pub data EnvironmentControlErrorMode : Type 0 where
  ignore_errors : EnvironmentControlErrorMode
  continue_on_error : EnvironmentControlErrorMode
  stop_on_error : EnvironmentControlErrorMode

pub record EnvironmentControlOptions : Type 0 where
  pub prefix : List ℕ
  pub policy : ControlPolicy
  pub error_mode : EnvironmentControlErrorMode
  pub max_variables : ℕ
  pub max_commands : ℕ
  pub max_variable_length : ℕ
  pub max_command_length : ℕ
  pub max_total_length : ℕ
  pub log_applied_commands : Bool

abbrev pub default_options : EnvironmentControlOptions
default_options = record {
  prefix = codes "LOGME";
  policy = safe_policy;
  error_mode = continue_on_error;
  max_variables = 32;
  max_commands = 64;
  max_variable_length = 8192;
  max_command_length = 2048;
  max_total_length = 32768;
  log_applied_commands = true;
}

-- The errors that are logged, with their values.
pub data Failure : Type 0 where
  prefix_is_empty : Failure
  variable_too_long : List ℕ → Failure
  total_length_exceeded : List ℕ → Failure
  too_many_commands : Failure
  command_too_long : List ℕ → Failure
  command_failed : List ℕ → List ℕ → Failure

-- What is done, in order: a command for `Control`, an error, a command reported as applied (at the
-- level of information or of debugging).
pub data Event : Type 0 where
  issued : List ℕ → Event
  failed : Failure → Event
  applied : (info : Bool) → List ℕ → Event

pub record State : Type 0 where
  pub total_length : ℕ
  pub command_count : ℕ
  pub success : Bool
  pub events : List Event

abbrev pub untouched : State
untouched = record { total_length = 0; command_count = 0; success = true; events = [] }

abbrev pub is_ignore : EnvironmentControlErrorMode → Bool
is_ignore ignore_errors = true
is_ignore continue_on_error = false
is_ignore stop_on_error = false

abbrev pub is_stop : EnvironmentControlErrorMode → Bool
is_stop ignore_errors = false
is_stop continue_on_error = false
is_stop stop_on_error = true

abbrev pub did : Event → State → State
did e s = record s { events = s.events ++ e ∷ [] }

unfoldable pub get_control_command_name : List ℕ → List ℕ
get_control_command_name command =
    elim (Option.get_or
      (word_split (λ c. c == b' ' || c == 9) true true (length command + 1) command) []) [
        | [] ↦ codes "<empty>"
        | name ∷ _ ↦ to_lower_ascii name
      ]

-- `{"ok":false` begins with an opening brace; 34 is a quotation mark.
abbrev pub not_ok_prefix : List ℕ
not_ok_prefix = codes "{" ++ (34 ∷ codes "ok" ++ (34 ∷ codes ":false"))

unfoldable pub is_control_error_response : List ℕ → Bool
is_control_error_response response =
    starts_with response (codes "error:") || starts_with response not_ok_prefix

-- Whether to go on, with the new state.
unfoldable pub handle_environment_control_error :
    EnvironmentControlOptions → Failure → State → Bool × State
handle_environment_control_error options f s = (
  not (is_stop options.error_mode),
  record (did (failed f) s) { success = if is_ignore options.error_mode then s.success else false },
)

module _ (answer : List Event → ControlPolicy → List ℕ → List ℕ)
    (options : EnvironmentControlOptions) where
  -- A command whose length is allowed.
  unfoldable pub run_command : List ℕ → State → Bool × State
  unfolding handle_environment_control_error
  run_command command s =
      let response = answer s.events options.policy command in
      let s' = did (issued command) s in
      let name = get_control_command_name command in
      if is_control_error_response response
      then handle_environment_control_error options (command_failed name response) s'
      else (true, did (applied options.log_applied_commands name) s')

  -- The body of the loop over the commands of a variable.
  unfoldable pub process_command : List ℕ → List ℕ → State → Bool × State
  unfolding run_command handle_environment_control_error
  process_command variable command s =
      let counted = record s { command_count = add64 s.command_count 1 } in
      if not (options.max_commands == 0) && leb options.max_commands s.command_count
      then (false, (handle_environment_control_error options too_many_commands s).1)
      else if not (options.max_command_length == 0)
          && ltb options.max_command_length (length command)
      then handle_environment_control_error options (command_too_long variable) counted
      else run_command command counted

  unfoldable pub process_commands : List ℕ → List (List ℕ) → State → Bool × State
  unfolding process_command
  process_commands variable [] s = (true, s)
  process_commands variable (c ∷ cs) s =
      let (go_on, s') = process_command variable c s in
      let rest = process_commands variable cs s' in if go_on then rest else (false, s')

  unfoldable pub process_environment_control_variable : List ℕ → List ℕ → State → Bool × State
  unfolding process_commands handle_environment_control_error
  process_environment_control_variable variable value s =
      if not (options.max_variable_length == 0) && ltb options.max_variable_length (length value)
      then handle_environment_control_error options (variable_too_long variable) s
      else if not (options.max_total_length == 0)
          && ltb options.max_total_length (add64 s.total_length (length value))
      then handle_environment_control_error options (total_length_exceeded variable) s
      else process_commands variable (Option.get_or (split_environment_control_commands value) [])
          (record s { total_length = add64 s.total_length (length value) })

  module _ (environment : List ℕ → List ℕ) where
    -- A variable that is set to a text; the empty text is what an unset one gives.
    unfoldable pub process_variable : List ℕ → State → Bool × State
    unfolding process_environment_control_variable
    process_variable variable s =
        if is_empty (environment variable)
        then (true, s)
        else process_environment_control_variable variable (environment variable) s

    -- The loop from `i` on, for `rounds` more variables.
    unfoldable pub process_numbered : (rounds : ℕ) → ℕ → State → State
    unfolding process_variable
    process_numbered zero i s = s
    process_numbered (suc rounds) i s =
        let (go_on, s') =
          process_variable (options.prefix ++ (codes "_CONTROL_" ++ to_string i)) s in
        let rest = process_numbered rounds (i + 1) s' in if go_on then rest else s'

    unfoldable pub apply_environment_control : State
    unfolding process_numbered process_variable handle_environment_control_error
    apply_environment_control =
        let (go_on, s) = process_variable (options.prefix ++ codes "_CONTROL") untouched in
        let rest = process_numbered options.max_variables 1 s in
        if is_empty options.prefix
        then (handle_environment_control_error options prefix_is_empty untouched).1
        else if go_on
        then rest
        else s
