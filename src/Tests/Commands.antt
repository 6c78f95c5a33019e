-- ===== src/Tests/Commands.antt =====
-- Runs of the environment's commands.
use logme.Prelude.{
  true, ◌∷◌, ℕ, ◌≡◌, ◌<◌, ◌≤◌, ◌^◌, ◌⊎◌, not, ◌||◌, false, if◌then◌else◌, List, [], length, All,
  some, arith,
}
use logme.Text.Trim.{codes}
use logme.Text.Replace.{same_text}
use logme.Text.Pieces.{pieces}
use logme.Text.Words.{word_split}
use logme.Text.Words.Reference.{stripped, tokens, word_split-tokens}
use logme.Control.Policy.{ControlPolicy}
use logme.Control.Split.{is_semicolon}
use logme.Control.Environment.{
  EnvironmentControlOptions, stop_on_error, default_options, Event, is_ignore, is_stop,
  apply_environment_control,
}
use logme.Control.Environment.Lengths.{commands_of, total}
use logme.Control.Environment.Failures.{any_failed, Stops, apply-Stops}
use logme.Control.Environment.Bounds.{Short, apply_bounds}

abbrev value : List ℕ
value = codes "level debug;; bad ;flags"

abbrev spaced : List ℕ
spaced = codes " level debug;; bad ; ;flags "

word_split-tokens_example :
    word_split is_semicolon true true 40 spaced
    ≡ some (codes "level debug" ∷ codes "bad" ∷ codes "flags" ∷ [])
unfolding word_split tokens pieces stripped
word_split-tokens_example = word_split-tokens is_semicolon true true 40 spaced (omega arith)

-- A logger that knows all commands but one.
abbrev answers : List Event → ControlPolicy → List ℕ → List ℕ
answers done policy command =
    if same_text command (codes "bad") then codes "error: unknown" else codes "ok"

abbrev environment : List ℕ → List ℕ
environment name = if same_text name (codes "LOGME_CONTROL") then value else []

abbrev options : EnvironmentControlOptions
options = record default_options { error_mode = stop_on_error; max_variables = 2 }

apply-Stops_example :
    ((apply_environment_control answers options environment).success ≡ (
      is_ignore options.error_mode
      || not (any_failed (apply_environment_control answers options environment).events)))
    × ((is_stop options.error_mode ≡ false)
        ⊎ Stops (apply_environment_control answers options environment).events)
apply-Stops_example = apply-Stops answers options environment

environment-fits : (name : List ℕ) → length (environment name) < 2 ^ 63
environment-fits name = ground arith

apply_bounds_example :
    ((options.max_commands ≡ 0)
      ⊎ (length (commands_of (apply_environment_control answers options environment).events)
          ≤ options.max_commands))
    × ((options.max_command_length ≡ 0)
        ⊎ All
            (Short answers options)
            (commands_of (apply_environment_control answers options environment).events))
    × ((options.max_total_length ≡ 0)
        ⊎ (total (commands_of (apply_environment_control answers options environment).events)
            ≤ options.max_total_length))
apply_bounds_example =
    apply_bounds answers options (omega arith) environment (omega arith) environment-fits
