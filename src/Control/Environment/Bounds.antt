-- ===== src/Control/Environment/Bounds.antt =====
-- The limits of the options hold for what is given to `Control`.
use logme.Prelude.{
  ℕ, zero, suc, ◌+◌, ◌≤◌, ◌<◌, ◌^◌, ◌≡◌, ◌≢◌, refl, Bool, false, not, ◌&&◌, ◌==◌, ltb, leb, List,
  [], ◌∷◌, ◌++◌, is_empty, All, All-append, ◌⊎◌, Bool-cases, by_test, inl, inr, arith, length,
  add64, u64_mod, length-append, append-nil,
}
use logme.Text.Trim.{codes}
use logme.Text.Decimal.{to_string}
use logme.Control.Policy.{ControlPolicy}
use logme.Control.Environment.{
  EnvironmentControlOptions, Failure, prefix_is_empty, too_many_commands, command_too_long,
  command_failed, variable_too_long, total_length_exceeded, Event, issued, failed, applied, State,
  did, get_control_command_name, is_control_error_response, handle_environment_control_error,
  run_command, process_command, process_commands, process_environment_control_variable,
  process_variable, process_numbered, untouched, apply_environment_control,
}
use logme.Control.Environment.Lengths.{
  commands_of, total, commands_of-append, total-append, total-split,
}

zero_or : {P : Type 0} (n : ℕ) → (n ≢ 0 → P) → (n ≡ 0) ⊎ P
zero_or zero h = inl refl
zero_or (suc n) h = inr (h (λ e. omega arith))

module _ (answer : List Event → ControlPolicy → List ℕ → List ℕ)
    (options : EnvironmentControlOptions) where
  abbrev pub Short : List ℕ → Type 0
  Short c = length c ≤ options.max_command_length

  -- `more` commands are counted that were not given yet, and `left` characters.
  record Limits (more left : ℕ) (given : List (List ℕ)) (count characters : ℕ) : Type 0 where
    counted :
        options.max_commands ≢ 0 → (length given + more ≤ count) × (count ≤ options.max_commands)
    short : options.max_command_length ≢ 0 → All Short given
    summed :
        options.max_total_length ≢ 0
        → (total given + left ≤ characters) × (characters ≤ options.max_total_length)

  abbrev Within : ℕ → ℕ → State → Type 0
  Within more left s = Limits more left (commands_of s.events) s.command_count s.total_length

  issued-Within :
      (c : List ℕ) (left : ℕ) (s : State)
      → (options.max_command_length ≢ 0 → Short c)
      → Within 1 (length c + left) s
      → Within 0 left (did (issued c) s)
  issued-Within c left s h v = rw (commands_of-append s.events (issued c ∷ [])) (record {
    counted = λ p. omega (arith, v.counted p, length-append (commands_of s.events) (c ∷ []));
    short = λ p. All-append Short (commands_of s.events) (c ∷ []) (v.short p) (h p, tt);
    summed = λ p. omega (arith, v.summed p, total-append (commands_of s.events) (c ∷ []));
  })

  -- What is not given to `Control`.
  silent-Within :
      (e : Event) (more left : ℕ) (s : State)
      → commands_of (e ∷ []) ≡ []
      → Within more left s
      → Within more left (did e s)
  silent-Within e more left s h v =
      rw (commands_of-append s.events (e ∷ []), h, append-nil (commands_of s.events)) v

  looser :
      (more left more' left' n m : ℕ) (given : List (List ℕ))
      → more' ≤ more
      → left' ≤ left
      → Limits more left given n m
      → Limits more' left' given n m
  looser more left more' left' n m given h k v = record {
    counted = λ p. omega (arith, v.counted p);
    short = v.short;
    summed = λ p. omega (arith, v.summed p);
  }

  failed-Within :
      (f : Failure) (more left left' : ℕ) (s : State)
      → left' ≤ left
      → Within more left s
      → Within 0 left' (handle_environment_control_error options f s).1
  unfolding handle_environment_control_error
  failed-Within f more left left' s h v =
      looser more left 0 left' s.command_count s.total_length
        (commands_of (did (failed f) s).events) (omega arith) h
        (silent-Within (failed f) more left s refl v)

  run_command-Within :
      (c : List ℕ) (left : ℕ) (s : State)
      → (options.max_command_length ≢ 0 → Short c)
      → Within 1 (length c + left) s
      → Within 0 left (run_command answer options c s).1
  unfolding run_command
  run_command-Within c left s h v =
      let sent = issued-Within c left s h v in
      by_test (λ (r : Bool × State). Within 0 left r.1)
        (is_control_error_response (answer s.events options.policy c))
        (λ _.
          failed-Within
            (command_failed (get_control_command_name c) (answer s.events options.policy c)) 0 left
            left (did (issued c) s) (omega arith) sent)
        λ _.
          silent-Within (applied options.log_applied_commands (get_control_command_name c)) 0 left
            (did (issued c) s) refl sent

  untouched-Within : Within 0 0 untouched
  untouched-Within = record {
    counted = λ p. omega arith;
    short = λ p. tt;
    summed = λ p. omega arith;
  }

  module _ (small : options.max_commands < u64_mod) where
    counted-Within :
        (left : ℕ) (s : State)
        → (not (options.max_commands == 0) && leb options.max_commands s.command_count) ≡ false
        → Within 0 left s
        → Within 1 left (record s { command_count = add64 s.command_count 1 })
    counted-Within left s e v = record {
      counted = λ p. ground (arith, v.counted p);
      short = v.short;
      summed = v.summed;
    }

    process_command-Within :
        (name c : List ℕ) (left : ℕ) (s : State)
        → Within 0 (length c + left) s
        → Within 0 left (process_command answer options name c s).1
    unfolding process_command
    process_command-Within name c left s v =
        let s' = record s { command_count = add64 s.command_count 1 } in
        by_test (λ (r : Bool × State). Within 0 left r.1)
          (not (options.max_commands == 0) && leb options.max_commands s.command_count)
          (λ _. failed-Within too_many_commands 0 (length c + left) left s (omega arith) v)
          λ few.
            let v' = counted-Within (length c + left) s few v in
            by_test (λ (r : Bool × State). Within 0 left r.1)
              (not (options.max_command_length == 0) && ltb options.max_command_length (length c))
              (λ _.
                failed-Within (command_too_long name) 1 (length c + left) left s' (omega arith) v')
              λ short. run_command-Within c left s' (λ p. ground arith) v'

    process_commands-Within :
        (name : List ℕ) (cs : List (List ℕ)) (s : State)
        → Within 0 (total cs) s
        → Within 0 0 (process_commands answer options name cs s).1
    unfolding process_commands
    process_commands-Within name [] s v = v
    process_commands-Within name (c ∷ cs) s v =
        let one = process_command-Within name c (total cs) s v in
        by_test (λ (r : Bool × State). Within 0 0 r.1) (process_command answer options name c s).0
          (λ _. process_commands-Within name cs (process_command answer options name c s).1 one)
          λ _. looser 0 (total cs) 0 0 _ _ _ (omega arith) (omega arith) one

    variable-Within :
        (name value : List ℕ) (s : State)
        → length value < 2 ^ 63
        → options.max_total_length < 2 ^ 63
        → Within 0 0 s
        → Within 0 0 (process_environment_control_variable answer options name value s).1
    unfolding process_environment_control_variable
    variable-Within name value s fits room v =
        by_test (λ (r : Bool × State). Within 0 0 r.1)
          (not (options.max_variable_length == 0) && ltb options.max_variable_length (length value))
          (λ _. failed-Within (variable_too_long name) 0 0 0 s (omega arith) v)
          λ _.
            by_test (λ (r : Bool × State). Within 0 0 r.1)
              (not (options.max_total_length == 0)
                && ltb options.max_total_length (add64 s.total_length (length value)))
              (λ _. failed-Within (total_length_exceeded name) 0 0 0 s (omega arith) v)
              λ enough. process_commands-Within name _ _ (record {
                counted = v.counted;
                short = v.short;
                summed = λ p. ground (arith, v.summed p, total-split value);
              })

    module _ (environment : List ℕ → List ℕ) (room : options.max_total_length < 2 ^ 63)
        (fits : (name : List ℕ) → length (environment name) < 2 ^ 63) where
      process_variable-Within :
          (name : List ℕ) (s : State)
          → Within 0 0 s
          → Within 0 0 (process_variable answer options environment name s).1
      unfolding process_variable
      process_variable-Within name s v =
          by_test (λ (r : Bool × State). Within 0 0 r.1) (is_empty (environment name)) (λ _. v)
            λ _. variable-Within name (environment name) s (fits name) room v

      process_numbered-Within :
          (rounds i : ℕ) (s : State)
          → Within 0 0 s
          → Within 0 0 (process_numbered answer options environment rounds i s)
      unfolding process_numbered
      process_numbered-Within zero i s v = v
      process_numbered-Within (suc rounds) i s v =
          let name = options.prefix ++ (codes "_CONTROL_" ++ to_string i) in
          let one = process_variable-Within name s v in
          elim (Bool-cases (process_variable answer options environment name s).0) [
            | inl on ↦ rw on (process_numbered-Within rounds (i + 1) _ one)
            | inr off ↦ rw off one
          ]

      apply-Within : Within 0 0 (apply_environment_control answer options environment)
      unfolding apply_environment_control
      apply-Within = elim (Bool-cases (is_empty options.prefix)) [
        | inl no_prefix ↦
            rw no_prefix
              (failed-Within prefix_is_empty 0 0 0 untouched (omega arith) untouched-Within)
        | inr prefixed ↦
            let name = options.prefix ++ codes "_CONTROL" in
            let one = process_variable-Within name untouched untouched-Within in
            elim (Bool-cases (process_variable answer options environment name untouched).0) [
              | inl on ↦ rw (prefixed, on) (process_numbered-Within options.max_variables 1 _ one)
              | inr off ↦ rw (prefixed, off) one
            ]
      ]

      -- For limits below 2 ^ 63 (2 ^ 64 for the number of commands), and variables that are shorter:
      -- whatever the environment holds and the logger answers, `ApplyEnvironmentControl` gives `Control`
      -- no more commands than `MaxCommands`, none longer than `MaxCommandLength`, and no more characters
      -- than `MaxTotalLength`, each if it is not 0.
      pub apply_bounds :
          ((options.max_commands ≡ 0)
            ⊎ (length (commands_of (apply_environment_control answer options environment).events)
                ≤ options.max_commands))
          × ((options.max_command_length ≡ 0)
              ⊎ All Short
                  (commands_of (apply_environment_control answer options environment).events))
          × ((options.max_total_length ≡ 0)
              ⊎ (total (commands_of (apply_environment_control answer options environment).events)
                  ≤ options.max_total_length))
      apply_bounds = (
        zero_or options.max_commands (λ p. omega (arith, apply-Within.counted p)),
        zero_or options.max_command_length apply-Within.short,
        zero_or options.max_total_length (λ p. omega (arith, apply-Within.summed p)),
      )
