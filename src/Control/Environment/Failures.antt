-- ===== src/Control/Environment/Failures.antt =====
-- What errors do to the result and to what follows.
use logme.Prelude.{
  ℕ, zero, suc, ◌+◌, subst, ◌≡◌, refl, Bool, true, false, not, ◌&&◌, ◌||◌, ◌==◌, ltb, leb,
  if◌then◌else◌, List, [], ◌∷◌, ◌++◌, is_empty, ◌⊎◌, Bool-cases, inl, inr, arith, length, add64,
}
use mathlib.Core.Option
use logme.Text.Trim.{codes}
use logme.Text.Decimal.{to_string}
use logme.Control.Policy.{ControlPolicy}
use logme.Control.Split.{split_environment_control_commands}
use logme.Control.Environment.{
  EnvironmentControlOptions, Failure, prefix_is_empty, too_many_commands, command_too_long,
  command_failed, variable_too_long, total_length_exceeded, Event, issued, failed, applied, State,
  is_ignore, is_stop, did, get_control_command_name, is_control_error_response,
  handle_environment_control_error, run_command, process_command, process_commands,
  process_environment_control_variable, process_variable, process_numbered, untouched,
  apply_environment_control,
}

abbrev pub is_failed : Event → Bool
is_failed (issued c) = false
is_failed (failed f) = true
is_failed (applied info c) = false

abbrev pub any_failed : List Event → Bool
any_failed [] = false
any_failed (e ∷ es) = is_failed e || any_failed es

-- Nothing follows an error.
abbrev pub Stops : List Event → Type 0
Stops [] = Unit
Stops (e ∷ []) = Unit
Stops (e ∷ f ∷ es) = (is_failed e ≡ false) × Stops (f ∷ es)

any_failed-snoc :
    (es : List Event) (e : Event) → any_failed (es ++ e ∷ []) ≡ (any_failed es || is_failed e)
any_failed-snoc [] e = ground arith
any_failed-snoc (x ∷ es) e = ground (arith, any_failed-snoc es e)

snoc-Stops : (es : List Event) (e : Event) → any_failed es ≡ false → Stops (es ++ e ∷ [])
snoc-Stops [] e h = tt
snoc-Stops (x ∷ []) e h = (ground arith, tt)
snoc-Stops (x ∷ y ∷ es) e h = (ground arith, snoc-Stops (y ∷ es) e (ground arith))

module _ (answer : List Event → ControlPolicy → List ℕ → List ℕ)
    (options : EnvironmentControlOptions) where
  -- What is true of a result, whether it goes on or not.
  record Honest (go_on : Bool) (s : State) : Type 0 where
    told : s.success ≡ (is_ignore options.error_mode || not (any_failed s.events))
    clean : go_on ≡ true → is_stop options.error_mode ≡ true → any_failed s.events ≡ false
    stops : is_stop options.error_mode ≡ true → Stops s.events

  did-Honest : (e : Event) (s : State) → is_failed e ≡ false → Honest true s → Honest true (did e s)
  did-Honest e s k h = record {
    told = ground (arith, h.told, any_failed-snoc s.events e);
    clean = λ p q. ground (arith, h.clean refl q, any_failed-snoc s.events e);
    stops = λ q. snoc-Stops s.events e (h.clean refl q);
  }

  failure-Honest :
      (f : Failure) (s : State)
      → Honest true s
      → Honest
          (handle_environment_control_error options f s).0
          (handle_environment_control_error options f s).1
  unfolding handle_environment_control_error
  failure-Honest f s h = record {
    told = ground (arith, h.told, any_failed-snoc s.events (failed f));
    clean = λ p q. ground arith;
    stops = λ q. snoc-Stops s.events (failed f) (h.clean refl q);
  }

  stopped-Honest : (go_on : Bool) (s : State) → Honest go_on s → Honest false s
  stopped-Honest go_on s h = record { told = h.told; clean = λ p q. cc; stops = h.stops }

  untouched-Honest : Honest true untouched
  untouched-Honest = record { told = ground arith; clean = λ p q. refl; stops = λ q. tt }

  -- A choice between two results.
  either-Honest :
      (b : Bool) (r t : Bool × State)
      → Honest r.0 r.1
      → Honest t.0 t.1
      → Honest (if b then r else t).0 (if b then r else t).1
  either-Honest true r t h k = h
  either-Honest false r t h k = k

  -- The two numbers do not matter.
  renumbered-Honest :
      (n m : ℕ) (go_on : Bool) (s : State)
      → Honest go_on s
      → Honest go_on (record s { total_length = n; command_count = m })
  renumbered-Honest n m go_on s h = record { told = h.told; clean = h.clean; stops = h.stops }

  run_command-Honest :
      (c : List ℕ) (s : State)
      → Honest true s
      → Honest (run_command answer options c s).0 (run_command answer options c s).1
  unfolding run_command
  run_command-Honest c s h =
      let sent = did-Honest (issued c) s refl h in
      let name = get_control_command_name c in
      let response = answer s.events options.policy c in
      either-Honest (is_control_error_response response)
        (handle_environment_control_error options (command_failed name response) (did (issued c) s))
        (true, did (applied options.log_applied_commands name) (did (issued c) s))
        (failure-Honest (command_failed name response) (did (issued c) s) sent)
        (did-Honest (applied options.log_applied_commands name) (did (issued c) s) refl sent)

  process_command-Honest :
      (v c : List ℕ) (s : State)
      → Honest true s
      → Honest (process_command answer options v c s).0 (process_command answer options v c s).1
  unfolding process_command
  process_command-Honest v c s h =
      let counted = record s { command_count = add64 s.command_count 1 } in
      let counted-Honest = renumbered-Honest s.total_length (add64 s.command_count 1) true s h in
      either-Honest (not (options.max_commands == 0) && leb options.max_commands s.command_count)
        (false, (handle_environment_control_error options too_many_commands s).1)
        (if not (options.max_command_length == 0) && ltb options.max_command_length (length c)
          then handle_environment_control_error options (command_too_long v) counted
          else run_command answer options c counted)
        (stopped-Honest _ _ (failure-Honest too_many_commands s h))
        (either-Honest
          (not (options.max_command_length == 0) && ltb options.max_command_length (length c))
          (handle_environment_control_error options (command_too_long v) counted)
          (run_command answer options c counted)
          (failure-Honest (command_too_long v) counted counted-Honest)
          (run_command-Honest c counted counted-Honest))

  process_commands-Honest :
      (v : List ℕ) (cs : List (List ℕ)) (s : State)
      → Honest true s
      → Honest (process_commands answer options v cs s).0 (process_commands answer options v cs s).1
  unfolding process_commands
  process_commands-Honest v [] s h = h
  process_commands-Honest v (c ∷ cs) s h =
      let one = process_command-Honest v c s h in
      elim (Bool-cases (process_command answer options v c s).0) [
        | inl on ↦ rw on (
            process_commands-Honest v cs (process_command answer options v c s).1
              (subst (λ b. Honest b (process_command answer options v c s).1) on one))
        | inr off ↦ rw off (stopped-Honest _ _ one)
      ]

  variable-Honest :
      (v value : List ℕ) (s : State)
      → Honest true s
      → Honest
          (process_environment_control_variable answer options v value s).0
          (process_environment_control_variable answer options v value s).1
  unfolding process_environment_control_variable
  variable-Honest v value s h =
      let total = add64 s.total_length (length value) in
      let rest =
        process_commands answer options v
          (Option.get_or (split_environment_control_commands value) [])
          (record s { total_length = total }) in
      let limited = not (options.max_total_length == 0) && ltb options.max_total_length total in
      either-Honest
        (not (options.max_variable_length == 0) && ltb options.max_variable_length (length value))
        (handle_environment_control_error options (variable_too_long v) s)
        (if limited
          then handle_environment_control_error options (total_length_exceeded v) s
          else rest)
        (failure-Honest (variable_too_long v) s h)
        (either-Honest limited
          (handle_environment_control_error options (total_length_exceeded v) s) rest
          (failure-Honest (total_length_exceeded v) s h)
          (process_commands-Honest v _ _ (renumbered-Honest total s.command_count true s h)))

  module _ (environment : List ℕ → List ℕ) where
    process_variable-Honest :
        (v : List ℕ) (s : State)
        → Honest true s
        → Honest
            (process_variable answer options environment v s).0
            (process_variable answer options environment v s).1
    unfolding process_variable
    process_variable-Honest v s h =
        either-Honest (is_empty (environment v)) (true, s)
          (process_environment_control_variable answer options v (environment v) s) h
          (variable-Honest v (environment v) s h)

    process_numbered-Honest :
        (rounds i : ℕ) (s : State)
        → Honest true s
        → Honest false (process_numbered answer options environment rounds i s)
    unfolding process_numbered
    process_numbered-Honest zero i s h = stopped-Honest true s h
    process_numbered-Honest (suc rounds) i s h =
        let v = options.prefix ++ (codes "_CONTROL_" ++ to_string i) in
        let one = process_variable-Honest v s h in
        elim (Bool-cases (process_variable answer options environment v s).0) [
          | inl on ↦ rw on (
              process_numbered-Honest rounds (i + 1)
                (process_variable answer options environment v s).1
                (subst (λ b. Honest b (process_variable answer options environment v s).1) on one))
          | inr off ↦ rw off (stopped-Honest _ _ one)
        ]

    apply-Honest : Honest false (apply_environment_control answer options environment)
    unfolding apply_environment_control
    apply-Honest = elim (Bool-cases (is_empty options.prefix)) [
      | inl no_prefix ↦
          rw no_prefix
            (stopped-Honest _ _ (failure-Honest prefix_is_empty untouched untouched-Honest))
      | inr prefixed ↦
          let v = options.prefix ++ codes "_CONTROL" in
          let one = process_variable-Honest v untouched untouched-Honest in
          elim (Bool-cases (process_variable answer options environment v untouched).0) [
            | inl on ↦
                rw (prefixed, on)
                  (process_numbered-Honest options.max_variables 1
                    (process_variable answer options environment v untouched).1
                    (subst
                      (λ b. Honest b (process_variable answer options environment v untouched).1) on
                      one))
            | inr off ↦ rw (prefixed, off) (stopped-Honest _ _ one)
          ]
    ]

    -- `ApplyEnvironmentControl` returns true exactly where errors are ignored or none was logged; where
    -- it is to stop on an error, nothing is done after the first one.
    pub apply-Stops :
        ((apply_environment_control answer options environment).success ≡ (
          is_ignore options.error_mode
          || not (any_failed (apply_environment_control answer options environment).events)))
        × ((is_stop options.error_mode ≡ false)
            ⊎ Stops (apply_environment_control answer options environment).events)
    apply-Stops = (
      apply-Honest.told,
      elim (Bool-cases (is_stop options.error_mode)) [
        | inl stop ↦ inr (apply-Honest.stops stop)
        | inr other ↦ inl other
      ],
    )
