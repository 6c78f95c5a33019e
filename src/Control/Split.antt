-- ===== src/Control/Split.antt =====
-- `SplitEnvironmentControlCommands` of EnvironmentControl.cpp, and that it agrees with `WordSplit`.
use logme.Prelude.{
  ℕ, zero, suc, ◌+◌, ◌-◌, ◌≤◌, ◌<◌, ◌≡◌, refl, sym, ap, ◌∙◌, Bool, true, ◌==◌, Option, none, some,
  List, [], ◌∷◌, ◌++◌, length, take, drop, length-drop, append_assoc, append-nil, Option-cases, inl,
  inr, arith,
}
use logme.Text.Trim.{trim_spaces}
use logme.Text.Pieces.{first_of, pieces, pieces-first_of}
use logme.Text.Words.{later_position, find_from, keep_token, word_split}
use logme.Text.Words.Loop.{
  split_tokens, split_tokens-cons, pieces_last, drop-drop, word_split-split_tokens,
}

abbrev pub is_semicolon : ℕ → Bool
is_semicolon c = c == b';'

abbrev pub command_to : ℕ → List ℕ → Option ℕ → List ℕ
command_to pos value none = drop pos value
command_to pos value (some next) = take (next - pos) (drop pos value)

-- The loop, on fuel, with `none` where the rounds are too few.
unfoldable pub split_loop : (fuel : ℕ) → List ℕ → ℕ → List (List ℕ) → Option (List (List ℕ))
unfolding find_from
split_loop zero value pos commands = none
split_loop (suc fuel) value pos commands =
    let next = find_from is_semicolon value pos in
    let kept = commands ++ keep_token true (trim_spaces (command_to pos value next)) in
    elim next [ none ↦ some kept | some n ↦ split_loop fuel value (n + 1) kept ]

-- One round for each character and one more.
unfoldable pub split_environment_control_commands : List ℕ → Option (List (List ℕ))
unfolding split_loop
split_environment_control_commands value = split_loop (length value + 1) value 0 []

abbrev pub kept_commands : List (List ℕ) → List (List ℕ)
kept_commands xs = split_tokens is_semicolon true true xs

no_command : keep_token true (trim_spaces []) ≡ []
unfolding trim_spaces
no_command = refl

-- What is left, without a separator, is the last command, if it is not blank.
kept_last :
    (s : List ℕ)
    → first_of is_semicolon s ≡ none
    → keep_token true (trim_spaces s) ≡ kept_commands (pieces is_semicolon s)
unfolding pieces split_tokens
kept_last [] h = no_command
kept_last (c ∷ s) h = rw (pieces_last is_semicolon (c ∷ s) (omega arith) h) (sym (append-nil _))

module _ (fuel : ℕ) (value : List ℕ) (pos : ℕ) (commands : List (List ℕ)) where
  round_last :
      find_from is_semicolon value pos ≡ none
      → split_loop (suc fuel) value pos commands
        ≡ some (commands ++ keep_token true (trim_spaces (drop pos value)))
  unfolding split_loop
  round_last e =
      rw (split_loop, e)
        (ap (λ o. some (commands ++ keep_token true (trim_spaces (command_to pos value o)))) e)

  round :
      (n : ℕ)
      → find_from is_semicolon value pos ≡ some n
      → split_loop (suc fuel) value pos commands
        ≡ split_loop fuel value
            (n + 1)
            (commands ++ keep_token true (trim_spaces (take (n - pos) (drop pos value))))
  unfolding split_loop
  round n e =
      rw (split_loop, e)
        (ap
          (λ o.
            split_loop fuel value (n + 1)
              (commands ++ keep_token true (trim_spaces (command_to pos value o))))
          e)

split_loop_lem :
    (fuel : ℕ) (value : List ℕ) (pos : ℕ) (commands : List (List ℕ))
    → pos ≤ length value
    → length value < pos + fuel
    → split_loop fuel value pos commands
      ≡ some (commands ++ kept_commands (pieces is_semicolon (drop pos value)))
unfolding find_from
split_loop_lem zero value pos commands k h = absurd (omega arith)
split_loop_lem (suc fuel) value pos commands k h =
    elim (Option-cases (first_of is_semicolon (drop pos value))) [
      | inl last ↦
          round_last fuel value pos commands (ap (later_position pos) last)
          ∙ ap (λ c. some (commands ++ c)) (kept_last (drop pos value) last)
      | inr (n, found) ↦
          let (first, within) = pieces-first_of is_semicolon (drop pos value) n found in
          let short : take (n + pos - pos) (drop pos value) ≡ take n (drop pos value) =
            ap (λ m. take m (drop pos value)) {x = n + pos - pos} {y = n} (omega arith) in
          let after : drop (suc n) (drop pos value) ≡ drop (n + pos + 1) value =
            drop-drop (suc n) pos value
            ∙ ap (λ m. drop m value) {x = suc n + pos} {y = n + pos + 1} (omega arith) in
          let inside : n + pos < length value = omega (arith, within, length-drop pos value) in
          let one = keep_token true (trim_spaces (take n (drop pos value))) in
          round fuel value pos commands (n + pos) (ap (later_position pos) found)
          ∙ rw short (
              split_loop_lem fuel value (n + pos + 1) _ (omega arith) (omega arith)
              ∙ ap some (
                  append_assoc commands one _
                  ∙ ap (◌++◌ commands) (
                      ap (λ r. one ++ kept_commands (pieces is_semicolon r)) (sym after)
                      ∙ sym
                          (ap kept_commands first ∙ split_tokens-cons is_semicolon true true _ _))))
    ]

pub split-split_tokens :
    (value : List ℕ)
    → split_environment_control_commands value ≡ some (kept_commands (pieces is_semicolon value))
unfolding split_environment_control_commands
split-split_tokens value = split_loop_lem (length value + 1) value 0 [] (omega arith) (omega arith)

-- The commands that `SplitEnvironmentControlCommands` finds in a value are the words that `WordSplit`
-- finds between its semicolons, trimmed and not empty; each loop ends after at most one round more
-- than the value has characters.
pub split-word_split :
    (fuel : ℕ) (value : List ℕ)
    → length value < fuel
    → split_environment_control_commands value ≡ word_split is_semicolon true true fuel value
split-word_split fuel value h =
    split-split_tokens value ∙ sym (word_split-split_tokens is_semicolon true true fuel value h)
