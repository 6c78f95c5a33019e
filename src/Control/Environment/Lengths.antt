-- ===== src/Control/Environment/Lengths.antt =====
-- How long the commands in a value are together.
use mathlib.Core.Option
use logme.Prelude.{
  ℕ, suc, ◌+◌, ◌≤◌, ◌≡◌, refl, ap, Bool, true, not, ◌||◌, List, [], ◌∷◌, ◌++◌, is_empty, Bool-cases,
  inl, inr, arith, length, length-take, length-drop,
}
use logme.Text.Trim.{trim_spaces}
use logme.Text.Pieces.{pieces, onto_first}
use logme.Text.Words.{keep_token}
use logme.Text.Words.Loop.{split_tokens}
use logme.Control.Split.{
  split_environment_control_commands, is_semicolon, kept_commands, split-split_tokens,
}
use logme.Control.Environment.{Event, issued, failed, applied}

-- The commands that were given to `Control`.
abbrev pub commands_of : List Event → List (List ℕ)
commands_of [] = []
commands_of (issued c ∷ es) = c ∷ commands_of es
commands_of (failed f ∷ es) = commands_of es
commands_of (applied info c ∷ es) = commands_of es

-- The lengths of some texts together.
abbrev pub total : List (List ℕ) → ℕ
total [] = 0
total (x ∷ xs) = length x + total xs

pub commands_of-append :
    (es fs : List Event) → commands_of (es ++ fs) ≡ commands_of es ++ commands_of fs
commands_of-append [] fs = refl
commands_of-append (issued c ∷ es) fs = ap (◌∷◌ c) (commands_of-append es fs)
commands_of-append (failed f ∷ es) fs = commands_of-append es fs
commands_of-append (applied info c ∷ es) fs = commands_of-append es fs

pub total-append : (xs ys : List (List ℕ)) → total (xs ++ ys) ≡ total xs + total ys
total-append [] ys = omega arith
total-append (x ∷ xs) ys = omega (arith, total-append xs ys)

-- Splitting a value makes it no longer.
length-trim_spaces : (s : List ℕ) → length (trim_spaces s) ≤ length s
unfolding trim_spaces
length-trim_spaces s = omega (arith, length-drop {0}, length-take {0})

total-onto_first : (c : ℕ) (xs : List (List ℕ)) → total (onto_first c xs) ≡ suc (total xs)
total-onto_first c [] = omega arith
total-onto_first c (x ∷ xs) = omega arith

total-pieces : (p : ℕ → Bool) (s : List ℕ) → total (pieces p s) ≤ length s
unfolding pieces
total-pieces p [] = omega arith
total-pieces p (c ∷ s) = elim (Bool-cases (p c)) [
  | inl cut ↦ rw cut (omega (arith, total-pieces p s))
  | inr other ↦ rw other (omega (arith, total-pieces p s, total-onto_first c (pieces p s)))
]

total-keep_token : (b : Bool) (x : List ℕ) → total (keep_token b x) ≤ length x
total-keep_token b x = elim (Bool-cases (not b || not (is_empty x))) [
  | inl kept ↦ rw kept (omega arith)
  | inr dropped ↦ rw dropped (omega arith)
]

total-kept_commands : (xs : List (List ℕ)) → total (kept_commands xs) ≤ total xs
unfolding split_tokens
total-kept_commands [] = omega arith
total-kept_commands (x ∷ xs) = omega (
  arith,
  total-append (keep_token true (trim_spaces x)) (kept_commands xs),
  total-keep_token true (trim_spaces x),
  length-trim_spaces x,
  total-kept_commands xs,
)

pub total-split :
    (value : List ℕ)
    → total (Option.get_or (split_environment_control_commands value) []) ≤ length value
total-split value = rw (split-split_tokens value) (
    omega (arith, total-kept_commands (pieces is_semicolon value), total-pieces is_semicolon value))
