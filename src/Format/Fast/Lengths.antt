-- ===== src/Format/Fast/Lengths.antt =====
-- How long the texts of arguments are.
use logme.Prelude.{
  ℕ, zero, suc, ◌+◌, ◌*◌, ◌/◌, ◌%◌, ◌≤◌, ◌<◌, Bool, true, false, ltb, if◌then◌else◌, Option, none,
  some, List, [], ◌∷◌, ◌++◌, length, length-append, All, by_test, arith,
}
use logme.Text.Trim.{codes}
use logme.Text.Decimal.{decimal, to_string}
use logme.Format.Fast.{
  FastFormatKind, no_kind, literal, format_s, format_d, format_i, format_u, format_p, Argument,
  text, integer, natural, address, max_arg_text_size, hexadecimal, hex_digit, arg_text, next_text,
}

-- The least number with more than `k` digits in a base.
abbrev power_of : ℕ → ℕ → ℕ
power_of base zero = 1
power_of base (suc k) = power_of base k * base

one_more : (xs : List ℕ) (d k : ℕ) → length xs ≤ k → length (xs ++ d ∷ []) ≤ suc k
one_more xs d k h = omega (arith, length-append xs (d ∷ []))

decimal-length : (k fuel n : ℕ) → n < power_of 10 (suc k) → length (decimal fuel n) ≤ suc k
unfolding decimal
decimal-length k zero n h = omega arith
decimal-length zero (suc fuel) n h =
    by_test (λ (t : List ℕ). length t ≤ 1) (ltb n 10) (λ small. omega arith) (λ large. ground arith)
decimal-length (suc k) (suc fuel) n h =
    by_test (λ (t : List ℕ). length t ≤ suc (suc k)) (ltb n 10) (λ small. omega arith)
      λ large.
        one_more (decimal fuel (n / 10)) (48 + n % 10) (suc k)
          (decimal-length k fuel (n / 10) (omega arith))

hexadecimal-length : (k fuel n : ℕ) → n < power_of 16 (suc k) → length (hexadecimal fuel n) ≤ suc k
unfolding hexadecimal
hexadecimal-length k zero n h = omega arith
hexadecimal-length zero (suc fuel) n h =
    by_test (λ (t : List ℕ). length t ≤ 1) (ltb n 16) (λ small. omega arith) (λ large. ground arith)
hexadecimal-length (suc k) (suc fuel) n h =
    by_test (λ (t : List ℕ). length t ≤ suc (suc k)) (ltb n 16) (λ small. omega arith)
      λ large.
        one_more (hexadecimal fuel (n / 16)) (hex_digit (n % 16)) (suc k)
          (hexadecimal-length k fuel (n / 16) (omega arith))

-- The values of the types of C++, for 32-bit integers and 64-bit addresses.
abbrev pub InRange : Argument → Type 0
InRange (text t) = Unit
InRange (integer negative n) = n ≤ 0x80000000
InRange (natural n) = n < 0x100000000
InRange (address n) = n < 0x10000000000000000

-- A text, if there is one, with at most `m` bytes.
abbrev pub Fits : ℕ → Option (List ℕ) → Type 0
Fits m none = Unit
Fits m (some t) = length t ≤ m

to_string-length : (n : ℕ) → n < 0x100000000 → length (to_string n) ≤ 10
unfolding to_string
to_string-length n h = decimal-length 9 (suc n) n (omega arith)

signed-length :
    (negative : Bool) (n : ℕ)
    → n ≤ 0x80000000
    → length (if negative then b'-' ∷ to_string n else to_string n) ≤ 11
signed-length true n h = omega (arith, to_string-length n (omega arith))
signed-length false n h = omega (arith, to_string-length n (omega arith))

arg_text-Fits :
    (kind : FastFormatKind) (a : Argument)
    → 0 < max_arg_text_size kind
    → InRange a
    → Fits (max_arg_text_size kind) (arg_text kind a)
unfolding arg_text
arg_text-Fits format_d (integer negative n) p h = signed-length negative n h
arg_text-Fits format_i (integer negative n) p h = signed-length negative n h
arg_text-Fits format_u (natural n) p h = to_string-length n h
arg_text-Fits format_p (address n) p h = omega (
  arith,
  length-append (codes "0x") (hexadecimal (suc n) n),
  hexadecimal-length 15 (suc n) n (omega arith),
)
arg_text-Fits format_s a p h = absurd (omega arith)
arg_text-Fits no_kind a p h = absurd (omega arith)
arg_text-Fits literal a p h = absurd (omega arith)
arg_text-Fits kind a p h = tt

-- The next text, if there is one, with at most `m` bytes, and the arguments behind it in range.
abbrev pub NextFits : ℕ → Option (List ℕ × List Argument) → Type 0
NextFits m none = Unit
NextFits m (some (t, rest)) = (length t ≤ m) × All InRange rest

pub next_text-NextFits :
    (kind : FastFormatKind) (args : List Argument)
    → 0 < max_arg_text_size kind
    → All InRange args
    → NextFits (max_arg_text_size kind) (next_text kind args)
unfolding next_text
next_text-NextFits kind [] p h = tt
next_text-NextFits kind (a ∷ rest) p h =
    with_rest (max_arg_text_size kind) (arg_text kind a) (arg_text-Fits kind a p h.0)
  where
    with_rest :
        (m : ℕ) (t : Option (List ℕ))
        → Fits m t
        → NextFits m (elim t [ none ↦ none | some t ↦ some (t, rest) ])
    with_rest m none g = tt
    with_rest m (some t) g = (g, h.1)
