-- ===== src/Config/Formats.antt =====
-- Formatting a value and parsing the result: what comes back.
use logme.Prelude.{
  ℕ, ◌/◌, ◌%◌, ◌<◌, ◌≡◌, refl, ◌∙◌, Bool, true, false, not, ◌&&◌, ◌||◌, ◌==◌, if◌then◌else◌, none,
  some, List, ◌++◌, u64_mod, arith, Bool-cases, ◌⊎◌, inl, inr,
}
use logme.Text.Trim.{codes}
use logme.Text.Decimal.{to_string}
use logme.Config.SmartValue.{format_smart_value, format_with}
use logme.Config.Units.{
  byte_size_suffixes, interval_suffixes, parse_byte_size, format_byte_size, parse_interval,
  format_interval,
}
use logme.Config.Readers.{
  exact_gb, exact_mb, exact_kb, exact_one, exact_w, exact_d, exact_h, exact_min, exact_s, read_gb,
  read_mb, read_kb, read_b, read_w, read_d, read_h, read_min, read_s, read_ms,
}

or_true : (b : Bool) → (b || true) ≡ true
or_true true = refl
or_true false = refl

-- A unit is taken where it divides the value; zero is written in a unit of 1 alone.
format_with-cases :
    (P : List ℕ → Type 0) (v m : ℕ) (name rest : List ℕ)
    → (m == 0) ≡ false
    → ((v % m == 0) ≡ true → ((v == 0) ≡ false) ⊎ ((m == 1) ≡ true) → P (to_string (v / m) ++ name))
    → (((v % m == 0) ≡ false) ⊎ (((v == 0) ≡ true) × ((m == 1) ≡ false)) → P rest)
    → P (format_with v m (some name) rest)
unfolding format_with
format_with-cases P v m name rest z chosen passed = elim (Bool-cases (v % m == 0)) [
  | inl divides ↦ elim (Bool-cases (v == 0)) [
    | inl none_left ↦ elim (Bool-cases (m == 1)) [
      | inl one ↦ rw (z, none_left, one, divides) (chosen divides (inr one))
      | inr more ↦ rw (z, none_left, more) (passed (inr (none_left, more)))
    ]
    | inr some_left ↦ rw (z, some_left, divides) (chosen divides (inl some_left))
  ]
  | inr other ↦ rw (z, other) (rw (or_true ((v == 0) && not (m == 1))) (passed (inl other)))
]

-- The unit of 1 is always taken.
never_passed : (v : ℕ) → ¬ (((v % 1 == 0) ≡ false) ⊎ (((v == 0) ≡ true) × ((1 == 1) ≡ false)))
never_passed v (inl e) = ground arith
never_passed v (inr (_, e)) = cc

-- What is read back from a number of bytes.
BytesBack : ℕ → List ℕ → Type 0
BytesBack v t = parse_byte_size t ≡ some v

-- A size in bytes that was formatted is parsed to the same size.
pub parse-format_byte_size : (v : ℕ) → v < u64_mod → parse_byte_size (format_byte_size v) ≡ some v
unfolding format_byte_size format_smart_value byte_size_suffixes format_with BytesBack
parse-format_byte_size v h =
    let P = BytesBack v in
    format_with-cases P v 1_073_741_824 (codes "Gb") _ refl
      (λ k _. read_gb (v / 1_073_741_824) ∙ exact_gb v h k)
      λ _.
        format_with-cases P v 1_048_576 (codes "Mb") _ refl
          (λ k _. read_mb (v / 1_048_576) ∙ exact_mb v h k)
          λ _.
            format_with-cases P v 1024 (codes "Kb") _ refl
              (λ k _. read_kb (v / 1024) ∙ exact_kb v h k)
              λ _.
                format_with-cases P v 1 (codes "b") _ refl (λ k _. read_b (v / 1) ∙ exact_one v h k)
                  (λ o. absurd (never_passed v o))

-- What is read back from a number of milliseconds.
IntervalBack : ℕ → List ℕ → Type 0
IntervalBack v t = parse_interval t ≡ (if (v == 0) || not (v % 1000 == 0) then none else some v)

-- A time that was formatted is parsed to the same time where it is a positive number of whole
-- seconds. Any other is written in "ms", which the parser takes for a number of seconds with a
-- stray letter, and refuses.
pub parse-format_interval :
    (v : ℕ)
    → v < u64_mod
    → parse_interval (format_interval v)
      ≡ (if (v == 0) || not (v % 1000 == 0) then none else some v)
unfolding format_interval format_smart_value interval_suffixes format_with IntervalBack
parse-format_interval v h =
    let P = IntervalBack v in
    format_with-cases P v 604_800_000 (codes "w") _ refl
      (λ k o. read_w (v / 604_800_000) ∙ exact_w v h k ∙ ground arith)
      λ _.
        format_with-cases P v 86_400_000 (codes "d") _ refl
          (λ k o. read_d (v / 86_400_000) ∙ exact_d v h k ∙ ground arith)
          λ _.
            format_with-cases P v 3_600_000 (codes "h") _ refl
              (λ k o. read_h (v / 3_600_000) ∙ exact_h v h k ∙ ground arith)
              λ _.
                format_with-cases P v 60_000 (codes "min") _ refl
                  (λ k o. read_min (v / 60_000) ∙ exact_min v h k ∙ ground arith)
                  λ _.
                    format_with-cases P v 1000 (codes "s") _ refl
                      (λ k o. read_s (v / 1000) ∙ exact_s v h k ∙ ground arith)
                      λ odd.
                        format_with-cases P v 1 (codes "ms") _ refl
                          (λ k _. read_ms (v / 1) ∙ ground arith) (λ o. absurd (never_passed v o))
