-- ===== src/Config/Readers.antt =====
-- What the parsers make of the digits of a number and a unit.
use logme.Prelude.{
  ℕ, ◌/◌, ◌%◌, ◌<◌, ◌≡◌, refl, sym, subst, ◌∙◌, true, false, ◌==◌, none, some, List, [], ◌∷◌, ◌++◌,
  u64_mod, arith, All,
}
use logme.Text.Trim.{
  codes, to_lower_ascii, EndsPlain-append, trim_spaces, trim_spaces_plain, c_str, IsDigit,
}
use logme.Text.Decimal.{to_string, saturate, to_string-cons, to_string-digits, strtoull-stop}
use logme.Config.SmartValue.{convert, checked_product, parse_lowered}
use logme.Config.Units.{byte_size_suffixes, interval_suffixes, parse_byte_size, parse_interval}
use logme.Config.Strip.{
  strip_gb, strip_mb, strip_kb, strip_b, strip_w, strip_d, strip_h, strip_min, strip_s, strip_ms,
}
use logme.Config.RoundTrip.{to_string-Number, parse-with_unit, parse-to_string}

-- The part of the check that is left once the text is read, for a value that the unit divides.
abbrev pub Quotient : ℕ → Type 0
Quotient mul =
    (v : ℕ)
    → v < u64_mod
    → (v % mul == 0) ≡ true
    → checked_product (saturate false (v / mul)) mul ≡ some v

pub exact_gb : Quotient 1_073_741_824
exact_gb v h k = ground arith

pub exact_mb : Quotient 1_048_576
exact_mb v h k = ground arith

pub exact_kb : Quotient 1024
exact_kb v h k = ground arith

pub exact_one : Quotient 1
exact_one v h k = ground arith

pub exact_w : Quotient 604_800_000
exact_w v h k = ground arith

pub exact_d : Quotient 86_400_000
exact_d v h k = ground arith

pub exact_h : Quotient 3_600_000
exact_h v h k = ground arith

pub exact_min : Quotient 60_000
exact_min v h k = ground arith

pub exact_s : Quotient 1000
exact_s v h k = ground arith

pub read_gb :
    (n : ℕ)
    → parse_byte_size (to_string n ++ codes "Gb") ≡ checked_product (saturate false n) 1_073_741_824
unfolding parse_byte_size to_lower_ascii
read_gb n =
    parse-with_unit n 71 (codes "b") byte_size_suffixes 1_073_741_824 refl
      (strip_gb (to_string n) (to_string-Number n))

pub read_mb :
    (n : ℕ)
    → parse_byte_size (to_string n ++ codes "Mb") ≡ checked_product (saturate false n) 1_048_576
unfolding parse_byte_size to_lower_ascii
read_mb n =
    parse-with_unit n 77 (codes "b") byte_size_suffixes 1_048_576 refl
      (strip_mb (to_string n) (to_string-Number n))

pub read_kb :
    (n : ℕ) → parse_byte_size (to_string n ++ codes "Kb") ≡ checked_product (saturate false n) 1024
unfolding parse_byte_size to_lower_ascii
read_kb n =
    parse-with_unit n 75 (codes "b") byte_size_suffixes 1024 refl
      (strip_kb (to_string n) (to_string-Number n))

pub read_b :
    (n : ℕ) → parse_byte_size (to_string n ++ codes "b") ≡ checked_product (saturate false n) 1
unfolding parse_byte_size to_lower_ascii
read_b n =
    parse-with_unit n 98 (codes "") byte_size_suffixes 1 refl
      (strip_b (to_string n) (to_string-Number n))

pub read_w :
    (n : ℕ)
    → parse_interval (to_string n ++ codes "w") ≡ checked_product (saturate false n) 604_800_000
unfolding parse_interval to_lower_ascii
read_w n =
    parse-with_unit n 119 (codes "") interval_suffixes 604_800_000 refl
      (strip_w (to_string n) (to_string-Number n))

pub read_d :
    (n : ℕ)
    → parse_interval (to_string n ++ codes "d") ≡ checked_product (saturate false n) 86_400_000
unfolding parse_interval to_lower_ascii
read_d n =
    parse-with_unit n 100 (codes "") interval_suffixes 86_400_000 refl
      (strip_d (to_string n) (to_string-Number n))

pub read_h :
    (n : ℕ)
    → parse_interval (to_string n ++ codes "h") ≡ checked_product (saturate false n) 3_600_000
unfolding parse_interval to_lower_ascii
read_h n =
    parse-with_unit n 104 (codes "") interval_suffixes 3_600_000 refl
      (strip_h (to_string n) (to_string-Number n))

pub read_min :
    (n : ℕ)
    → parse_interval (to_string n ++ codes "min") ≡ checked_product (saturate false n) 60_000
unfolding parse_interval to_lower_ascii
read_min n =
    parse-with_unit n 109 (codes "in") interval_suffixes 60_000 refl
      (strip_min (to_string n) (to_string-Number n))

pub read_s :
    (n : ℕ) → parse_interval (to_string n ++ codes "s") ≡ checked_product (saturate false n) 1000
unfolding parse_interval to_lower_ascii
read_s n =
    parse-with_unit n 115 (codes "") interval_suffixes 1000 refl
      (strip_s (to_string n) (to_string-Number n))

c_str_of_digits :
    (s : List ℕ) (x : ℕ) → All IsDigit s → (x == 0) ≡ false → c_str (s ++ x ∷ []) ≡ s ++ x ∷ []
unfolding c_str
c_str_of_digits [] x h k = rw k
c_str_of_digits (c ∷ s) x h k = ground (arith, h.0, c_str_of_digits s x h.1 k)

-- A letter behind the digits, where the unit has been cut off already, is an error.
convert_of_rest :
    (c : ℕ) (s : List ℕ) (mul : ℕ)
    → All IsDigit (c ∷ s)
    → convert (trim_spaces (c ∷ s ++ codes "m")) mul ≡ none
unfolding convert
convert_of_rest c s mul h = rw (
  trim_spaces_plain c (s ++ codes "m") (ground (arith, h.0)) (EndsPlain-append (c ∷ s) 109 [] refl),
  c_str_of_digits (c ∷ s) 109 h refl,
  strtoull-stop c 109 s [] h refl,
)

pub read_ms : (n : ℕ) → parse_interval (to_string n ++ codes "ms") ≡ none
unfolding parse_interval to_lower_ascii parse_lowered
read_ms n =
    let (c, s, k) = to_string-cons n in
    let stop =
      subst (λ ds. convert (trim_spaces (ds ++ codes "m")) 1000 ≡ none) (sym k)
        (convert_of_rest c s 1000 (subst (All IsDigit) k (to_string-digits n))) in
    parse-to_string n 109 (codes "s") interval_suffixes refl
    ∙ rw (strip_ms (to_string n) (to_string-Number n), parse_lowered) stop
