-- ===== src/Config/Lenient.antt =====
-- Texts that the parsers accept for a value that they do not name.
use mathlib.Core.List.{reverse, reverse-reverse, reverse-cons}
use logme.Prelude.{
  ℕ, ◌-◌, ◌≤◌, ◌<◌, ◌≡◌, refl, sym, ap, subst, ◌∙◌, false, none, some, List, [], ◌∷◌, ◌++◌, All,
  u64_mod, arith,
}
use logme.Text.Trim.{
  codes, to_lower_ascii, trim_spaces_plain, c_str, c_str-digits, IsDigit, is_digit,
  digits-EndsPlain, to_lower-digits,
}
use logme.Text.Search.{ends_with, starts_with}
use logme.Text.Decimal.{
  to_string, to_string-cons, to_string-digits, read-to_string, read_digits, strtoull-minus,
}
use logme.Config.SmartValue.{strip_suffix, convert, parse_lowered, parse_smart_value}
use logme.Config.Units.{byte_size_suffixes, parse_byte_size}
use logme.Config.Strip.{Number}
use logme.Config.RoundTrip.{to_string-Number}
use logme.Config.Readers.{read_gb, read_b}

-- A number out of the range of 64 bits is refused with a unit of more than one byte, but is taken
-- for 2 ^ 64 - 1 bytes.
pub parse-too_large :
    (n : ℕ)
    → u64_mod ≤ n
    → (parse_byte_size (to_string n ++ codes "Gb") ≡ none)
      × (parse_byte_size (to_string n ++ codes "b") ≡ some (u64_mod - 1))
parse-too_large n h = (read_gb n ∙ ground arith, read_b n ∙ ground arith)

ends_with-miss :
    (v : List ℕ) (d : ℕ) (r : List ℕ) (x : ℕ) (xs : List ℕ)
    → reverse v ≡ d ∷ r
    → IsDigit d
    → is_digit x ≡ false
    → ends_with v (reverse (x ∷ xs)) ≡ false
unfolding ends_with starts_with
ends_with-miss v d r x xs e h k = rw (e, reverse-reverse (x ∷ xs)) (ground arith)

-- A text that ends in a digit has no unit.
strip_none :
    (v : List ℕ) (d : ℕ) (r : List ℕ)
    → reverse v ≡ d ∷ r
    → IsDigit d
    → strip_suffix v byte_size_suffixes ≡ (v, 1)
unfolding strip_suffix byte_size_suffixes
strip_none v d r e h =
    let m : (x : ℕ) (xs : List ℕ) → is_digit x ≡ false → ends_with v (reverse (x ∷ xs)) ≡ false =
      λ x xs. ends_with-miss v d r x xs e h in
    rw (
      m 98 (codes "g") refl,
      m 98 (codes "ig") refl,
      m 103 [] refl,
      m 98 (codes "m") refl,
      m 98 (codes "im") refl,
      m 109 [] refl,
      m 98 (codes "k") refl,
      m 98 (codes "ik") refl,
      m 107 [] refl,
      m 98 [] refl,
    )

lower-minus : (l : List ℕ) → All IsDigit l → to_lower_ascii (b'-' ∷ l) ≡ b'-' ∷ l
unfolding to_lower_ascii
lower-minus l q = ap (λ (t : List ℕ). b'-' ∷ t) (to_lower-digits l q)

parse-minus :
    (n c : ℕ) (s : List ℕ)
    → 0 < n
    → n < u64_mod
    → Number (c ∷ s)
    → All IsDigit (c ∷ s)
    → read_digits 0 (c ∷ s) ≡ (n, [])
    → parse_byte_size (b'-' ∷ c ∷ s) ≡ some (u64_mod - n)
unfolding parse_byte_size parse_smart_value parse_lowered convert c_str
parse-minus n c s h k b ds e =
    let backwards : reverse (b'-' ∷ c ∷ s) ≡ b.last ∷ (b.front ++ b'-' ∷ []) =
      reverse-cons b'-' (c ∷ s) ∙ ap (λ (l : List ℕ). l ++ b'-' ∷ []) b.backwards in
    rw
      (
        trim_spaces_plain b'-' (c ∷ s) refl (digits-EndsPlain (c ∷ s) ds),
        lower-minus (c ∷ s) ds,
        strip_none (b'-' ∷ c ∷ s) b.last (b.front ++ b'-' ∷ []) backwards b.digit,
        c_str-digits (c ∷ s) ds,
        strtoull-minus n c s ds.0 e,
      )
      (ground arith)

-- A negative size is accepted, for a huge one.
pub parse-negative :
    (n : ℕ) → 0 < n → n < u64_mod → parse_byte_size (b'-' ∷ to_string n) ≡ some (u64_mod - n)
parse-negative n h k =
    let (c, s, e) = to_string-cons n in
    subst (λ (ds : List ℕ). parse_byte_size (b'-' ∷ ds) ≡ some (u64_mod - n)) (sym e)
      (parse-minus n c s h k (subst Number e (to_string-Number n))
        (subst (All IsDigit) e (to_string-digits n))
        (subst (λ ds. read_digits 0 ds ≡ (n, [])) e (read-to_string n)))
