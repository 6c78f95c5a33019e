-- ===== src/Config/RoundTrip.antt =====
-- What the parsers make of a text that the formatters wrote.
use mathlib.Core.List.{reverse, reverse-cons}
use logme.Prelude.{ℕ, ◌≡◌, refl, sym, ap, subst, ◌∙◌, false, List, [], ◌∷◌, ◌++◌, All, arith}
use logme.Text.Trim.{
  to_lower_ascii, IsDigit, EndsPlain, trim_spaces_plain, EndsPlain-append, digits-EndsPlain,
  c_str-digits,
}
use logme.Text.Decimal.{
  to_string, saturate, read_digits, to_string-digits, to_string-cons, read-to_string,
  strtoull-digits,
}
use logme.Config.SmartValue.{
  Suffix, strip_suffix, convert, parse_lowered, parse_smart_value, checked_product,
}
use logme.Config.Strip.{Number}

-- A list of digits ends in a digit.
backwards :
    (c : ℕ) (s : List ℕ)
    → All IsDigit (c ∷ s)
    → (d : ℕ) × (r : List ℕ) × (reverse (c ∷ s) ≡ d ∷ r) × IsDigit d
backwards c [] h = (c, [], refl, h.0)
backwards c (x ∷ s) h =
    let (d, r, e, k) = backwards x s h.1 in
    (d, r ++ c ∷ [], reverse-cons c (x ∷ s) ∙ ap (λ (l : List ℕ). l ++ c ∷ []) e, k)

digits-Number : (c : ℕ) (s : List ℕ) → All IsDigit (c ∷ s) → Number (c ∷ s)
digits-Number c s h =
    let (d, r, e, k) = backwards c s h in
    record {
      last = d;
      front = r;
      backwards = e;
      digit = k;
      trimmed = trim_spaces_plain c s (ground (arith, h.0)) (digits-EndsPlain (c ∷ s) h);
    }

pub to_string-Number : (n : ℕ) → Number (to_string n)
to_string-Number n =
    let (c, s, e) = to_string-cons n in
    subst Number (sym e) (digits-Number c s (subst (All IsDigit) e (to_string-digits n)))

lower-append : (ds t : List ℕ) → All IsDigit ds → to_lower_ascii (ds ++ t) ≡ ds ++ to_lower_ascii t
unfolding to_lower_ascii
lower-append [] t h = refl
lower-append (c ∷ ds) t h = ground (arith, h.0, lower-append ds t h.1)

-- A text of digits and a unit is looked up as written, its unit in lower case.
parse_of_digits :
    (c : ℕ) (s : List ℕ) (x : ℕ) (xs : List ℕ) (table : List Suffix)
    → All IsDigit (c ∷ s)
    → EndsPlain (x ∷ xs)
    → parse_smart_value (c ∷ s ++ x ∷ xs) table
      ≡ parse_lowered (c ∷ s ++ to_lower_ascii (x ∷ xs)) table
unfolding parse_smart_value
parse_of_digits c s x xs table h e = rw (
  trim_spaces_plain c (s ++ x ∷ xs) (ground (arith, h.0)) (EndsPlain-append (c ∷ s) x xs e),
  lower-append (c ∷ s) (x ∷ xs) h,
)

pub parse-to_string :
    (n x : ℕ) (xs : List ℕ) (table : List Suffix)
    → EndsPlain (x ∷ xs)
    → parse_smart_value (to_string n ++ x ∷ xs) table
      ≡ parse_lowered (to_string n ++ to_lower_ascii (x ∷ xs)) table
parse-to_string n x xs table e =
    let (c, s, k) = to_string-cons n in
    subst
      (λ ds.
        parse_smart_value (ds ++ x ∷ xs) table
        ≡ parse_lowered (ds ++ to_lower_ascii (x ∷ xs)) table)
      (sym k) (parse_of_digits c s x xs table (subst (All IsDigit) k (to_string-digits n)) e)

convert_of_digits :
    (n c : ℕ) (s : List ℕ) (mul : ℕ)
    → All IsDigit (c ∷ s)
    → read_digits 0 (c ∷ s) ≡ (n, [])
    → convert (c ∷ s) mul ≡ checked_product (saturate false n) mul
unfolding convert
convert_of_digits n c s mul h e = rw (c_str-digits (c ∷ s) h, strtoull-digits n c s h.0 e)

pub convert-to_string :
    (n mul : ℕ) → convert (to_string n) mul ≡ checked_product (saturate false n) mul
convert-to_string n mul =
    let (c, s, k) = to_string-cons n in
    subst (λ ds. convert ds mul ≡ checked_product (saturate false n) mul) (sym k)
      (convert_of_digits n c s mul (subst (All IsDigit) k (to_string-digits n))
        (subst (λ ds. read_digits 0 ds ≡ (n, [])) k (read-to_string n)))

-- A unit that the search finds is read back.
pub parse-with_unit :
    (n x : ℕ) (xs : List ℕ) (table : List Suffix) (mul : ℕ)
    → EndsPlain (x ∷ xs)
    → strip_suffix (to_string n ++ to_lower_ascii (x ∷ xs)) table ≡ (to_string n, mul)
    → parse_smart_value (to_string n ++ x ∷ xs) table ≡ checked_product (saturate false n) mul
unfolding parse_lowered
parse-with_unit n x xs table mul e h =
    parse-to_string n x xs table e ∙ rw (h, parse_lowered) (convert-to_string n mul)
