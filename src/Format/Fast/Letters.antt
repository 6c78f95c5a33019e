-- ===== src/Format/Fast/Letters.antt =====
-- The code's texts of arguments are those of `printf`, letter by letter.
use mathlib.Core.Option
use logme.Prelude.{
  ℕ, zero, suc, ◌+◌, ◌/◌, ◌%◌, ◌≡◌, refl, sym, ap, ◌∙◌, true, false, ◌==◌, ltb, Option, none, some,
  List, [], ◌∷◌, ◌++◌, append_assoc, append-nil, Bool-cases, inl, inr, arith,
}
use logme.Text.Decimal.{decimal, to_string}
use logme.Format.Fast.{
  FastFormatKind, format_s, format_d, format_u, format_p, Argument, text, integer, natural, address,
  kind_of, is_kind, hex_digit, hexadecimal, arg_text, next_text,
}
use logme.Format.Fast.Interpretation.{converted, interpreted}
use logme.Format.Fast.Printf.{
  digit, collect, numeral, of_text, of_int, of_unsigned, of_pointer, conversion, joined,
  with_argument, printf, zero_pointer,
}

hex_digit-digit : (n : ℕ) → hex_digit n ≡ digit n
hex_digit-digit n = ground arith

last_digit : (n : ℕ) → 48 + n % 10 ≡ digit (n % 10)
last_digit n = ground arith

decimal-collect : (fuel n : ℕ) (found : List ℕ) → decimal fuel n ++ found ≡ collect 10 fuel n found
unfolding decimal
decimal-collect zero n found = refl
decimal-collect (suc fuel) n found = elim (Bool-cases (ltb n 10)) [
  | inl small ↦ rw small refl
  | inr large ↦ rw large (
      append_assoc (decimal fuel (n / 10)) ((48 + n % 10) ∷ []) found
      ∙ decimal-collect fuel (n / 10) ((48 + n % 10) ∷ found)
      ∙ ap (λ x. collect 10 fuel (n / 10) (x ∷ found)) (last_digit n))
]

hexadecimal-collect :
    (fuel n : ℕ) (found : List ℕ) → hexadecimal fuel n ++ found ≡ collect 16 fuel n found
unfolding hexadecimal
hexadecimal-collect zero n found = refl
hexadecimal-collect (suc fuel) n found = elim (Bool-cases (ltb n 16)) [
  | inl small ↦ rw small (ap (λ x. x ∷ found) (hex_digit-digit n))
  | inr large ↦ rw large (
      append_assoc (hexadecimal fuel (n / 16)) (hex_digit (n % 16) ∷ []) found
      ∙ hexadecimal-collect fuel (n / 16) (hex_digit (n % 16) ∷ found)
      ∙ ap (λ x. collect 16 fuel (n / 16) (x ∷ found)) (hex_digit-digit (n % 16)))
]

to_string-numeral : (n : ℕ) → to_string n ≡ numeral 10 n
unfolding to_string numeral
to_string-numeral n = sym (append-nil (decimal (suc n) n)) ∙ decimal-collect (suc n) n []

hexadecimal-numeral : (n : ℕ) → hexadecimal (suc n) n ≡ numeral 16 n
unfolding numeral
hexadecimal-numeral n = sym (append-nil (hexadecimal (suc n) n)) ∙ hexadecimal-collect (suc n) n []

arg_text-text : (a : Argument) → arg_text format_s a ≡ of_text a
unfolding arg_text
arg_text-text (text (some t)) = refl
arg_text-text (text none) = refl
arg_text-text a = refl

arg_text-int : (a : Argument) → arg_text format_d a ≡ of_int a
unfolding arg_text
arg_text-int (integer true n) = ap (λ t. some (b'-' ∷ t)) (to_string-numeral n)
arg_text-int (integer false n) = ap some (to_string-numeral n)
arg_text-int a = refl

arg_text-unsigned : (a : Argument) → arg_text format_u a ≡ of_unsigned a
unfolding arg_text
arg_text-unsigned (natural n) = ap some (to_string-numeral n)
arg_text-unsigned a = refl

arg_text-pointer : (a : Argument) → arg_text format_p a ≡ of_pointer zero_pointer a
unfolding arg_text hexadecimal
arg_text-pointer (address zero) = refl
arg_text-pointer (address (suc n)) = ap (λ t. some (b'0' ∷ b'x' ∷ t)) (hexadecimal-numeral (suc n))
arg_text-pointer a = refl

arg_text-conversion : (d : ℕ) (a : Argument) → arg_text (kind_of d) a ≡ conversion zero_pointer d a
unfolding kind_of arg_text
arg_text-conversion d a = elim (Bool-cases (d == b's')) [
  | inl s ↦ rw s (arg_text-text a)
  | inr not_s ↦ elim (Bool-cases (d == b'd')) [
    | inl d_found ↦ rw (not_s, d_found) (arg_text-int a)
    | inr not_d ↦ elim (Bool-cases (d == b'i')) [
      | inl i ↦ rw (not_s, not_d, i) (arg_text-int a)
      | inr not_i ↦ elim (Bool-cases (d == b'u')) [
        | inl u ↦ rw (not_s, not_d, not_i, u) (arg_text-unsigned a)
        | inr not_u ↦ elim (Bool-cases (d == b'p')) [
          | inl p ↦ rw (not_s, not_d, not_i, not_u, p) (arg_text-pointer a)
          | inr not_p ↦ rw (not_s, not_d, not_i, not_u, not_p) refl
        ]
      ]
    ]
  ]
]

converted-joined :
    (o : Option (List ℕ)) (others : List Argument) (rest : List Argument → Option (List ℕ))
    → converted (elim o [ none ↦ none | some t ↦ some (t, others) ]) rest
      ≡ joined zero_pointer o (rest others)
converted-joined none others rest = refl
converted-joined (some t) others rest = refl

next_text-with_argument :
    (d : ℕ) (args : List Argument) (rest : List Argument → Option (List ℕ))
    → converted (next_text (kind_of d) args) rest ≡ with_argument zero_pointer d args rest
unfolding next_text
next_text-with_argument d [] rest = refl
next_text-with_argument d (a ∷ others) rest =
    converted-joined (arg_text (kind_of d) a) others rest
    ∙ ap (λ o. joined zero_pointer o (rest others)) (arg_text-conversion d a)

next_text-refused :
    (kind : FastFormatKind) (args : List Argument)
    → is_kind kind ≡ false
    → next_text kind args ≡ none
unfolding next_text arg_text
next_text-refused kind [] h = refl
next_text-refused FastFormatKind.no_kind (a ∷ args) h = refl
next_text-refused FastFormatKind.literal (a ∷ args) h = refl
next_text-refused kind (a ∷ args) h = absurd (cc)

converted-rest :
    (o : Option (List ℕ × List Argument)) (r r' : List Argument → Option (List ℕ))
    → ((args : List Argument) → r args ≡ r' args)
    → converted o r ≡ converted o r'
converted-rest none r r' h = refl
converted-rest (some (t, others)) r r' h = ap (Option.map (◌++◌ t)) (h others)

-- What the code's analysis of a format prints is what `printf` does.
pub interpreted-printf :
    (f : List ℕ) (args : List Argument) → interpreted f args ≡ printf zero_pointer f args
unfolding interpreted printf
interpreted-printf [] args = refl
interpreted-printf (c ∷ []) args = elim (Bool-cases (c == b'%')) [
  | inl percent ↦ rw percent refl
  | inr other ↦ rw other refl
]
interpreted-printf (c ∷ d ∷ s) args = elim (Bool-cases (c == b'%')) [
  | inr other ↦ rw other (ap (Option.map (◌∷◌ c)) (interpreted-printf (d ∷ s) args))
  | inl percent ↦
      let same =
        converted-rest (next_text (kind_of d) args) (interpreted s) (printf zero_pointer s)
          (interpreted-printf s)
        ∙ next_text-with_argument d args (printf zero_pointer s) in
      elim (Bool-cases (is_kind (kind_of d))) [
        | inl known ↦ rw (percent, known) same
        | inr unknown ↦
            rw (percent, unknown)
              (sym (
                  ap (λ o. converted o (interpreted s))
                    (next_text-refused (kind_of d) args unknown))
                ∙ same)
      ]
]
