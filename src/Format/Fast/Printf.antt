-- ===== src/Format/Fast/Printf.antt =====
-- What `printf` prints for the conversions s, d, i, u and p, in a definition that shares nothing with
-- the code but the type of the arguments.
use mathlib.Core.Option
use logme.Prelude.{
  ℕ, zero, suc, ◌+◌, ◌-◌, ◌/◌, ◌%◌, true, false, ◌||◌, ◌==◌, ltb, if◌then◌else◌, Option, none, some,
  List, [], ◌∷◌, ◌++◌,
}
use logme.Text.Trim.{codes}
use logme.Format.Fast.{Argument, text, integer, natural, address}

-- The digits 0 to 9 and a to f.
abbrev pub digit : ℕ → ℕ
digit n = if ltb n 10 then b'0' + n else b'a' + (n - 10)

-- The digits of a number, the last one first, put before `found`.
abbrev pub collect : (base fuel : ℕ) → ℕ → List ℕ → List ℕ
collect base zero n found = found
collect base (suc fuel) n found =
    let more = collect base fuel (n / base) (digit (n % base) ∷ found) in
    if ltb n base then digit n ∷ found else more

unfoldable pub numeral : (base : ℕ) → ℕ → List ℕ
numeral base n = collect base (suc n) n []

abbrev pub of_text : Argument → Option (List ℕ)
of_text (text (some t)) = some t
of_text (text none) = some (codes "(null)")
of_text a = none

abbrev pub of_int : Argument → Option (List ℕ)
of_int (integer true n) = some (b'-' ∷ numeral 10 n)
of_int (integer false n) = some (numeral 10 n)
of_int a = none

abbrev pub of_unsigned : Argument → Option (List ℕ)
of_unsigned (natural n) = some (numeral 10 n)
of_unsigned a = none

-- The text of a null pointer is `nil`: (nil) in glibc.
abbrev pub of_pointer : (nil : List ℕ) → Argument → Option (List ℕ)
of_pointer nil (address zero) = some nil
of_pointer nil (address (suc n)) = some (b'0' ∷ b'x' ∷ numeral 16 (suc n))
of_pointer nil a = none

module _ (nil : List ℕ) where
  -- The text of an argument under a conversion, by its letter.
  abbrev pub conversion : ℕ → Argument → Option (List ℕ)
  conversion d a =
      if d == b's'
      then of_text a
      else if d == b'd' || d == b'i'
      then of_int a
      else if d == b'u'
      then of_unsigned a
      else if d == b'p'
      then of_pointer nil a
      else none

  abbrev pub joined : Option (List ℕ) → Option (List ℕ) → Option (List ℕ)
  joined none o = none
  joined (some t) o = Option.map (◌++◌ t) o

  abbrev pub with_argument : ℕ → List Argument → (List Argument → Option (List ℕ)) → Option (List ℕ)
  with_argument d [] rest = none
  with_argument d (a ∷ others) rest = joined (conversion d a) (rest others)

  -- The text that is printed; `none` for another conversion, and where an argument is missing or of
  -- another type.
  unfoldable pub printf : List ℕ → List Argument → Option (List ℕ)
  unfolding numeral
  printf [] args = some []
  printf (c ∷ []) args = if c == b'%' then none else some (c ∷ [])
  printf (c ∷ d ∷ s) args =
      let plain = printf (d ∷ s) args in
      let converted = with_argument d args (printf s) in
      if c == b'%' then converted else Option.map (◌∷◌ c) plain

-- The text that the code has for a null pointer.
abbrev pub zero_pointer : List ℕ
zero_pointer = codes "0x0"
