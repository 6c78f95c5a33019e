-- ===== src/Text/Decimal.antt =====
-- `std::to_string` of an unsigned number, and `strtoull` in base 10.
use logme.Prelude.{
  ℕ, zero, suc, ◌+◌, ◌-◌, ◌*◌, ◌/◌, ◌%◌, ◌<◌, ◌≡◌, refl, ◌∙◌, ap, Bool, true, false, ◌==◌, leb, ltb,
  if◌then◌else◌, List, [], ◌∷◌, ◌++◌, arith, All, All-append, u64_mod, Bool-cases, inl, inr,
}
use logme.Text.Trim.{is_space, is_digit, IsDigit}

-- The digits of `n`, the first one first; as many rounds as `n + 1` are enough.
unfoldable pub decimal : ℕ → ℕ → List ℕ
decimal zero n = []
decimal (suc fuel) n =
    let more = decimal fuel (n / 10) ++ (48 + n % 10) ∷ [] in
    if ltb n 10 then (48 + n) ∷ [] else more

unfoldable pub to_string : ℕ → List ℕ
unfolding decimal
to_string n = decimal (suc n) n

-- The digits at the front, read onto `acc`, and what follows them.
unfoldable pub read_digits : ℕ → List ℕ → ℕ × List ℕ
read_digits acc [] = (acc, [])
read_digits acc (c ∷ s) =
    let more = read_digits (acc * 10 + (c - 48)) s in if is_digit c then more else (acc, c ∷ s)

unfoldable pub skip_spaces : List ℕ → List ℕ
skip_spaces [] = []
skip_spaces (c ∷ s) = if is_space c then skip_spaces s else c ∷ s

-- Out of range the result is ULLONG_MAX; a minus sign negates in the unsigned type.
abbrev pub saturate : Bool → ℕ → ℕ
saturate negative n =
    if leb u64_mod n then u64_mod - 1 else if negative then (u64_mod - n) % u64_mod else n

-- From behind the sign. Where no digit follows, nothing is read: the rest is the whole text.
unfoldable pub unsigned_from : Bool → List ℕ → List ℕ → ℕ × List ℕ
unfolding read_digits
unsigned_from negative whole [] = (0, whole)
unsigned_from negative whole (c ∷ s) =
    let (n, rest) = read_digits 0 (c ∷ s) in
    if is_digit c then (saturate negative n, rest) else (0, whole)

unfoldable pub after_spaces : List ℕ → List ℕ → ℕ × List ℕ
unfolding unsigned_from
after_spaces whole [] = (0, whole)
after_spaces whole (c ∷ s) =
    if c == b'-'
    then unsigned_from true whole s
    else if c == b'+'
    then unsigned_from false whole s
    else unsigned_from false whole (c ∷ s)

-- The value, and the text from `*endptr` on.
unfoldable pub strtoull : List ℕ → ℕ × List ℕ
unfolding skip_spaces after_spaces
strtoull s = after_spaces s (skip_spaces s)

value_of : ℕ → List ℕ → ℕ
value_of acc [] = acc
value_of acc (c ∷ s) = value_of (acc * 10 + (c - 48)) s

value_of-snoc :
    (acc : ℕ) (s : List ℕ) (c : ℕ) → value_of acc (s ++ c ∷ []) ≡ value_of acc s * 10 + (c - 48)
unfolding value_of
value_of-snoc acc [] c = refl
value_of-snoc acc (x ∷ s) c = value_of-snoc (acc * 10 + (x - 48)) s c

read_digits_through :
    (acc : ℕ) (s : List ℕ) → All IsDigit s → read_digits acc s ≡ (value_of acc s, [])
unfolding read_digits value_of
read_digits_through acc [] h = refl
read_digits_through acc (c ∷ s) h = rw h.0 (read_digits_through (acc * 10 + (c - 48)) s h.1)

decimal-digits : (fuel n : ℕ) → n < fuel → All IsDigit (decimal fuel n)
unfolding decimal
decimal-digits zero n h = elim h [ ]
decimal-digits (suc fuel) n h = elim (Bool-cases (ltb n 10)) [
  | inl small ↦ rw small (ground arith, tt)
  | inr large ↦ rw large (
      All-append IsDigit (decimal fuel (n / 10)) _ (decimal-digits fuel (n / 10) (ground arith))
        (ground arith, tt))
]

decimal-value : (fuel n : ℕ) → n < fuel → value_of 0 (decimal fuel n) ≡ n
unfolding decimal
decimal-value zero n h = elim h [ ]
decimal-value (suc fuel) n h = elim (Bool-cases (ltb n 10)) [
  | inl small ↦ rw small (unfold value_of in omega arith)
  | inr large ↦
      rw
        (
          large,
          value_of-snoc 0 (decimal fuel (n / 10)) (48 + n % 10),
          decimal-value fuel (n / 10) (ground arith),
        )
        (omega arith)
]

pub to_string-digits : (n : ℕ) → All IsDigit (to_string n)
unfolding to_string
to_string-digits n = decimal-digits (suc n) n (omega arith)

-- `strtoull` reads a number that `to_string` wrote, to its end.
pub read-to_string : (n : ℕ) → read_digits 0 (to_string n) ≡ (n, [])
unfolding to_string
read-to_string n =
    read_digits_through 0 (decimal (suc n) n) (decimal-digits (suc n) n (omega arith))
    ∙ ap (λ (k : ℕ). (k, [])) (decimal-value (suc n) n (omega arith))

snoc-cons : (xs : List ℕ) (d : ℕ) → (c : ℕ) × (s : List ℕ) × (xs ++ d ∷ [] ≡ c ∷ s)
snoc-cons [] d = (d, [], refl)
snoc-cons (x ∷ xs) d = (x, xs ++ d ∷ [], refl)

pub to_string-cons : (n : ℕ) → (c : ℕ) × (s : List ℕ) × (to_string n ≡ c ∷ s)
unfolding to_string
to_string-cons n = elim (Bool-cases (ltb n 10)) [
  | inl small ↦ (48 + n, [], rw (decimal, small))
  | inr large ↦
      let (c, s, e) = snoc-cons (decimal n (n / 10)) (48 + n % 10) in (c, s, rw (decimal, large) e)
]

-- `strtoull` on the digits of a number, with or without a minus sign before them.
pub strtoull-digits :
    (n c : ℕ) (s : List ℕ)
    → is_digit c ≡ true
    → read_digits 0 (c ∷ s) ≡ (n, [])
    → strtoull (c ∷ s) ≡ (saturate false n, [])
unfolding strtoull
strtoull-digits n c s h e = ground arith

pub strtoull-minus :
    (n c : ℕ) (s : List ℕ)
    → is_digit c ≡ true
    → read_digits 0 (c ∷ s) ≡ (n, [])
    → strtoull (b'-' ∷ c ∷ s) ≡ (saturate true n, [])
unfolding strtoull
strtoull-minus n c s h e = ground arith

read_digits-stop :
    (acc c : ℕ) (s t : List ℕ)
    → All IsDigit s
    → is_digit c ≡ false
    → read_digits acc (s ++ c ∷ t) ≡ (value_of acc s, c ∷ t)
unfolding read_digits value_of
read_digits-stop acc c [] t h k = rw k
read_digits-stop acc c (x ∷ s) t h k = rw h.0 (read_digits-stop (acc * 10 + (x - 48)) c s t h.1 k)

-- Where something else follows the digits, `strtoull` stops before it.
pub strtoull-stop :
    (x c : ℕ) (s t : List ℕ)
    → All IsDigit (x ∷ s)
    → is_digit c ≡ false
    → (strtoull (x ∷ s ++ c ∷ t)).1 ≡ c ∷ t
unfolding strtoull
strtoull-stop x c s t h k = ground (arith, read_digits-stop 0 c (x ∷ s) t h k)
