-- ===== src/Text/Trim.antt =====
-- `TrimSpaces` and `ToLowerAsciiInplace` of Utils.cpp, and `std::string::c_str`.
use Prim.Native.Char.{code}
use Prim.Native.String.{String}
use logme.Prelude.{
  ℕ, suc, ◌+◌, ◌≡◌, refl, Bool, true, false, ◌&&◌, ◌||◌, ◌==◌, leb, if◌then◌else◌, List, [], ◌∷◌,
  ◌++◌, length, take, drop, map, arith, All, take_all,
}

-- The bytes of a text, if it is ASCII.
abbrev pub codes : String → List ℕ
codes String.[] = []
codes (String.◌∷◌ c s) = code c ∷ codes s

-- " \t\n\r\f\v", which is also what `isspace` accepts.
abbrev pub is_space : ℕ → Bool
is_space c = c == 32 || (c == 9 || (c == 10 || (c == 13 || (c == 12 || c == 11))))

-- `find_last_not_of(spaces) + 1`, which is 0 where nothing is found.
unfoldable pub last_not_of_end : List ℕ → ℕ
last_not_of_end [] = 0
last_not_of_end (c ∷ s) =
    let n = last_not_of_end s in if n == 0 then (if is_space c then 0 else 1) else n + 1

-- `find_first_not_of(spaces)`; the length where nothing is found.
unfoldable pub first_not_of : List ℕ → ℕ
first_not_of [] = 0
first_not_of (c ∷ s) = if is_space c then suc (first_not_of s) else 0

unfoldable pub trim_spaces : List ℕ → List ℕ
unfolding last_not_of_end first_not_of
trim_spaces s = let v = take (last_not_of_end s) s in drop (first_not_of v) v

-- `tolower` in the "C" locale.
abbrev pub to_lower : ℕ → ℕ
to_lower c = if leb 65 c && leb c 90 then c + 32 else c

unfoldable pub to_lower_ascii : List ℕ → List ℕ
to_lower_ascii = map to_lower

-- What a reader of `c_str()` sees: the bytes before the first zero.
unfoldable pub c_str : List ℕ → List ℕ
c_str [] = []
c_str (c ∷ s) = if c == 0 then [] else c ∷ c_str s

abbrev pub is_digit : ℕ → Bool
is_digit c = leb 48 c && leb c 57

abbrev pub IsDigit : ℕ → Type 0
IsDigit c = is_digit c ≡ true

-- The end of a text is no space.
abbrev pub EndsPlain : List ℕ → Type 0
EndsPlain [] = Unit
EndsPlain (c ∷ []) = is_space c ≡ false
EndsPlain (c ∷ d ∷ s) = EndsPlain (d ∷ s)

last_not_of_end_plain : (s : List ℕ) → EndsPlain s → last_not_of_end s ≡ length s
unfolding last_not_of_end
last_not_of_end_plain [] h = refl
last_not_of_end_plain (c ∷ []) h = ground arith
last_not_of_end_plain (c ∷ d ∷ s) h = ground (arith, last_not_of_end_plain (d ∷ s) h)

-- A text with no space at its ends stays as it is.
pub trim_spaces_plain :
    (c : ℕ) (s : List ℕ) → is_space c ≡ false → EndsPlain (c ∷ s) → trim_spaces (c ∷ s) ≡ c ∷ s
unfolding trim_spaces
trim_spaces_plain c s h e =
    rw (last_not_of_end_plain (c ∷ s) e, take_all s (length s) (omega arith)) (rw h)

pub EndsPlain-append :
    (s : List ℕ) (c : ℕ) (t : List ℕ) → EndsPlain (c ∷ t) → EndsPlain (s ++ c ∷ t)
EndsPlain-append [] c t h = h
EndsPlain-append (x ∷ []) c t h = h
EndsPlain-append (x ∷ y ∷ s) c t h = EndsPlain-append (y ∷ s) c t h

pub digits-EndsPlain : (s : List ℕ) → All IsDigit s → EndsPlain s
digits-EndsPlain [] h = tt
digits-EndsPlain (c ∷ []) h = ground arith
digits-EndsPlain (c ∷ d ∷ s) h = digits-EndsPlain (d ∷ s) h.1

pub to_lower-digits : (s : List ℕ) → All IsDigit s → to_lower_ascii s ≡ s
unfolding to_lower_ascii
to_lower-digits [] h = refl
to_lower-digits (c ∷ s) h = ground (arith, to_lower-digits s h.1)

pub c_str-digits : (s : List ℕ) → All IsDigit s → c_str s ≡ s
unfolding c_str
c_str-digits [] h = refl
c_str-digits (c ∷ s) h = ground (arith, c_str-digits s h.1)
