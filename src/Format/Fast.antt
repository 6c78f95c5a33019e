-- ===== src/Format/Fast.antt =====
-- FastFormat.cpp: the formats that are printed without `vsnprintf`. A format is the bytes before its
-- terminating zero.
pub mod Copying
pub mod Interpretation
pub mod Printf
pub mod Letters
pub mod Refusal
pub mod Equivalence
pub mod Execution
pub mod Lengths
pub mod Sizes
pub mod Hints
use logme.Prelude.{
  ℕ, zero, suc, ◌+◌, ◌-◌, ◌*◌, ◌/◌, ◌%◌, Bool, true, false, not, ◌&&◌, ◌||◌, ◌==◌, ltb, leb,
  if◌then◌else◌, Option, none, some, List, [], ◌∷◌, ◌++◌, length, take, drop, get_or, min,
}
use logme.Text.Trim.{codes}
use logme.Text.Decimal.{to_string}

pub data FastFormatKind : Type 0 where
  no_kind : FastFormatKind
  literal : FastFormatKind
  format_s : FastFormatKind
  format_d : FastFormatKind
  format_i : FastFormatKind
  format_u : FastFormatKind
  format_p : FastFormatKind

pub record FastFormatEntry : Type 0 where
  pub format : List ℕ
  pub kind1 : FastFormatKind
  pub kind2 : FastFormatKind
  pub part0_len : ℕ
  pub part1_pos : ℕ
  pub part1_len : ℕ
  pub part2_pos : ℕ
  pub part2_len : ℕ
  pub buffer_size_hint : ℕ
  pub spec_count : ℕ

abbrev pub fast_format_scan_limit : ℕ
fast_format_scan_limit = 48

abbrev pub empty_entry : List ℕ → FastFormatEntry
empty_entry format = record {
  format = format;
  kind1 = no_kind;
  kind2 = no_kind;
  part0_len = 0;
  part1_pos = 0;
  part1_len = 0;
  part2_pos = 0;
  part2_len = 0;
  buffer_size_hint = 0;
  spec_count = 0;
}

abbrev pub rejected : FastFormatEntry → FastFormatEntry
rejected e = record e { spec_count = 0; kind1 = no_kind; kind2 = no_kind }

unfoldable pub kind_of : ℕ → FastFormatKind
kind_of spec =
    if spec == b's'
    then format_s
    else if spec == b'd'
    then format_d
    else if spec == b'i'
    then format_i
    else if spec == b'u'
    then format_u
    else if spec == b'p'
    then format_p
    else no_kind

-- One of the five conversions.
abbrev pub is_kind : FastFormatKind → Bool
is_kind no_kind = false
is_kind literal = false
is_kind k = true

-- A conversion at position `i`, the first or the second; positions are below 48, so that the casts to
-- `uint16_t` change nothing.
abbrev pub noted : FastFormatKind → ℕ → FastFormatEntry → FastFormatEntry
noted kind i e =
    if e.spec_count == 0
    then record e { kind1 = kind; part0_len = i; part1_pos = i + 2; spec_count = 1 }
    else record e { kind2 = kind; part1_len = i - e.part1_pos; part2_pos = i + 2; spec_count = 2 }

-- The loop over the format from position `i` on, whose bytes are the list; with false where it
-- returns a rejected entry.
unfoldable pub scan : List ℕ → ℕ → FastFormatEntry → Bool × FastFormatEntry
unfolding kind_of
scan [] i e = (true, e)
scan (c ∷ []) i e = if not (c == b'%') then (true, e) else (false, rejected e)
scan (c ∷ d ∷ s) i e =
    let kind = kind_of d in
    let skipped = scan (d ∷ s) (i + 1) e in
    let after = scan s (i + 2) (noted kind i e) in
    if not (c == b'%')
    then skipped
    else if not (is_kind kind) || leb 2 e.spec_count
    then (false, rejected e)
    else after

abbrev pub max_arg_text_size : FastFormatKind → ℕ
max_arg_text_size format_d = 11
max_arg_text_size format_i = 11
max_arg_text_size format_u = 10
max_arg_text_size format_p = 18
max_arg_text_size k = 0

-- `size` rounded up to a multiple of 32.
unfoldable pub align_buffer_size_hint : ℕ → ℕ
align_buffer_size_hint size = min (((size + 31) / 32) * 32) 0xffff

-- Behind the loop, for an accepted format.
unfoldable pub finish : FastFormatEntry → FastFormatEntry
unfolding align_buffer_size_hint
finish e =
    let len = length e.format in
    let e' =
      (if e.spec_count == 1
        then record e { part1_len = len - e.part1_pos }
        else record e { part2_len = len - e.part2_pos }) in
    let max1 = max_arg_text_size e.kind1 in
    let max2 = (if e.spec_count == 2 then max_arg_text_size e.kind2 else 0) in
    let size = e'.part0_len + e'.part1_len + e'.part2_len + max1 + max2 + 2 in
    if e.spec_count == 0
    then record e {
      kind1 = literal;
      part0_len = len;
      buffer_size_hint = align_buffer_size_hint (len + 2);
    }
    else if ltb 0 max1 && (ltb e.spec_count 2 || ltb 0 max2)
    then record e' { buffer_size_hint = align_buffer_size_hint size }
    else e'

unfoldable pub build_fast_format : List ℕ → FastFormatEntry
unfolding scan finish
build_fast_format format =
    let (accepted, e) = scan format 0 (empty_entry format) in
    if leb fast_format_scan_limit (length format)
    then empty_entry format
    else if accepted
    then finish e
    else e

-- An argument, as the caller gives it: a text before its terminating zero or a null pointer, an `int`
-- by its sign and its magnitude, an `unsigned int`, the address in a pointer.
pub data Argument : Type 0 where
  text : Option (List ℕ) → Argument
  integer : (negative : Bool) → ℕ → Argument
  natural : ℕ → Argument
  address : ℕ → Argument

abbrev pub hex_digit : ℕ → ℕ
hex_digit n = if ltb n 10 then 48 + n else 87 + n

-- `to_chars` in base 16; `n + 1` rounds are enough.
unfoldable pub hexadecimal : ℕ → ℕ → List ℕ
hexadecimal zero n = []
hexadecimal (suc fuel) n =
    let more = hexadecimal fuel (n / 16) ++ hex_digit (n % 16) ∷ [] in
    if ltb n 16 then hex_digit n ∷ [] else more

abbrev pub text_or_null : Option (List ℕ) → List ℕ
text_or_null none = codes "(null)"
text_or_null (some t) = t

-- The text of an argument under a conversion; `none` where its type does not fit, which is undefined
-- in C++.
unfoldable pub arg_text : FastFormatKind → Argument → Option (List ℕ)
unfolding hexadecimal
arg_text format_s (text t) = some (text_or_null t)
arg_text format_d (integer negative n) = some (if negative then b'-' ∷ to_string n else to_string n)
arg_text format_i (integer negative n) = some (if negative then b'-' ∷ to_string n else to_string n)
arg_text format_u (natural n) = some (to_string n)
arg_text format_p (address n) = some (codes "0x" ++ hexadecimal (suc n) n)
arg_text kind a = none

-- The text of the next argument, and the arguments behind it.
unfoldable pub next_text : FastFormatKind → List Argument → Option (List ℕ × List Argument)
unfolding arg_text
next_text kind [] = none
next_text kind (a ∷ rest) = elim (arg_text kind a) [ none ↦ none | some t ↦ some (t, rest) ]

-- What is in the buffer before its terminating zero, and the room that is left with that.
pub record Output : Type 0 where
  pub written : List ℕ
  pub left : ℕ

-- `BoundedStringLen` counts no more of a text than is copied of it here.
unfoldable pub copy_bounded : List ℕ → Output → Output
copy_bounded src o =
    let n = (if leb o.left (length src) then o.left - 1 else length src) in
    if leb o.left 1 || length src == 0
    then o
    else record { written = o.written ++ take n src; left = o.left - n }

-- The cases of the first kind.
abbrev pub by_kind : {A : Type 0} → FastFormatKind → A → A → (FastFormatKind → A) → A
by_kind no_kind a b f = a
by_kind literal a b f = b
by_kind format_s a b f = f format_s
by_kind format_d a b f = f format_d
by_kind format_i a b f = f format_i
by_kind format_u a b f = f format_u
by_kind format_p a b f = f format_p

module _ (e : FastFormatEntry) where
  abbrev pub part0 : List ℕ
  part0 = take e.part0_len e.format

  abbrev pub part1 : List ℕ
  part1 = take e.part1_len (drop e.part1_pos e.format)

  abbrev pub part2 : List ℕ
  part2 = take e.part2_len (drop e.part2_pos e.format)

  abbrev pub after_second : Output → Option (List ℕ × List Argument) → Option (List ℕ)
  after_second o none = none
  after_second o (some (t, rest)) = some (copy_bounded part2 (copy_bounded t o)).written

  abbrev pub after_first : Output → Option (List ℕ × List Argument) → Option (List ℕ)
  after_first o none = none
  after_first o (some (t, rest)) =
      let o' = copy_bounded part1 (copy_bounded t o) in
      if e.spec_count == 1
      then some o'.written
      else if not (e.spec_count == 2)
      then none
      else after_second o' (next_text e.kind2 rest)

  -- What is written to a buffer, `none` for the return value false.
  unfoldable pub execute_fast_format : (buffer_size : ℕ) → List Argument → Option (List ℕ)
  unfolding copy_bounded next_text
  execute_fast_format buffer_size args =
      let o = copy_bounded part0 (record { written = []; left = buffer_size }) in
      if buffer_size == 0
      then none
      else by_kind e.kind1 none (some o.written) (λ kind. after_first o (next_text kind args))
