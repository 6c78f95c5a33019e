-- ===== src/Config/SmartValue.antt =====
-- `ParseSmartValue`, `SmartValue` and `FormatSmartValue` of TimeIntervalValue.cpp.
use mathlib.Core.Option
use logme.Prelude.{
  ℕ, ◌-◌, ◌*◌, ◌/◌, ◌%◌, not, ◌&&◌, ◌||◌, ◌==◌, ltb, if◌then◌else◌, Option, none, some, is_empty,
  List, [], ◌∷◌, ◌++◌, take, u64_mod,
}
use logme.Text.Trim.{trim_spaces, to_lower_ascii, c_str}
use logme.Text.Search.{ends_with, rfind}
use logme.Text.Decimal.{to_string, strtoull}

-- A null `FormatName` is `none`.
pub record Suffix : Type 0 where
  pub name : List ℕ
  pub multiplier : ℕ
  pub format_name : Option (List ℕ)

-- `substr(0, pos)`, where `npos` stands for the whole text.
abbrev pub prefix_to : List ℕ → Option ℕ → List ℕ
prefix_to v none = v
prefix_to v (some n) = take n v

-- The first suffix that the text ends with: what stands before it, and its multiplier.
unfoldable pub strip_suffix : List ℕ → List Suffix → List ℕ × ℕ
strip_suffix v [] = (v, 1)
strip_suffix v (s ∷ suffixes) =
    if ends_with v s.name
    then (trim_spaces (prefix_to v (rfind v s.name)), s.multiplier)
    else strip_suffix v suffixes

abbrev pub checked_product : ℕ → ℕ → Option ℕ
checked_product val mul =
    if not (mul == 0) && ltb ((u64_mod - 1) / mul) val then none else some ((val * mul) % u64_mod)

-- From the conversion on, for the text `v` and its multiplier.
unfoldable pub convert : List ℕ → ℕ → Option ℕ
unfolding c_str
convert v mul =
    if is_empty v
    then none
    else (let (val, rest) = strtoull (c_str v) in
        if not (is_empty rest) then none else checked_product val mul)

unfoldable pub parse_lowered : List ℕ → List Suffix → Option ℕ
unfolding strip_suffix convert
parse_lowered v suffixes = let (w, mul) = strip_suffix v suffixes in convert w mul

-- `none` is the return value false, on which `value` keeps what it held.
unfoldable pub parse_smart_value : List ℕ → List Suffix → Option ℕ
unfolding parse_lowered
parse_smart_value input suffixes =
    let v = trim_spaces input in
    if is_empty v then none else parse_lowered (to_lower_ascii v) suffixes

unfoldable pub smart_value : List ℕ → ℕ → List Suffix → ℕ
smart_value input default suffixes = Option.get_or (parse_smart_value input suffixes) default

unfoldable pub format_with : ℕ → ℕ → Option (List ℕ) → List ℕ → List ℕ
format_with value mul none rest = rest
format_with value mul (some name) rest =
    if mul == 0 || ((value == 0 && not (mul == 1)) || not (value % mul == 0))
    then rest
    else to_string (value / mul) ++ name

unfoldable pub format_smart_value : ℕ → List Suffix → List ℕ
unfolding format_with
format_smart_value value [] = to_string value
format_smart_value value (s ∷ suffixes) =
    format_with value s.multiplier s.format_name (format_smart_value value suffixes)
