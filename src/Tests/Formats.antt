-- ===== src/Tests/Formats.antt =====
-- Runs of the fast formatting.
use logme.Prelude.{◌≡◌, refl, true, some, List, [], ◌∷◌, arith}
use logme.Text.Trim.{codes}
use logme.Format.Fast.{
  Argument, text, integer, natural, address, build_fast_format, execute_fast_format, no_kind,
}
use logme.Format.Fast.Printf.{numeral, printf}
use logme.Format.Fast.Execution.{execute-printf}
use logme.Format.Fast.Hints.{execute-printf_whole}

abbrev name_and_number : List Argument
name_and_number = text (some (codes "xy")) ∷ integer true 42 ∷ []

abbrev two_numbers : List Argument
two_numbers = natural 7 ∷ address 255 ∷ []

execute-printf_example :
    execute_fast_format (build_fast_format (codes "a%sb%d!")) 6 name_and_number
    ≡ some (codes "axyb-")
unfolding build_fast_format execute_fast_format printf numeral
execute-printf_example =
    execute-printf (codes "a%sb%d!") name_and_number 6 (λ e. cc e) (omega arith)

execute-printf_whole_example :
    execute_fast_format (build_fast_format (codes "%u at %p")) 63 two_numbers
    ≡ some (codes "7 at 0xff")
unfolding build_fast_format execute_fast_format printf numeral
execute-printf_whole_example =
    execute-printf_whole (codes "%u at %p") two_numbers 63 (omega arith) (omega arith) (omega arith)
      (omega arith, (omega arith, tt))

-- A percent sign at the end, and a conversion of another kind.
refused_formats :
    ((build_fast_format (codes "50%")).kind1 ≡ no_kind)
    × ((build_fast_format (codes "%s %x")).kind1 ≡ no_kind)
unfolding build_fast_format
refused_formats = (refl, refl)
