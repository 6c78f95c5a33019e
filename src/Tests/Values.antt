-- ===== src/Tests/Values.antt =====
-- Runs of TimeIntervalValue.cpp and ByteSizeValue.cpp.
use logme.Prelude.{◌≡◌, ◌-◌, ◌∷◌, ◌++◌, none, some, u64_mod, arith}
use logme.Text.Trim.{codes}
use logme.Text.Decimal.{to_string}
use logme.Config.Units.{parse_byte_size, format_byte_size, parse_interval, format_interval}
use logme.Config.Formats.{parse-format_byte_size, parse-format_interval}
use logme.Config.Lenient.{parse-too_large, parse-negative}

parse-format_byte_size_example : parse_byte_size (format_byte_size 3_145_728) ≡ some 3_145_728
parse-format_byte_size_example = parse-format_byte_size 3_145_728 (omega arith)

parse-format_interval_example : parse_interval (format_interval 1500) ≡ none
parse-format_interval_example = parse-format_interval 1500 (omega arith)

parse-too_large_example :
    (parse_byte_size (to_string 99_999_999_999_999_999_999 ++ codes "Gb") ≡ none)
    × (parse_byte_size (to_string 99_999_999_999_999_999_999 ++ codes "b") ≡ some (u64_mod - 1))
parse-too_large_example = parse-too_large 99_999_999_999_999_999_999 (omega arith)

parse-negative_example : parse_byte_size (b'-' ∷ to_string 1) ≡ some (u64_mod - 1)
parse-negative_example = parse-negative 1 (omega arith) (omega arith)
