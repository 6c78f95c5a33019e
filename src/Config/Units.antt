-- ===== src/Config/Units.antt =====
-- The two tables of suffixes, and the functions that pass them on.
use logme.Prelude.{ℕ, Option, none, some, List, [], ◌∷◌}
use logme.Text.Trim.{codes}
use logme.Config.SmartValue.{Suffix, parse_smart_value, smart_value, format_smart_value}

abbrev plain : List ℕ → ℕ → Suffix
plain name multiplier = record { name = name; multiplier = multiplier; format_name = none }

abbrev shown : List ℕ → ℕ → List ℕ → Suffix
shown name multiplier format = record {
  name = name;
  multiplier = multiplier;
  format_name = some format;
}

unfoldable pub byte_size_suffixes : List Suffix
byte_size_suffixes =
    shown (codes "gb") 1_073_741_824 (codes "Gb")
    ∷ plain (codes "gib") 1_073_741_824
    ∷ plain (codes "g") 1_073_741_824
    ∷ shown (codes "mb") 1_048_576 (codes "Mb")
    ∷ plain (codes "mib") 1_048_576
    ∷ plain (codes "m") 1_048_576
    ∷ shown (codes "kb") 1024 (codes "Kb")
    ∷ plain (codes "kib") 1024
    ∷ plain (codes "k") 1024
    ∷ shown (codes "b") 1 (codes "b")
    ∷ []

unfoldable pub interval_suffixes : List Suffix
interval_suffixes =
    shown (codes "weeks") 604_800_000 (codes "w")
    ∷ plain (codes "week") 604_800_000
    ∷ plain (codes "w") 604_800_000
    ∷ shown (codes "days") 86_400_000 (codes "d")
    ∷ plain (codes "day") 86_400_000
    ∷ plain (codes "d") 86_400_000
    ∷ shown (codes "hours") 3_600_000 (codes "h")
    ∷ plain (codes "hour") 3_600_000
    ∷ plain (codes "h") 3_600_000
    ∷ shown (codes "minutes") 60_000 (codes "min")
    ∷ plain (codes "minute") 60_000
    ∷ plain (codes "min") 60_000
    ∷ plain (codes "m") 60_000
    ∷ shown (codes "seconds") 1000 (codes "s")
    ∷ plain (codes "second") 1000
    ∷ plain (codes "sec") 1000
    ∷ plain (codes "s") 1000
    ∷ plain (codes "milliseconds") 1
    ∷ plain (codes "millisecond") 1
    ∷ shown (codes "ms") 1 (codes "ms")
    ∷ []

unfoldable pub parse_byte_size : List ℕ → Option ℕ
parse_byte_size input = parse_smart_value input byte_size_suffixes

unfoldable pub get_byte_size : List ℕ → ℕ → ℕ
get_byte_size input default = smart_value input default byte_size_suffixes

unfoldable pub format_byte_size : ℕ → List ℕ
format_byte_size value = format_smart_value value byte_size_suffixes

unfoldable pub parse_interval : List ℕ → Option ℕ
parse_interval input = parse_smart_value input interval_suffixes

unfoldable pub get_interval : List ℕ → ℕ → ℕ
get_interval input default = smart_value input default interval_suffixes

unfoldable pub format_interval : ℕ → List ℕ
format_interval value = format_smart_value value interval_suffixes
