-- ===== src/Tests/Texts.antt =====
-- Runs of `ReplaceAll` of Utils.cpp.
use logme.Prelude.{ℕ, List, [], none, ◌≡◌, arith}
use logme.Text.Trim.{codes}
use logme.Text.Replace.{Replaced, replace_all, replace_all-Replaced, replace_all_endless}

-- The wildcards of a file name's pattern, with two of them in a row.
abbrev pattern : List ℕ
pattern = codes "log.+.+.txt"

replace_all-Replaced_example :
    Replaced (codes ".+.+") (replace_all 12 pattern (codes ".+.+") (codes ".+"))
replace_all-Replaced_example =
    replace_all-Replaced 12 pattern (codes ".+.+") (codes ".+") (omega arith) (omega arith)

replace_all_endless_example : replace_all 100 (codes "a.txt") (codes "a") (codes "aa") ≡ none
replace_all_endless_example = replace_all_endless 100 b'a' b'a' [] [] (codes ".txt")
