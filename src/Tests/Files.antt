-- ===== src/Tests/Files.antt =====
-- Runs of the cleaning of log files.
use logme.Prelude.{ℕ, ◌≡◌, ◌⊎◌, Bool, true, false, none, some, List, [], ◌∷◌}
use logme.Text.Trim.{codes}
use logme.File.Retention.{
  DirectoryEntry, RetentionOptions, find_matching_files, sort_newest_first, clean_files,
}
use logme.File.Retention.Shrinking.{Shrinks}
use logme.File.Retention.Cleaned.{Cleaned, clean_files-Shrinks}

abbrev entry : List ℕ → ℕ → ℕ → DirectoryEntry
entry name time size = record {
  name = name;
  is_regular_file = true;
  write_time = some time;
  file_size = some size;
}

abbrev entries : List DirectoryEntry
entries =
    entry (codes "a.log") 5 100
    ∷ entry (codes "b.log") 3 200
    ∷ entry (codes "c.log") 9 50
    ∷ record { name = codes "d"; is_regular_file = false; write_time = none; file_size = none }
    ∷ []

abbrev anything : List ℕ → Bool
anything name = true

abbrev limits : RetentionOptions
limits = record { max_files = 2; max_age_ms = 1; max_total_size = 120 }

clean_files-Shrinks_example :
    (clean_files (λ name. false) anything 10 entries (codes "c.log") limits ≡ [])
    ⊎ Shrinks
        (codes "c.log")
        (sort_newest_first (find_matching_files anything entries))
        (clean_files (λ name. false) anything 10 entries (codes "c.log") limits)
clean_files-Shrinks_example =
    clean_files-Shrinks (λ name. false) (codes "c.log") anything 10 entries limits
