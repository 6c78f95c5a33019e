-- ===== src/File/Retention/Cleaned.antt =====
-- `CleanFiles` as a whole.
use logme.Prelude.{ℕ, ◌≤◌, ◌≡◌, refl, Bool, ◌||◌, List, [], is_empty, All, ◌⊎◌, inl, inr, by_test}
use logme.File.Retention.{
  FileInfo, DirectoryEntry, RetentionOptions, is_empty_options, find_matching_files,
  sort_newest_first, clean_files, count_existing, calculate_total_size,
}
use logme.File.Retention.Shrinking.{
  Shrinks, Shrinks-trans, apply_max_files-Shrinks, apply_max_age-Shrinks,
  apply_max_total_size-Shrinks,
}
use logme.File.Retention.Settled.{Done}
use logme.File.Retention.Limits.{Young}

-- What the limits promise of the files.
abbrev pub Cleaned : (keep : List ℕ) → RetentionOptions → (now : ℕ) → List FileInfo → Type 0
Cleaned keep o now r =
    ((o.max_files ≡ 0) ⊎ (count_existing r ≤ o.max_files))
    × ((o.max_age_ms ≡ 0) ⊎ All (Young keep o.max_age_ms now) r)
    × ((o.max_total_size ≡ 0) ⊎ ((calculate_total_size r ≤ o.max_total_size) ⊎ All (Done keep) r))

module _ (can_remove : List ℕ → Bool) (keep : List ℕ) where
  -- Whatever is removed, a cleaning leaves the files that match as they are, or marks one as deleted
  -- that is not named `keep`.
  pub clean_files-Shrinks :
      (pattern : List ℕ → Bool) (now : ℕ) (entries : List DirectoryEntry) (o : RetentionOptions)
      → (clean_files can_remove pattern now entries keep o ≡ [])
        ⊎ Shrinks keep
            (sort_newest_first (find_matching_files pattern entries))
            (clean_files can_remove pattern now entries keep o)
  unfolding clean_files
  clean_files-Shrinks pattern now entries o =
      let fs = sort_newest_first (find_matching_files pattern entries) in
      by_test (λ (r : List FileInfo). (r ≡ []) ⊎ Shrinks keep fs r)
        (is_empty keep || is_empty_options o) (λ _. inl refl)
        λ _. inr (
          Shrinks-trans keep fs _ _ (apply_max_files-Shrinks keep can_remove o.max_files fs) (
            Shrinks-trans keep _ _ _ (apply_max_age-Shrinks keep can_remove o.max_age_ms now _)
              (apply_max_total_size-Shrinks keep can_remove o.max_total_size _)))
