-- ===== src/File/Retention/Limits.antt =====
-- What each of the three steps of a cleaning leaves.
use logme.Prelude.{
  ℕ, ◌-◌, ◌*◌, ◌≤◌, ◌<◌, ◌≡◌, refl, Bool, true, ◌==◌, leb, if◌then◌else◌, List, [], ◌∷◌, map,
  u64_mod, All, ◌⊎◌, inl, inr, by_test, arith,
}
use logme.Text.Replace.{same_text}
use logme.File.Retention.{
  FileInfo, file_at, is_older, delete_file, apply_max_files, aged, apply_max_age,
  apply_max_total_size, count_existing, calculate_total_size, existing, get_oldest_existing_files,
  sort,
}
use logme.File.Retention.Shrinking.{Shrinks}
use logme.File.Retention.Sums.{
  All-sort, sort-All, sort-Distinct, sum_of, weigh, one, count_existing-weigh, total_size-weigh,
  Live, existing-Live, existing-Distinct,
}
use logme.File.Retention.Settled.{Done, Done-everywhere}
use logme.File.Retention.Loop.{
  shrink_loop, shrink_loop-Shrinks, shrink_loop-Done, max_files_loop-shrink_loop,
  total_size_loop-shrink_loop,
}

abbrev pub size_of : FileInfo → ℕ
size_of f = f.size

-- The number of files named `keep`, deleted or not.
abbrev pub is_named : List ℕ → FileInfo → ℕ
is_named keep f = if same_text f.path_name keep then 1 else 0

module _ (keep : List ℕ) where
  -- A file that is deleted, to be kept, or no older than the limit.
  abbrev pub Young : (age now : ℕ) → FileInfo → Type 0
  Young age now f = Done keep f ⊎ (now - f.last_write ≤ age * 1_000_000)

  -- A cleaning adds no weight, and changes no name.
  pub weigh-Shrinks :
      (w : FileInfo → ℕ)
      → ((f : FileInfo) → w (record f { deleted = true }) ≡ w f)
      → (fs gs : List FileInfo) → Shrinks keep fs gs
      → weigh w gs ≤ weigh w fs
  weigh-Shrinks w e [] [] s = omega arith
  weigh-Shrinks w e [] (g ∷ gs) s = absurd s
  weigh-Shrinks w e (f ∷ fs) [] s = absurd s
  weigh-Shrinks w e (f ∷ fs) (g ∷ gs) s = elim s.0 [
    | inl same ↦ rw same (omega (arith, weigh-Shrinks w e fs gs s.1))
    | inr (gone, other) ↦ rw gone (omega (arith, weigh-Shrinks w e fs gs s.1))
  ]

  pub is_named-Shrinks :
      (fs gs : List FileInfo)
      → Shrinks keep fs gs
      → sum_of (is_named keep) gs ≡ sum_of (is_named keep) fs
  is_named-Shrinks [] [] s = refl
  is_named-Shrinks [] (g ∷ gs) s = absurd s
  is_named-Shrinks (f ∷ fs) [] s = absurd s
  is_named-Shrinks (f ∷ fs) (g ∷ gs) s = elim s.0 [
    | inl same ↦ rw same (omega (arith, is_named-Shrinks fs gs s.1))
    | inr (gone, other) ↦ rw gone (omega (arith, is_named-Shrinks fs gs s.1))
  ]

  -- With all others deleted, only the files named `keep` count.
  one-is_named :
      (fs : List FileInfo) → All (Done keep) fs → weigh one fs ≤ sum_of (is_named keep) fs
  one-is_named [] d = omega arith
  one-is_named (f ∷ fs) d = ground (arith, one-is_named fs d.1)

  module _ (can_remove : List ℕ → Bool) (removes : (name : List ℕ) → can_remove name ≡ true) where
    -- The loop over the files that exist, oldest first.
    loop-Outcome :
        (w : FileInfo → ℕ) (limit : ℕ) (fs : List FileInfo)
        → (weigh w
              (shrink_loop can_remove keep w limit (get_oldest_existing_files fs) (weigh w fs) fs)
            ≤ limit)
          ⊎ All
              (Done keep)
              (shrink_loop can_remove keep w limit (get_oldest_existing_files fs) (weigh w fs) fs)
    unfolding get_oldest_existing_files
    loop-Outcome w limit fs =
        let older = λ (i j : ℕ). is_older (file_at fs i) (file_at fs j) in
        let is = sort older (existing fs) in
        let r = shrink_loop can_remove keep w limit is (weigh w fs) fs in
        elim (shrink_loop-Done can_remove keep w removes limit is (weigh w fs) fs
          (sort-Distinct older (existing fs) (existing-Distinct fs))
          (All-sort older (Live fs) (existing fs) (existing-Live fs)) (omega arith)) [
            | inl within ↦ inl within
            | inr done ↦ inr (
                Done-everywhere keep fs r
                  (shrink_loop-Shrinks can_remove keep w limit is (weigh w fs) fs)
                  (sort-All older (λ i. Done keep (file_at r i)) (existing fs) done))
          ]

    pub apply_max_files-bound :
        (limit : ℕ) (fs : List FileInfo)
        → sum_of (is_named keep) fs ≤ 1
        → weigh one fs < u64_mod
        → (limit ≡ 0) ⊎ (weigh one (apply_max_files can_remove keep limit fs) ≤ limit)
    unfolding apply_max_files
    apply_max_files-bound limit fs single few =
        let P = λ (r : List FileInfo). (limit ≡ 0) ⊎ (weigh one r ≤ limit) in
        by_test P (limit == 0) (λ z. inl (ground arith))
          λ nonzero.
            by_test P (leb (count_existing fs) limit)
              (λ enough. inr (ground (arith, count_existing-weigh fs)))
              λ _.
                rw
                  (
                    count_existing-weigh fs,
                    max_files_loop-shrink_loop can_remove keep one (λ f. refl) limit
                        (get_oldest_existing_files fs) (weigh one fs) fs few,
                  )
                  (elim (loop-Outcome one limit fs) [
                    | inl within ↦ inr within
                    | inr done ↦
                        let s =
                          shrink_loop-Shrinks can_remove keep one limit
                            (get_oldest_existing_files fs) (weigh one fs) fs in
                        inr (ground (arith, one-is_named _ done, is_named-Shrinks fs _ s))
                  ])

    pub apply_max_total_size-bound :
        (limit : ℕ) (fs : List FileInfo)
        → weigh size_of fs < u64_mod
        → (limit ≡ 0)
          ⊎ ((weigh size_of (apply_max_total_size can_remove keep limit fs) ≤ limit)
              ⊎ All (Done keep) (apply_max_total_size can_remove keep limit fs))
    unfolding apply_max_total_size
    apply_max_total_size-bound limit fs small =
        let P =
          λ (r : List FileInfo). (limit ≡ 0) ⊎ ((weigh size_of r ≤ limit) ⊎ All (Done keep) r) in
        by_test P (limit == 0) (λ z. inl (ground arith))
          λ nonzero.
            by_test P (leb (calculate_total_size fs) limit)
              (λ enough. inr (inl (ground (arith, total_size-weigh fs small))))
              λ _.
                rw
                  (
                    total_size-weigh fs small,
                    total_size_loop-shrink_loop can_remove keep size_of (λ f. refl) limit
                        (get_oldest_existing_files fs) (weigh size_of fs) fs,
                  )
                  (inr (loop-Outcome size_of limit fs))

    aged-Young : (age now : ℕ) (f : FileInfo) → Young age now (aged can_remove keep age now f)
    unfolding delete_file
    aged-Young age now f =
        let P = Young age now in
        by_test P f.deleted (λ gone. inl (ground arith))
          λ kept.
            by_test P (same_text f.path_name keep) (λ same. inl (ground arith))
              λ other.
                by_test P (leb (now - f.last_write) (age * 1_000_000)) (λ young. inr (ground arith))
                  λ old. inl (ground (arith, removes f.path_name))

    map-aged-Young :
        (age now : ℕ) (fs : List FileInfo)
        → All (Young age now) (map (aged can_remove keep age now) fs)
    map-aged-Young age now [] = tt
    map-aged-Young age now (f ∷ fs) = (aged-Young age now f, map-aged-Young age now fs)

    pub apply_max_age-Young :
        (age now : ℕ) (fs : List FileInfo)
        → (age ≡ 0) ⊎ All (Young age now) (apply_max_age can_remove keep age now fs)
    unfolding apply_max_age
    apply_max_age-Young age now fs =
        by_test (λ (r : List FileInfo). (age ≡ 0) ⊎ All (Young age now) r) (age == 0)
          (λ z. inl (ground arith)) λ _. inr (map-aged-Young age now fs)
