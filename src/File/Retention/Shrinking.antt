-- ===== src/File/Retention/Shrinking.antt =====
-- A cleaning only marks files as deleted, and never the one to keep.
use logme.Prelude.{
  ℕ, zero, suc, ◌-◌, ◌*◌, ◌≡◌, refl, subst, Bool, true, false, ◌==◌, leb, List, [], ◌∷◌, map, set,
  ◌⊎◌, inl, inr, by_test,
}
use logme.Text.Replace.{same_text}
use logme.File.Retention.{
  FileInfo, file_at, delete_file, max_files_loop, apply_max_files, aged, apply_max_age,
  total_size_loop, apply_max_total_size, count_existing, calculate_total_size,
  get_oldest_existing_files,
}

abbrev pub marked : FileInfo → FileInfo
marked f = record f { deleted = true }

module _ (keep : List ℕ) where
  -- A file as it was, or another one than `keep`, deleted.
  abbrev pub Change : FileInfo → FileInfo → Type 0
  Change f g = (g ≡ f) ⊎ ((g ≡ marked f) × (same_text f.path_name keep ≡ false))

  abbrev pub Shrinks : List FileInfo → List FileInfo → Type 0
  Shrinks [] [] = Unit
  Shrinks [] (g ∷ gs) = ⊥
  Shrinks (f ∷ fs) [] = ⊥
  Shrinks (f ∷ fs) (g ∷ gs) = Change f g × Shrinks fs gs

  pub Shrinks-refl : (fs : List FileInfo) → Shrinks fs fs
  Shrinks-refl [] = tt
  Shrinks-refl (f ∷ fs) = (inl refl, Shrinks-refl fs)

  Change-trans : (f g h : FileInfo) → Change f g → Change g h → Change f h
  Change-trans f g h (inl p) (inl q) = inl (cc)
  Change-trans f g h (inl p) (inr (q, k)) = subst (λ x. Change x h) p (inr (q, k))
  Change-trans f g h (inr (p, k)) (inl q) = inr (cc, k)
  Change-trans f g h (inr (p, k)) (inr (q, l)) = inr (subst (λ x. h ≡ marked x) p q, k)

  pub Shrinks-trans : (fs gs hs : List FileInfo) → Shrinks fs gs → Shrinks gs hs → Shrinks fs hs
  Shrinks-trans [] [] hs p q = q
  Shrinks-trans [] (g ∷ gs) hs p q = absurd p
  Shrinks-trans (f ∷ fs) [] hs p q = absurd p
  Shrinks-trans (f ∷ fs) (g ∷ gs) [] p q = absurd q
  Shrinks-trans (f ∷ fs) (g ∷ gs) (h ∷ hs) p q =
      (Change-trans f g h p.0 q.0, Shrinks-trans fs gs hs p.1 q.1)

  pub Shrinks-set :
      (fs : List FileInfo) (i : ℕ) (g : FileInfo)
      → Change (file_at fs i) g
      → Shrinks fs (set fs i g)
  Shrinks-set [] i g c = tt
  Shrinks-set (f ∷ fs) zero g c = (c, Shrinks-refl fs)
  Shrinks-set (f ∷ fs) (suc i) g c = (inl refl, Shrinks-set fs i g c)

  module _ (can_remove : List ℕ → Bool) where
    pub delete_file-Change : (f : FileInfo) → Change f (delete_file can_remove keep f).1
    unfolding delete_file
    delete_file-Change f =
        by_test (λ (r : Bool × FileInfo). Change f r.1) f.deleted (λ _. inl refl)
          λ _.
            by_test (λ (r : Bool × FileInfo). Change f r.1) (same_text f.path_name keep)
              (λ _. inl refl)
              λ other.
                by_test (λ (r : Bool × FileInfo). Change f r.1) (can_remove f.path_name)
                  (λ _. inr (refl, other)) λ _. inl refl

    pub delete_at :
        (fs : List FileInfo) (i : ℕ)
        → Shrinks fs (set fs i (delete_file can_remove keep (file_at fs i)).1)
    delete_at fs i = Shrinks-set fs i _ (delete_file-Change (file_at fs i))

    max_files_loop-Shrinks :
        (limit : ℕ) (is : List ℕ) (n : ℕ) (fs : List FileInfo)
        → Shrinks fs (max_files_loop can_remove keep limit is n fs)
    unfolding max_files_loop
    max_files_loop-Shrinks limit [] n fs = Shrinks-refl fs
    max_files_loop-Shrinks limit (i ∷ is) n fs =
        by_test (Shrinks fs) (leb n limit) (λ _. Shrinks-refl fs)
          λ _. Shrinks-trans fs _ _ (delete_at fs i) (max_files_loop-Shrinks limit is _ _)

    total_size_loop-Shrinks :
        (limit : ℕ) (is : List ℕ) (n : ℕ) (fs : List FileInfo)
        → Shrinks fs (total_size_loop can_remove keep limit is n fs)
    unfolding total_size_loop
    total_size_loop-Shrinks limit [] n fs = Shrinks-refl fs
    total_size_loop-Shrinks limit (i ∷ is) n fs =
        by_test (Shrinks fs) (leb n limit) (λ _. Shrinks-refl fs)
          λ _. Shrinks-trans fs _ _ (delete_at fs i) (total_size_loop-Shrinks limit is _ _)

    pub apply_max_files-Shrinks :
        (limit : ℕ) (fs : List FileInfo) → Shrinks fs (apply_max_files can_remove keep limit fs)
    unfolding apply_max_files
    apply_max_files-Shrinks limit fs =
        by_test (Shrinks fs) (limit == 0) (λ _. Shrinks-refl fs)
          λ _.
            by_test (Shrinks fs) (leb (count_existing fs) limit) (λ _. Shrinks-refl fs)
              λ _.
                max_files_loop-Shrinks limit (get_oldest_existing_files fs) (count_existing fs) fs

    pub apply_max_total_size-Shrinks :
        (limit : ℕ) (fs : List FileInfo)
        → Shrinks fs (apply_max_total_size can_remove keep limit fs)
    unfolding apply_max_total_size
    apply_max_total_size-Shrinks limit fs =
        by_test (Shrinks fs) (limit == 0) (λ _. Shrinks-refl fs)
          λ _.
            by_test (Shrinks fs) (leb (calculate_total_size fs) limit) (λ _. Shrinks-refl fs)
              λ _.
                total_size_loop-Shrinks limit (get_oldest_existing_files fs)
                  (calculate_total_size fs) fs

    aged-Change : (age now : ℕ) (f : FileInfo) → Change f (aged can_remove keep age now f)
    aged-Change age now f =
        by_test (Change f) f.deleted (λ _. inl refl)
          λ _.
            by_test (Change f) (same_text f.path_name keep) (λ _. inl refl)
              λ _.
                by_test (Change f) (leb (now - f.last_write) (age * 1_000_000)) (λ _. inl refl)
                  λ _. delete_file-Change f

    map-aged-Shrinks :
        (age now : ℕ) (fs : List FileInfo) → Shrinks fs (map (aged can_remove keep age now) fs)
    map-aged-Shrinks age now [] = tt
    map-aged-Shrinks age now (f ∷ fs) = (aged-Change age now f, map-aged-Shrinks age now fs)

    pub apply_max_age-Shrinks :
        (age now : ℕ) (fs : List FileInfo) → Shrinks fs (apply_max_age can_remove keep age now fs)
    unfolding apply_max_age
    apply_max_age-Shrinks age now fs =
        by_test (Shrinks fs) (age == 0) (λ _. Shrinks-refl fs) λ _. map-aged-Shrinks age now fs
