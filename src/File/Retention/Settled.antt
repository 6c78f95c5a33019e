-- ===== src/File/Retention/Settled.antt =====
-- Files that are deleted or to be kept.
use logme.Prelude.{
  ℕ, zero, suc, ◌≡◌, refl, sym, subst, Bool, true, false, ◌||◌, if◌then◌else◌, List, [], ◌∷◌, ◌++◌,
  map, All, inl, inr, Bool-cases, arith,
}
use logme.Text.Replace.{same_text}
use logme.File.Retention.{FileInfo, file_at, existing}
use logme.File.Retention.Shrinking.{Change, Shrinks}
use logme.File.Retention.Sums.{map-suc-All}

first_and_rest :
    (b : Bool) (P : ℕ → Type 0) (is : List ℕ)
    → All P ((if b then [] else 0 ∷ []) ++ is)
    → (b ≡ false → P 0) × All P is
first_and_rest true P is h = (λ e. cc, h)
first_and_rest false P is h = (λ e. h.0, h.1)

module _ (keep : List ℕ) where
  -- A file is deleted, or the one to keep.
  abbrev pub Done : FileInfo → Type 0
  Done f = (f.deleted || same_text f.path_name keep) ≡ true

  Change-Done : (f g : FileInfo) → Change keep f g → Done f → Done g
  Change-Done f g (inl e) d = subst Done (sym e) d
  Change-Done f g (inr (e, k)) d = subst Done (sym e) refl

  pub Shrinks-Done : (fs gs : List FileInfo) → Shrinks keep fs gs → All Done fs → All Done gs
  Shrinks-Done [] [] s d = tt
  Shrinks-Done [] (g ∷ gs) s d = absurd s
  Shrinks-Done (f ∷ fs) [] s d = absurd s
  Shrinks-Done (f ∷ fs) (g ∷ gs) s d = (Change-Done f g s.0 d.0, Shrinks-Done fs gs s.1 d.1)

  pub Done-at :
      (fs gs : List FileInfo) (i : ℕ)
      → Shrinks keep fs gs
      → Done (file_at fs i)
      → Done (file_at gs i)
  Done-at [] [] i s d = d
  Done-at [] (g ∷ gs) i s d = absurd s
  Done-at (f ∷ fs) [] i s d = absurd s
  Done-at (f ∷ fs) (g ∷ gs) zero s d = Change-Done f g s.0 d
  Done-at (f ∷ fs) (g ∷ gs) (suc i) s d = Done-at fs gs i s.1 d

  -- If that holds at the positions of the files that existed, it holds everywhere.
  pub Done-everywhere :
      (fs gs : List FileInfo)
      → Shrinks keep fs gs
      → All (λ i. Done (file_at gs i)) (existing fs)
      → All Done gs
  unfolding existing
  Done-everywhere [] [] s d = tt
  Done-everywhere [] (g ∷ gs) s d = absurd s
  Done-everywhere (f ∷ fs) [] s d = absurd s
  Done-everywhere (f ∷ fs) (g ∷ gs) s d =
      let (first, rest) =
        first_and_rest f.deleted (λ i. Done (file_at (g ∷ gs) i)) (map suc (existing fs)) d in
      (
        elim (Bool-cases f.deleted) [
          | inl gone ↦ Change-Done f g s.0 (ground arith)
          | inr kept ↦ first kept
        ],
        Done-everywhere fs gs s.1 (map-suc-All (λ i. Done (file_at (g ∷ gs) i)) (existing fs) rest),
      )
