-- ===== src/Logger/Snapshots/Readers.antt =====
-- What a step of one reader does to all of them.
use logme.Prelude.{
  ℕ, zero, suc, ◌+◌, ◌≤◌, ◌≡◌, refl, Bool, true, false, Option, none, some, List, [], ◌∷◌, All, ◌⊎◌,
  inl, inr, arith, Bool-cases,
}
use logme.Logger.Snapshots.{
  Reader, outside, waiting, entering, counted, retreating, admitted, holding, reader_step,
  readers_step, is_null,
}

-- The readers that `SubsystemLevelSnapshotReaders` counts.
abbrev pub weight : Reader → ℕ
weight outside = 0
weight waiting = 0
weight entering = 0
weight counted = 1
weight retreating = 1
weight admitted = 1
weight (holding p) = 1

abbrev pub weights : List Reader → ℕ
weights [] = 0
weights (r ∷ rs) = weight r + weights rs

-- A reader that has passed the second look at the flag.
abbrev pub inside : Reader → Bool
inside outside = false
inside waiting = false
inside entering = false
inside counted = false
inside retreating = false
inside admitted = true
inside (holding p) = true

abbrev pub Outside : Reader → Type 0
Outside r = inside r ≡ false

abbrev pub In : ℕ → List ℕ → Type 0
In a [] = ⊥
In a (x ∷ xs) = (a ≡ x) ⊎ In a xs

-- The snapshot is in the list.
abbrev pub Present : List ℕ → Option ℕ → Type 0
Present xs none = Unit
Present xs (some a) = In a xs

-- The snapshot that a reader holds has not been deleted.
abbrev pub Safe : List ℕ → Reader → Type 0
Safe xs (holding p) = Present xs p
Safe xs r = Unit

module _ (flag : Bool) (active : Option ℕ) where
  weight-reader_step :
      (n : ℕ) (r : Reader)
      → weight r ≤ n
      → (reader_step flag active n r).0 + weight r ≡ n + weight (reader_step flag active n r).1
  unfolding reader_step
  weight-reader_step n outside h = ground arith
  weight-reader_step n waiting h = ground arith
  weight-reader_step n entering h = ground arith
  weight-reader_step n counted h = ground arith
  weight-reader_step n retreating h = ground arith
  weight-reader_step n admitted h = ground arith
  weight-reader_step n (holding p) h = ground arith

  pub weights-readers_step :
      (n i : ℕ) (rs : List Reader)
      → weights rs ≤ n
      → (readers_step flag active n i rs).0 + weights rs
        ≡ n + weights (readers_step flag active n i rs).1
  unfolding readers_step
  weights-readers_step n i [] h = omega arith
  weights-readers_step n zero (r ∷ rs) h = omega (arith, weight-reader_step n r)
  weights-readers_step n (suc i) (r ∷ rs) h = omega (arith, weights-readers_step n i rs)

  Safe-reader_step :
      (n : ℕ) (xs : List ℕ) (r : Reader)
      → Present xs active
      → Safe xs r
      → Safe xs (reader_step flag active n r).1
  unfolding reader_step
  Safe-reader_step n xs outside p h = elim (Bool-cases (is_null active)) [
    | inl e ↦ rw e tt
    | inr e ↦ rw e tt
  ]
  Safe-reader_step n xs waiting p h = elim (Bool-cases (flag)) [ inl e ↦ rw e tt | inr e ↦ rw e tt ]
  Safe-reader_step n xs entering p h = tt
  Safe-reader_step n xs counted p h = elim (Bool-cases (flag)) [ inl e ↦ rw e tt | inr e ↦ rw e tt ]
  Safe-reader_step n xs retreating p h = tt
  Safe-reader_step n xs admitted p h = p
  Safe-reader_step n xs (holding q) p h = tt

  pub Safe-readers_step :
      (n i : ℕ) (xs : List ℕ) (rs : List Reader)
      → Present xs active
      → All (Safe xs) rs
      → All (Safe xs) (readers_step flag active n i rs).1
  unfolding readers_step
  Safe-readers_step n i xs [] p h = tt
  Safe-readers_step n zero xs (r ∷ rs) p h = (Safe-reader_step n xs r p h.0, h.1)
  Safe-readers_step n (suc i) xs (r ∷ rs) p h = (h.0, Safe-readers_step n i xs rs p h.1)

-- While the flag is set, no reader comes in.
Outside-reader_step :
    (active : Option ℕ) (n : ℕ) (r : Reader) → Outside r → Outside (reader_step true active n r).1
unfolding reader_step
Outside-reader_step none n outside h = refl
Outside-reader_step (some a) n outside h = refl
Outside-reader_step active n waiting h = refl
Outside-reader_step active n entering h = refl
Outside-reader_step active n counted h = refl
Outside-reader_step active n retreating h = refl
Outside-reader_step active n admitted h = cc
Outside-reader_step active n (holding p) h = cc

pub Outside-readers_step :
    (active : Option ℕ) (n i : ℕ) (rs : List Reader)
    → All Outside rs
    → All Outside (readers_step true active n i rs).1
unfolding readers_step
Outside-readers_step active n i [] h = tt
Outside-readers_step active n zero (r ∷ rs) h = (Outside-reader_step active n r h.0, h.1)
Outside-readers_step active n (suc i) (r ∷ rs) h = (h.0, Outside-readers_step active n i rs h.1)

-- With a count of 0 all readers are outside.
pub Outside-weights : (rs : List Reader) → weights rs ≡ 0 → All Outside rs
Outside-weights [] h = tt
Outside-weights (outside ∷ rs) h = (refl, Outside-weights rs (omega arith))
Outside-weights (waiting ∷ rs) h = (refl, Outside-weights rs (omega arith))
Outside-weights (entering ∷ rs) h = (refl, Outside-weights rs (omega arith))
Outside-weights (counted ∷ rs) h = absurd (omega arith)
Outside-weights (retreating ∷ rs) h = absurd (omega arith)
Outside-weights (admitted ∷ rs) h = absurd (omega arith)
Outside-weights (holding p ∷ rs) h = absurd (omega arith)

-- Readers that are outside hold nothing.
pub Outside-Safe : (xs : List ℕ) (rs : List Reader) → All Outside rs → All (Safe xs) rs
Outside-Safe xs [] h = tt
Outside-Safe xs (outside ∷ rs) h = (tt, Outside-Safe xs rs h.1)
Outside-Safe xs (waiting ∷ rs) h = (tt, Outside-Safe xs rs h.1)
Outside-Safe xs (entering ∷ rs) h = (tt, Outside-Safe xs rs h.1)
Outside-Safe xs (counted ∷ rs) h = (tt, Outside-Safe xs rs h.1)
Outside-Safe xs (retreating ∷ rs) h = (tt, Outside-Safe xs rs h.1)
Outside-Safe xs (admitted ∷ rs) h = absurd (ground arith)
Outside-Safe xs (holding p ∷ rs) h = absurd (ground arith)
