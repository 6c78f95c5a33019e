-- ===== src/Logger/Sorted/Laws.antt =====
-- Searches, insertions and removals at the lower bound keep the order, and what a search finds after.
use logme.Prelude.{
  ℕ, zero, suc, ◌<◌, ◌≡◌, refl, false, ◌==◌, ltb, if◌then◌else◌, none, some, List, [], ◌∷◌, All,
  set, Bool-cases, inl, inr, arith,
}
use logme.Logger.Sorted.{lower_bound, Above, Sorted, look, insert_at, erase_at, found}

module _ {A : Type 0} (key : A → ℕ) where
  All-below : (j k : ℕ) (xs : List A) → j < k → All (Above key k) xs → All (Above key j) xs
  All-below j k [] h a = tt
  All-below j k (x ∷ xs) h a = (omega (arith, a.0), All-below j k xs h a.1)

  -- Nothing is found below the first key.
  pub look-Above :
      (id k : ℕ) (xs : List A) → All (Above key k) xs → (ltb k id ≡ false) → look key id xs ≡ none
  unfolding look
  look-Above id k [] a h = refl
  look-Above id k (x ∷ xs) a h = ground (arith, a.0, look-Above id k xs a.1)

  pub found-look : (id : ℕ) (xs : List A) → Sorted key xs → found key xs id ≡ look key id xs
  unfolding found lower_bound look
  found-look id [] s = refl
  found-look id (x ∷ xs) s = ground (arith, found-look id xs s.1, look-Above id (key x) xs s.0)

  All-insert_at :
      (k i : ℕ) (v : A) (xs : List A)
      → k < key v
      → All (Above key k) xs
      → All (Above key k) (insert_at i v xs)
  unfolding insert_at
  All-insert_at k zero v xs h a = (h, a)
  All-insert_at k (suc i) v [] h a = (h, tt)
  All-insert_at k (suc i) v (x ∷ xs) h a = (a.0, All-insert_at k i v xs h a.1)

  pub insert_at-Sorted :
      (v : A) (xs : List A)
      → found key xs (key v) ≡ none
      → Sorted key xs
      → Sorted key (insert_at (lower_bound key xs (key v)) v xs)
  unfolding insert_at lower_bound found
  insert_at-Sorted v [] f s = (tt, tt)
  insert_at-Sorted v (x ∷ xs) f s = elim (Bool-cases (ltb (key x) (key v))) [
    | inl less ↦ rw less (
      All-insert_at (key x) (lower_bound key xs (key v)) v xs (ground arith) s.0,
      insert_at-Sorted v xs (ground arith) s.1,
    )
    | inr other ↦
        let below : key v < key x = ground arith in
        rw other ((below, All-below (key v) (key x) xs below s.0), s)
  ]

  pub look-insert_at :
      (id : ℕ) (v : A) (xs : List A)
      → look key id (insert_at (lower_bound key xs (key v)) v xs)
        ≡ (if key v == id then some v else look key id xs)
  unfolding look insert_at lower_bound
  look-insert_at id v [] = refl
  look-insert_at id v (x ∷ xs) = ground (arith, look-insert_at id v xs)

  -- An element takes the place of one with the same key.
  All-set-found :
      (k : ℕ) (v x : A) (xs : List A)
      → found key xs (key v) ≡ some x
      → All (Above key k) xs
      → All (Above key k) (set xs (lower_bound key xs (key v)) v)
  unfolding found lower_bound
  All-set-found k v x [] f a = absurd (cc)
  All-set-found k v x (y ∷ xs) f a = elim (Bool-cases (ltb (key y) (key v))) [
    | inl less ↦ rw less (a.0, All-set-found k v x xs (ground arith) a.1)
    | inr other ↦ rw other (ground arith, a.1)
  ]

  pub set-Sorted :
      (v x : A) (xs : List A)
      → found key xs (key v) ≡ some x
      → Sorted key xs
      → Sorted key (set xs (lower_bound key xs (key v)) v)
  unfolding lower_bound found
  set-Sorted v x [] f s = absurd (cc)
  set-Sorted v x (y ∷ xs) f s = elim (Bool-cases (ltb (key y) (key v))) [
    | inl less ↦
        rw less
          (All-set-found (key y) v x xs (ground arith) s.0, set-Sorted v x xs (ground arith) s.1)
    | inr other ↦ let same : key y ≡ key v = ground arith in rw other (rw (← same) s.0, s.1)
  ]

  pub look-set :
      (id : ℕ) (v x : A) (xs : List A)
      → found key xs (key v) ≡ some x
      → look key id (set xs (lower_bound key xs (key v)) v)
        ≡ (if key v == id then some v else look key id xs)
  unfolding look lower_bound found
  look-set id v x [] f = cc
  look-set id v x (y ∷ xs) f = ground (arith, look-set id v x xs)

  All-erase_at : (k i : ℕ) (xs : List A) → All (Above key k) xs → All (Above key k) (erase_at i xs)
  unfolding erase_at
  All-erase_at k i [] a = tt
  All-erase_at k zero (x ∷ xs) a = a.1
  All-erase_at k (suc i) (x ∷ xs) a = (a.0, All-erase_at k i xs a.1)

  pub erase_at-Sorted : (i : ℕ) (xs : List A) → Sorted key xs → Sorted key (erase_at i xs)
  unfolding erase_at
  erase_at-Sorted i [] s = tt
  erase_at-Sorted zero (x ∷ xs) s = s.1
  erase_at-Sorted (suc i) (x ∷ xs) s = (All-erase_at (key x) i xs s.0, erase_at-Sorted i xs s.1)

  pub look-erase_at :
      (id k : ℕ) (x : A) (xs : List A)
      → Sorted key xs
      → found key xs k ≡ some x
      → look key id (erase_at (lower_bound key xs k) xs)
        ≡ (if k == id then none else look key id xs)
  unfolding look lower_bound found erase_at
  look-erase_at id k x [] s f = cc
  look-erase_at id k x (y ∷ xs) s f =
      ground (arith, look-erase_at id k x xs s.1, look-Above id (key y) xs s.0)
