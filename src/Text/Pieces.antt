-- ===== src/Text/Pieces.antt =====
-- A text cut at each of some separators.
use logme.Prelude.{
  ℕ, zero, suc, ◌<◌, ◌≡◌, Bool, if◌then◌else◌, Option, none, some, List, [], ◌∷◌, length, take,
  drop, arith,
}

module _ (p : ℕ → Bool) where
  -- `find` or `find_first_of`, from the start of the text.
  unfoldable pub first_of : List ℕ → Option ℕ
  first_of [] = none
  first_of (c ∷ s) =
      if p c then some 0 else elim (first_of s) [ none ↦ none | some n ↦ some (suc n) ]

abbrev pub onto_first : ℕ → List (List ℕ) → List (List ℕ)
onto_first c [] = (c ∷ []) ∷ []
onto_first c (x ∷ xs) = (c ∷ x) ∷ xs

module _ (p : ℕ → Bool) where
  -- What stands before each separator, and behind the last one, if there is anything.
  unfoldable pub pieces : List ℕ → List (List ℕ)
  pieces [] = []
  pieces (c ∷ s) = if p c then [] ∷ pieces s else onto_first c (pieces s)

  pub pieces_whole :
      (c : ℕ) (s : List ℕ) → first_of p (c ∷ s) ≡ none → pieces (c ∷ s) ≡ (c ∷ s) ∷ []
  unfolding first_of pieces
  pieces_whole c [] h = ground arith
  pieces_whole c (d ∷ s) h = ground (arith, pieces_whole d s)

  pub pieces-first_of :
      (s : List ℕ) (n : ℕ)
      → first_of p s ≡ some n
      → (pieces s ≡ take n s ∷ pieces (drop (suc n) s)) × (n < length s)
  unfolding first_of pieces
  pieces-first_of [] n h = absurd (cc)
  pieces-first_of (c ∷ s) zero h = (ground arith, omega arith)
  pieces-first_of (c ∷ s) (suc n) h = ground (arith, pieces-first_of s n)
