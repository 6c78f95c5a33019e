-- ===== src/Logger/Sorted.antt =====
-- Vectors in ascending order of a key, and `std::lower_bound` on them.
pub mod Laws
use logme.Prelude.{
  ℕ, zero, suc, ◌<◌, ◌≡◌, refl, Bool, true, false, ◌==◌, ltb, if◌then◌else◌, Option, none, some,
  List, [], ◌∷◌, All, get_elem?, set, Bool-cases, inl, inr, arith,
}

module _ {A : Type 0} (key : A → ℕ) where
  -- The first position with a key that is not less: on a vector in order, what the library's
  -- bisection returns.
  unfoldable pub lower_bound : List A → ℕ → ℕ
  lower_bound [] id = 0
  lower_bound (x ∷ xs) id = if ltb (key x) id then suc (lower_bound xs id) else 0

  -- `it != end() && it->key == id`.
  abbrev pub is_at : Option A → ℕ → Bool
  is_at none id = false
  is_at (some x) id = key x == id

  abbrev pub Above : ℕ → A → Type 0
  Above k x = k < key x

  abbrev pub Sorted : List A → Type 0
  Sorted [] = Unit
  Sorted (x ∷ xs) = All (Above (key x)) xs × Sorted xs

  -- A search from the front.
  unfoldable pub look : ℕ → List A → Option A
  look id [] = none
  look id (x ∷ xs) = if key x == id then some x else look id xs

module _ {A : Type 0} where
  unfoldable pub insert_at : ℕ → A → List A → List A
  insert_at zero v xs = v ∷ xs
  insert_at (suc i) v [] = v ∷ []
  insert_at (suc i) v (x ∷ xs) = x ∷ insert_at i v xs

  unfoldable pub erase_at : ℕ → List A → List A
  erase_at i [] = []
  erase_at zero (x ∷ xs) = xs
  erase_at (suc i) (x ∷ xs) = x ∷ erase_at i xs

module _ {A : Type 0} (key : A → ℕ) where
  -- The element at the lower bound, if it has the key.
  unfoldable pub found : List A → ℕ → Option A
  unfolding lower_bound
  found xs id =
      let it = get_elem? xs (lower_bound key xs id) in if is_at key it id then it else none
