-- ===== src/Logger/Filters/Sets.antt =====
-- A list of subsystems as the set of its members.
use logme.Prelude.{
  ℕ, ◌≡◌, refl, Bool, true, false, ◌==◌, if◌then◌else◌, Option, none, some, List, [], ◌∷◌,
  get_elem?, Bool-cases, inl, inr, arith,
}
use logme.Logger.Sorted.{lower_bound, is_at, Sorted, look, found}
use logme.Logger.Sorted.Laws.{
  found-look, look-Above, insert_at-Sorted, look-insert_at, erase_at-Sorted, look-erase_at,
}
use logme.Logger.Filters.{self, add_subsystem_to_list, remove_subsystem_from_list, binary_search}

abbrev pub InOrder : List ℕ → Type 0
InOrder arr = Sorted self arr

abbrev pub is_some : Option ℕ → Bool
is_some none = false
is_some (some x) = true

-- The set of the members.
abbrev pub has : List ℕ → ℕ → Bool
has arr id = is_some (look self id arr)

abbrev pub including : ℕ → (ℕ → Bool) → ℕ → Bool
including k f id = if k == id then true else f id

abbrev pub excluding : ℕ → (ℕ → Bool) → ℕ → Bool
excluding k f id = if k == id then false else f id

abbrev pub nothing : ℕ → Bool
nothing id = false

is_at-some : (o : Option ℕ) (k : ℕ) → is_at self o k ≡ true → o ≡ some k
is_at-some none k e = cc
is_at-some (some x) k e = ground arith

module _ (arr : List ℕ) (k : ℕ) (s : InOrder arr) where
  found_at :
      is_at self (get_elem? arr (lower_bound self arr k)) k ≡ true → found self arr k ≡ some k
  unfolding found
  found_at e = rw e (is_at-some (get_elem? arr (lower_bound self arr k)) k e)

  missing_at :
      is_at self (get_elem? arr (lower_bound self arr k)) k ≡ false → found self arr k ≡ none
  unfolding found
  missing_at e = rw e refl

  pub add-InOrder : InOrder (add_subsystem_to_list arr k)
  unfolding add_subsystem_to_list
  add-InOrder = elim (Bool-cases (is_at self (get_elem? arr (lower_bound self arr k)) k)) [
    | inl old ↦ rw old s
    | inr new ↦ rw new (insert_at-Sorted self k arr (missing_at new) s)
  ]

  pub has-add : (id : ℕ) → has (add_subsystem_to_list arr k) id ≡ including k (has arr) id
  unfolding add_subsystem_to_list
  has-add id = elim (Bool-cases (is_at self (get_elem? arr (lower_bound self arr k)) k)) [
    | inl old ↦ rw old (ground (arith, found_at old, found-look self k arr s))
    | inr new ↦ rw new (ground (arith, look-insert_at self id k arr))
  ]

  pub remove-InOrder : InOrder (remove_subsystem_from_list arr k)
  unfolding remove_subsystem_from_list
  remove-InOrder = elim (Bool-cases (is_at self (get_elem? arr (lower_bound self arr k)) k)) [
    | inl old ↦ rw old (erase_at-Sorted self (lower_bound self arr k) arr s)
    | inr new ↦ rw new s
  ]

  pub has-remove : (id : ℕ) → has (remove_subsystem_from_list arr k) id ≡ excluding k (has arr) id
  unfolding remove_subsystem_from_list
  has-remove id = elim (Bool-cases (is_at self (get_elem? arr (lower_bound self arr k)) k)) [
    | inl old ↦ rw old (ground (arith, look-erase_at self id k k arr s (found_at old)))
    | inr new ↦ rw new (ground (arith, missing_at new, found-look self k arr s))
  ]

pub binary_search-has : (arr : List ℕ) (k : ℕ) → InOrder arr → binary_search arr k ≡ has arr k
unfolding binary_search look
binary_search-has [] k s = refl
binary_search-has (x ∷ xs) k s =
    ground (arith, binary_search-has xs k s.1, look-Above self k x xs s.0)
