-- ===== src/Text/Search.antt =====
-- `std::string::ends_with` and `std::string::rfind`.
use mathlib.Core.List.{reverse, reverse-append}
use logme.Prelude.{
  ℕ, suc, ◌≤◌, arith, ◌≡◌, ap, Bool, true, false, ◌&&◌, ◌==◌, if◌then◌else◌, Option, none, some,
  List, [], ◌∷◌, ◌++◌, length,
}

unfoldable pub starts_with : List ℕ → List ℕ → Bool
starts_with s [] = true
starts_with [] (x ∷ xs) = false
starts_with (c ∷ s) (x ∷ xs) = c == x && starts_with s xs

pub starts_with-length : (s p : List ℕ) → starts_with s p ≡ true → length p ≤ length s
unfolding starts_with
starts_with-length s [] h = omega arith
starts_with-length [] (x ∷ xs) h = cc
starts_with-length (c ∷ s) (x ∷ xs) h = ground (arith, starts_with-length s xs)

unfoldable pub ends_with : List ℕ → List ℕ → Bool
unfolding starts_with
ends_with s x = starts_with (reverse s) (reverse x)

-- The position of the last occurrence.
unfoldable pub rfind : List ℕ → List ℕ → Option ℕ
unfolding starts_with
rfind [] x = if starts_with [] x then some 0 else none
rfind (c ∷ s) x = elim (rfind s x) [
  | some n ↦ some (suc n)
  | none ↦ if starts_with (c ∷ s) x then some 0 else none
]

pub rfind-append : (s x : List ℕ) → rfind x x ≡ some 0 → rfind (s ++ x) x ≡ some (length s)
unfolding rfind
rfind-append [] x h = h
rfind-append (c ∷ s) x h = rw (rfind-append s x h)

pub ends_with-append :
    (s t x : List ℕ) → ends_with (s ++ t) x ≡ starts_with (reverse t ++ reverse s) (reverse x)
unfolding ends_with
ends_with-append s t x = ap (λ r. starts_with r (reverse x)) (reverse-append s t)
