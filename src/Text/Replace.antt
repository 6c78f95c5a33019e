-- ===== src/Text/Replace.antt =====
-- `ReplaceAll` of Utils.cpp, with `std::string::find`.
use logme.Prelude.{
  ℕ, zero, suc, ◌+◌, ◌≤◌, ◌<◌, ◌≡◌, refl, ==_iff, append_assoc, drop-append, sym, subst, Bool, true,
  false, ◌&&◌, ◌==◌, if◌then◌else◌, Option, none, some, List, [], ◌∷◌, ◌++◌, take, drop, length,
  length-append, length-take, length-drop, Bool-cases, Option-cases, inl, inr, arith,
}
use logme.Text.Search.{starts_with, starts_with-length}

abbrev pub same_text : List ℕ → List ℕ → Bool
same_text [] [] = true
same_text [] (y ∷ ys) = false
same_text (x ∷ xs) [] = false
same_text (x ∷ xs) (y ∷ ys) = x == y && same_text xs ys

abbrev pub next_position : Option ℕ → Option ℕ
next_position none = none
next_position (some n) = some (suc n)

-- The position of the first occurrence.
unfoldable pub find : List ℕ → List ℕ → Option ℕ
unfolding starts_with
find [] x = if starts_with [] x then some 0 else none
find (c ∷ s) x = let rest = find s x in if starts_with (c ∷ s) x then some 0 else next_position rest

abbrev pub replaced_at : List ℕ → List ℕ → List ℕ → ℕ → List ℕ
replaced_at str what on pos = take pos str ++ (on ++ drop (pos + length what) str)

-- The loop, `none` where `fuel` rounds are too few.
unfoldable pub replace_loop : (fuel : ℕ) → List ℕ → List ℕ → List ℕ → Option (List ℕ)
unfolding find
replace_loop zero str what on = none
replace_loop (suc fuel) str what on = elim (find str what) [
  | none ↦ some str
  | some pos ↦ replace_loop fuel (replaced_at str what on pos) what on
]

unfoldable pub replace_all : (fuel : ℕ) → List ℕ → List ℕ → List ℕ → Option (List ℕ)
unfolding replace_loop
replace_all fuel str what on = if same_text what on then some str else replace_loop fuel str what on

-- An occurrence lies within the text.
abbrev Within : List ℕ → List ℕ → Option ℕ → Type 0
Within s x none = Unit
Within s x (some n) = n + length x ≤ length s

Within-next_position :
    (c : ℕ) (s x : List ℕ) (r : Option ℕ) → Within s x r → Within (c ∷ s) x (next_position r)
Within-next_position c s x none h = h
Within-next_position c s x (some n) h = omega (arith, h)

find-Within : (s x : List ℕ) → Within s x (find s x)
unfolding find
find-Within [] x = elim (Bool-cases (starts_with [] x)) [
  | inl found ↦ rw found (omega (arith, starts_with-length [] x found))
  | inr other ↦ rw other tt
]
find-Within (c ∷ s) x = elim (Bool-cases (starts_with (c ∷ s) x)) [
  | inl found ↦ rw found (omega (arith, starts_with-length (c ∷ s) x found))
  | inr other ↦ rw other (Within-next_position c s x (find s x) (find-Within s x))
]

same_text-length : (xs ys : List ℕ) → same_text xs ys ≡ true → length xs ≡ length ys
same_text-length [] [] h = refl
same_text-length [] (y ∷ ys) h = cc
same_text-length (x ∷ xs) [] h = cc
same_text-length (x ∷ xs) (y ∷ ys) h = ground (arith, same_text-length xs ys)

length-replaced_at :
    (str what on : List ℕ) (pos : ℕ)
    → pos + length what ≤ length str
    → length (replaced_at str what on pos) + length what ≡ length str + length on
length-replaced_at str what on pos h = omega (
  arith,
  length-append (take pos str) (on ++ drop (pos + length what) str),
  length-append on (drop (pos + length what) str),
  length-take pos str,
  length-drop (pos + length what) str,
)

-- The loop has ended with a text in which nothing is left to replace.
pub record Replaced (what : List ℕ) (r : Option (List ℕ)) : Type 0 where
  pub text : List ℕ
  pub returned : r ≡ some text
  pub none_left : find text what ≡ none

replace_loop-Replaced :
    (fuel : ℕ) (str what on : List ℕ)
    → length on < length what
    → length str < fuel
    → Replaced what (replace_loop fuel str what on)
unfolding replace_loop
replace_loop-Replaced zero str what on h k = ground arith
replace_loop-Replaced (suc fuel) str what on h k = elim (Option-cases (find str what)) [
  | inl ended ↦
      subst (Replaced what) (sym (rw (replace_loop, ended) refl))
        (record { text = str; returned = refl; none_left = ended })
  | inr (pos, found) ↦
      let within = subst (Within str what) found (find-Within str what) in
      subst (Replaced what) (sym (rw (replace_loop, found) refl)) (
        replace_loop-Replaced fuel (replaced_at str what on pos) what on h
          (omega (arith, length-replaced_at str what on pos within)))
]

-- Where the replacement is shorter than what it replaces, `ReplaceAll` returns after at most one round
-- more than the text has bytes, and no occurrence is left in what it returns.
pub replace_all-Replaced :
    (fuel : ℕ) (str what on : List ℕ)
    → length on < length what
    → length str < fuel
    → Replaced what (replace_all fuel str what on)
unfolding replace_all
replace_all-Replaced fuel str what on h k = elim (Bool-cases (same_text what on)) [
  | inl same ↦ ground (arith, same_text-length what on same)
  | inr other ↦ rw other (replace_loop-Replaced fuel str what on h k)
]

starts_with-append : (x s : List ℕ) → starts_with (x ++ s) x ≡ true
unfolding starts_with
starts_with-append [] s = refl
starts_with-append (c ∷ x) s = rw ((==_iff c c).1 refl) (starts_with-append x s)

-- A text that goes on behind an occurrence has it at position 0.
find-append : (x s : List ℕ) (c : ℕ) → find ((c ∷ x) ++ s) (c ∷ x) ≡ some 0
unfolding find
find-append x s c = rw (starts_with-append (c ∷ x) s) refl

-- A round leaves the occurrence where it is, with more behind it.
replaced_at_front :
    (what tail s : List ℕ) → replaced_at (what ++ s) what (what ++ tail) 0 ≡ what ++ (tail ++ s)
replaced_at_front what tail s =
    rw (drop-append what s (0 + length what) (omega arith)) (append_assoc what tail s)

replace_loop_endless :
    (fuel c : ℕ) (x tail s : List ℕ)
    → replace_loop fuel ((c ∷ x) ++ s) (c ∷ x) ((c ∷ x) ++ tail) ≡ none
unfolding replace_loop
replace_loop_endless zero c x tail s = refl
replace_loop_endless (suc fuel) c x tail s =
    rw (replace_loop, find-append x s c, replaced_at_front (c ∷ x) tail s)
      (replace_loop_endless fuel c x tail (tail ++ s))

-- Where the replacement begins with what it replaces and goes on behind it, and the text begins with
-- it too, no number of rounds is enough: `ReplaceAll` does not return.
pub replace_all_endless :
    (fuel c d : ℕ) (x tail s : List ℕ)
    → replace_all fuel ((c ∷ x) ++ s) (c ∷ x) ((c ∷ x) ++ d ∷ tail) ≡ none
unfolding replace_all
replace_all_endless fuel c d x tail s =
    elim (Bool-cases (same_text (c ∷ x) ((c ∷ x) ++ d ∷ tail))) [
      | inl same ↦ ground (
        arith,
        same_text-length (c ∷ x) ((c ∷ x) ++ d ∷ tail) same,
        length-append (c ∷ x) (d ∷ tail),
      )
      | inr other ↦ rw other (replace_loop_endless fuel c x (d ∷ tail) s)
    ]
