-- ===== src/File/Retention/Sums.antt =====
-- Sums over the files, sorting, and the positions of the files that exist.
use logme.Prelude.{
  ℕ, suc, ◌+◌, ◌<◌, ◌≡◌, refl, Bool, false, ◌==◌, if◌then◌else◌, List, [], ◌∷◌, map, All,
  All-append, add64, u64_mod, by_test, Bool-cases, inl, inr, arith,
}
use logme.File.Retention.{
  FileInfo, file_at, insert, sort, count_existing, add_sizes, calculate_total_size, existing,
}

-- Lists of positions without repetition.
abbrev pub Apart : ℕ → List ℕ → Type 0
Apart i is = All (λ j. (i == j) ≡ false) is

abbrev pub Distinct : List ℕ → Type 0
Distinct [] = Unit
Distinct (i ∷ is) = Apart i is × Distinct is

module _ {A : Type 0} (less : A → A → Bool) (P : A → Type 0) where
  All-insert : (x : A) (xs : List A) → P x → All P xs → All P (insert less x xs)
  unfolding insert
  All-insert x [] p h = (p, tt)
  All-insert x (y ∷ ys) p h = elim (Bool-cases (less y x)) [
    | inl before ↦ rw before (h.0, All-insert x ys p h.1)
    | inr after ↦ rw after (p, h)
  ]

  pub All-sort : (xs : List A) → All P xs → All P (sort less xs)
  unfolding sort
  All-sort [] h = tt
  All-sort (x ∷ xs) h = All-insert x (sort less xs) h.0 (All-sort xs h.1)

  insert-All : (x : A) (xs : List A) → All P (insert less x xs) → P x × All P xs
  unfolding insert
  insert-All x [] h = h
  insert-All x (y ∷ ys) h = elim (Bool-cases (less y x)) [
    | inl before ↦ let k = rw before at h in let r = insert-All x ys k.1 in (r.0, (k.0, r.1))
    | inr after ↦ let k = rw after at h in (k.0, k.1)
  ]

  pub sort-All : (xs : List A) → All P (sort less xs) → All P xs
  unfolding sort
  sort-All [] h = tt
  sort-All (x ∷ xs) h = let r = insert-All x (sort less xs) h in (r.0, sort-All xs r.1)

module _ (less : ℕ → ℕ → Bool) where
  insert-Distinct : (i : ℕ) (is : List ℕ) → Apart i is → Distinct is → Distinct (insert less i is)
  unfolding insert
  insert-Distinct i [] a d = (tt, tt)
  insert-Distinct i (j ∷ is) a d = elim (Bool-cases (less j i)) [
    | inl before ↦ rw before (
      All-insert less (λ k. (j == k) ≡ false) i is (ground arith) d.0,
      insert-Distinct i is a.1 d.1,
    )
    | inr after ↦ rw after (a, d)
  ]

  pub sort-Distinct : (is : List ℕ) → Distinct is → Distinct (sort less is)
  unfolding sort
  sort-Distinct [] d = tt
  sort-Distinct (i ∷ is) d =
      insert-Distinct i (sort less is) (All-sort less (λ k. (i == k) ≡ false) is d.0)
        (sort-Distinct is d.1)

-- A sum over all files, and one over those that exist.
abbrev pub sum_of : (FileInfo → ℕ) → List FileInfo → ℕ
sum_of w [] = 0
sum_of w (f ∷ fs) = w f + sum_of w fs

abbrev pub there : (FileInfo → ℕ) → FileInfo → ℕ
there w f = if f.deleted then 0 else w f

abbrev pub weigh : (FileInfo → ℕ) → List FileInfo → ℕ
weigh w fs = sum_of (there w) fs

module _ (w : FileInfo → ℕ) where
  sum_of-insert :
      (less : FileInfo → FileInfo → Bool) (f : FileInfo) (fs : List FileInfo)
      → sum_of w (insert less f fs) ≡ w f + sum_of w fs
  unfolding insert
  sum_of-insert less f [] = refl
  sum_of-insert less f (g ∷ fs) = elim (Bool-cases (less g f)) [
    | inl before ↦ rw before (omega (arith, sum_of-insert less f fs))
    | inr after ↦ rw after refl
  ]

  pub sum_of-sort :
      (less : FileInfo → FileInfo → Bool) (fs : List FileInfo)
      → sum_of w (sort less fs) ≡ sum_of w fs
  unfolding sort
  sum_of-sort less [] = refl
  sum_of-sort less (f ∷ fs) =
      omega (arith, sum_of-insert less f (sort less fs), sum_of-sort less fs)

abbrev pub one : FileInfo → ℕ
one f = 1

pub count_existing-weigh : (fs : List FileInfo) → count_existing fs ≡ weigh one fs
unfolding count_existing
count_existing-weigh [] = refl
count_existing-weigh (f ∷ fs) = omega (arith, count_existing-weigh fs)

add_sizes-weigh :
    (t : ℕ) (fs : List FileInfo)
    → t + weigh (λ f. f.size) fs < u64_mod
    → add_sizes t fs ≡ t + weigh (λ f. f.size) fs
unfolding add_sizes
add_sizes-weigh t [] h = omega arith
add_sizes-weigh t (f ∷ fs) h = elim (Bool-cases f.deleted) [
  | inl gone ↦ ground (arith, add_sizes-weigh t fs)
  | inr kept ↦ ground (arith, add_sizes-weigh (add64 t f.size) fs)
]

pub total_size-weigh :
    (fs : List FileInfo)
    → weigh (λ f. f.size) fs < u64_mod
    → calculate_total_size fs ≡ weigh (λ f. f.size) fs
unfolding calculate_total_size
total_size-weigh fs h = omega (arith, add_sizes-weigh 0 fs)

-- The position of a file that exists.
abbrev pub Live : List FileInfo → ℕ → Type 0
Live fs i = (file_at fs i).deleted ≡ false

All-map-suc : (P : ℕ → Type 0) (is : List ℕ) → All (λ i. P (suc i)) is → All P (map suc is)
All-map-suc P [] h = tt
All-map-suc P (i ∷ is) h = (h.0, All-map-suc P is h.1)

pub map-suc-All : (P : ℕ → Type 0) (is : List ℕ) → All P (map suc is) → All (λ i. P (suc i)) is
map-suc-All P [] h = tt
map-suc-All P (i ∷ is) h = (h.0, map-suc-All P is h.1)

Apart-suc : (i : ℕ) (is : List ℕ) → Apart i is → Apart (suc i) (map suc is)
Apart-suc i [] a = tt
Apart-suc i (j ∷ is) a = (ground arith, Apart-suc i is a.1)

Apart-zero : (is : List ℕ) → Apart 0 (map suc is)
Apart-zero [] = tt
Apart-zero (i ∷ is) = (ground arith, Apart-zero is)

Distinct-suc : (is : List ℕ) → Distinct is → Distinct (map suc is)
Distinct-suc [] d = tt
Distinct-suc (i ∷ is) d = (Apart-suc i is d.0, Distinct-suc is d.1)

pub existing-Live : (fs : List FileInfo) → All (Live fs) (existing fs)
unfolding existing
existing-Live [] = tt
existing-Live (f ∷ fs) =
    All-append (Live (f ∷ fs)) (if f.deleted then [] else 0 ∷ []) (map suc (existing fs))
      (by_test (All (Live (f ∷ fs))) f.deleted (λ _. tt) (λ kept. (kept, tt)))
      (All-map-suc (Live (f ∷ fs)) (existing fs) (existing-Live fs))

pub existing-Distinct : (fs : List FileInfo) → Distinct (existing fs)
unfolding existing
existing-Distinct [] = tt
existing-Distinct (f ∷ fs) = elim (Bool-cases f.deleted) [
  | inl gone ↦ rw gone (Distinct-suc (existing fs) (existing-Distinct fs))
  | inr kept ↦ rw kept (Apart-zero (existing fs), Distinct-suc (existing fs) (existing-Distinct fs))
]
