-- ===== src/Channel/Distinct.antt =====
-- Lists of numbers without repetitions.
use logme.Prelude.{
  ==_iff, ℕ, ◌≡◌, refl, sym, subst, ◌==◌, true, false, ◌||◌, Option, none, some, List, [], ◌∷◌,
  ◌++◌, Bool-cases, inl, inr, arith,
}
use logme.Channel.Reentry.{contains}
use logme.Channel.State.{kept_before, erase}

-- No element twice.
abbrev pub Distinct : List ℕ → Type 0
Distinct [] = Unit
Distinct (b ∷ bs) = (contains b bs ≡ false) × Distinct bs

pub contains-snoc : (c b : ℕ) (bs : List ℕ) → contains c (bs ++ b ∷ []) ≡ (contains c bs || b == c)
contains-snoc c b [] = ground arith
contains-snoc c b (x ∷ bs) = ground (arith, contains-snoc c b bs)

pub Distinct-snoc :
    (b : ℕ) (bs : List ℕ) → Distinct bs → contains b bs ≡ false → Distinct (bs ++ b ∷ [])
Distinct-snoc b [] d h = (refl, tt)
Distinct-snoc b (x ∷ bs) d h =
    (ground (arith, contains-snoc x b bs, d.0), Distinct-snoc b bs d.1 (ground arith))

-- What is left after an element was erased.
abbrev pub Erased : ℕ → List ℕ → Option (List ℕ) → Type 0
Erased b bs none = contains b bs ≡ false
Erased b bs (some r) =
    (contains b bs ≡ true)
    × ((c : ℕ) → contains c bs ≡ false → contains c r ≡ false)
    × (Distinct bs → Distinct r × (contains b r ≡ false))

pub same_number : (x b : ℕ) → (x == b) ≡ true → x ≡ b
same_number x b h = (==_iff x b).0 h

kept-Erased :
    (b x : ℕ) (bs : List ℕ) (o : Option (List ℕ))
    → (x == b) ≡ false
    → Erased b bs o
    → Erased b (x ∷ bs) (kept_before x o)
kept-Erased b x bs none h e = ground arith
kept-Erased b x bs (some r) h (there, fewer, apart) = (
  ground arith,
  λ c k. let f = fewer c in ground arith,
  λ d. let (a, gone) = apart d.1 in ((fewer x d.0, a), ground arith),
)

pub erase-Erased : (b : ℕ) (bs : List ℕ) → Erased b bs (erase b bs)
unfolding erase
erase-Erased b [] = refl
erase-Erased b (x ∷ bs) = elim (Bool-cases (x == b)) [
  | inl found ↦
      let e : erase b (x ∷ bs) ≡ some bs = ground arith in
      subst (Erased b (x ∷ bs)) (sym e) (
        ground arith,
        λ c k. ground arith,
        λ d. (d.1, subst (λ y. contains y bs ≡ false) (same_number x b found) d.0),
      )
  | inr other ↦
      let e : erase b (x ∷ bs) ≡ kept_before x (erase b bs) = ground arith in
      subst (Erased b (x ∷ bs)) (sym e) (kept-Erased b x bs (erase b bs) other (erase-Erased b bs))
]
