-- ===== src/Format/Fast/Interpretation.antt =====
-- A format read from the left, conversion after conversion, with the code's texts of arguments, and
-- that the scan of a format finds these conversions.
use mathlib.Core.Option
use logme.Prelude.{
  ℕ, suc, ◌+◌, ◌≡◌, refl, sym, ap, ◌∙◌, subst, true, false, not, ◌||◌, ◌==◌, leb, if◌then◌else◌,
  Option, none, some, List, [], ◌∷◌, ◌++◌, length, Bool-cases, ==_iff, inl, inr, arith,
}
use logme.Format.Fast.{
  FastFormatEntry, Argument, kind_of, is_kind, noted, rejected, scan, next_text,
}

-- The text of a conversion, and what `rest` prints with the other arguments.
abbrev pub converted :
    Option (List ℕ × List Argument) → (List Argument → Option (List ℕ)) → Option (List ℕ)
converted none rest = none
converted (some (t, others)) rest = Option.map (◌++◌ t) (rest others)

-- The text that is printed; `none` for another conversion, and where an argument is missing or
-- of another type.
unfoldable pub interpreted : List ℕ → List Argument → Option (List ℕ)
unfolding next_text kind_of
interpreted [] args = some []
interpreted (c ∷ []) args = if not (c == b'%') then some (c ∷ []) else none
interpreted (c ∷ d ∷ s) args =
    let plain = interpreted (d ∷ s) args in
    let conversion = converted (next_text (kind_of d) args) (interpreted s) in
    if not (c == b'%')
    then Option.map (◌∷◌ c) plain
    else if is_kind (kind_of d)
    then conversion
    else none

-- The first conversion in what is left of a format.
pub data Found (s : List ℕ) (i : ℕ) (e e' : FastFormatEntry) : Type 0 where
  nowhere : e' ≡ e → ((args : List Argument) → interpreted s args ≡ some s) → Found s i e e'
  somewhere :
      (u : List ℕ) (d : ℕ) (rest : List ℕ)
      → s ≡ u ++ b'%' ∷ d ∷ rest
      → is_kind (kind_of d) ≡ true
      → leb 2 e.spec_count ≡ false
      → scan rest (i + length u + 2) (noted (kind_of d) (i + length u) e) ≡ (true, e')
      → ((args : List Argument)
          → interpreted s args
            ≡ Option.map (◌++◌ u) (converted (next_text (kind_of d) args) (interpreted rest)))
      → Found s i e e'

map-map :
    {A B C : Type 0} (f : B → C) (g : A → B) (o : Option A)
    → Option.map f (Option.map g o) ≡ Option.map (λ x. f (g x)) o
map-map f g none = refl
map-map f g (some x) = refl

-- A byte before a text without or with a conversion.
Found-cons :
    (c : ℕ) (s : List ℕ) (i : ℕ) (e e' : FastFormatEntry)
    → ((args : List Argument) → interpreted (c ∷ s) args ≡ Option.map (◌∷◌ c) (interpreted s args))
    → Found s (i + 1) e e'
    → Found (c ∷ s) i e e'
Found-cons c s i e e' step (nowhere same plain) =
    nowhere same (λ args. step args ∙ ap (Option.map (◌∷◌ c)) (plain args))
Found-cons c s i e e' step (somewhere u d rest split kind few next printed) =
    let here : i + 1 + length u ≡ i + suc (length u) = omega arith in
    somewhere (c ∷ u) d rest (ap (◌∷◌ c) split) kind few
      (subst (λ n. scan rest (n + 2) (noted (kind_of d) n e) ≡ (true, e')) here next)
      λ args.
        step args
        ∙ ap (Option.map (◌∷◌ c)) (printed args)
        ∙ map-map (◌∷◌ c) (◌++◌ u) (converted (next_text (kind_of d) args) (interpreted rest))

module _ (c d : ℕ) (s : List ℕ) (i : ℕ) (e : FastFormatEntry) where
  pub scan_skips : (c == b'%') ≡ false → scan (c ∷ d ∷ s) i e ≡ scan (d ∷ s) (i + 1) e
  unfolding scan
  scan_skips other = rw (scan, other) refl

  pub scan_refuses :
      (c == b'%') ≡ true
      → (not (is_kind (kind_of d)) || leb 2 e.spec_count) ≡ true
      → scan (c ∷ d ∷ s) i e ≡ (false, rejected e)
  unfolding scan
  scan_refuses percent refused = rw (scan, percent, refused) refl

  pub scan_notes :
      (c == b'%') ≡ true
      → (not (is_kind (kind_of d)) || leb 2 e.spec_count) ≡ false
      → scan (c ∷ d ∷ s) i e ≡ scan s (i + 2) (noted (kind_of d) i e)
  unfolding scan
  scan_notes percent accepted = rw (scan, percent, accepted) refl

map-nothing : (o : Option (List ℕ)) → o ≡ Option.map (◌++◌ []) o
map-nothing none = refl
map-nothing (some t) = refl

pub scan-Found :
    (s : List ℕ) (i : ℕ) (e e' : FastFormatEntry) → scan s i e ≡ (true, e') → Found s i e e'
unfolding scan interpreted
scan-Found [] i e e' h = nowhere (ap (λ p. p.1) (sym h)) (λ args. refl)
scan-Found (c ∷ []) i e e' h = elim (Bool-cases (c == b'%')) [
  | inl percent ↦ absurd (ground arith)
  | inr other ↦ nowhere (ground arith) (λ args. rw other refl)
]
scan-Found (c ∷ d ∷ s) i e e' h = elim (Bool-cases (c == b'%')) [
  | inr other ↦
      Found-cons c (d ∷ s) i e e' (λ args. rw (interpreted, other) refl)
        (scan-Found (d ∷ s) (i + 1) e e' (sym (scan_skips c d s i e other) ∙ h))
  | inl percent ↦ elim (Bool-cases (not (is_kind (kind_of d)) || leb 2 e.spec_count)) [
    | inl refused ↦ absurd (cc (sym (scan_refuses c d s i e percent refused) ∙ h))
    | inr accepted ↦
        let kind : is_kind (kind_of d) ≡ true = ground arith in
        somewhere [] d s (ap (λ x. x ∷ d ∷ s) ((==_iff c b'%').0 percent)) kind (ground arith)
          (subst (λ n. scan s (n + 2) (noted (kind_of d) n e) ≡ (true, e')) {x = i} {y = i + 0}
            (omega arith) (sym (scan_notes c d s i e percent accepted) ∙ h))
          λ args.
            rw (interpreted, percent, kind)
              (map-nothing (converted (next_text (kind_of d) args) (interpreted s)))
  ]
]
