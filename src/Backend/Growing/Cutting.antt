-- ===== src/Backend/Growing/Cutting.antt =====
-- A text without whole lines at its front.
use mathlib.Core.Option
use logme.Prelude.{
  ℕ, ◌+◌, ◌<◌, ◌≡◌, refl, sym, ap, ◌∙◌, ◌⊎◌, inl, inr, true, ==_iff, ◌==◌, Option, none, some, List,
  [], ◌∷◌, ◌++◌, length, append-nil, append_assoc, length-append, Bool-cases, Option-cases, arith,
}
use logme.Backend.Growing.{after_newline, drop_line}

-- What is left of a text, `u`, where whole lines at its front are dropped until there is room for
-- `s` and a zero: nothing, or what stands behind a line feed; and whatever else stands behind a line
-- feed and is longer has no room.
pub record Cut (max_size : ℕ) (s t u : List ℕ) : Type 0 where
  pub dropped : List ℕ
  pub whole : t ≡ dropped ++ u
  pub at_line : (u ≡ []) ⊎ ((d : List ℕ) × (dropped ≡ d ++ 10 ∷ []))
  pub least :
      (d v : List ℕ) → t ≡ d ++ 10 ∷ v → length u < length v → max_size < length v + length s + 1

-- A line feed in a text is the first one, or behind it.
after_newline-none : (t d v : List ℕ) → after_newline t ≡ none → t ≡ d ++ 10 ∷ v → ⊥
unfolding after_newline
after_newline-none [] [] v e w = absurd (cc)
after_newline-none [] (x ∷ d) v e w = absurd (cc)
after_newline-none (c ∷ t) [] v e w =
    let newline : c ≡ 10 = cc in
    let here : (c == 10) ≡ true = ground arith in absurd (cc (sym (rw here at e)))
after_newline-none (c ∷ t) (x ∷ d) v e w = elim (Bool-cases (c == 10)) [
  | inl newline ↦ absurd (cc (sym (rw newline at e)))
  | inr other ↦ after_newline-none t d v (rw other at e) (cc w)
]

after_newline-some : (t u : List ℕ) → after_newline t ≡ some u → (d : List ℕ) × (t ≡ d ++ 10 ∷ u)
unfolding after_newline
after_newline-some [] u e = absurd (cc)
after_newline-some (c ∷ t) u e = elim (Bool-cases (c == 10)) [
  | inl newline ↦ (
    [],
    ap (λ (x : ℕ). x ∷ t) ((==_iff c 10).0 newline)
        ∙ ap (◌∷◌ 10) (Option.some-injective t u (rw newline at e)),
  )
  | inr other ↦ let (d, w) = after_newline-some t u (rw other at e) in (c ∷ d, ap (◌∷◌ c) w)
]

after_newline-first :
    (t u d v : List ℕ)
    → after_newline t ≡ some u
    → t ≡ d ++ 10 ∷ v
    → (v ≡ u) ⊎ ((d' : List ℕ) × (u ≡ d' ++ 10 ∷ v))
unfolding after_newline
after_newline-first [] u [] v e w = absurd (cc)
after_newline-first [] u (x ∷ d) v e w = absurd (cc)
after_newline-first (c ∷ t) u [] v e w =
    let newline : c ≡ 10 = cc in
    let here : (c == 10) ≡ true = ground arith in
    let same : t ≡ u = Option.some-injective t u (rw here at e) in
    let tail : t ≡ v = cc in inl (sym tail ∙ same)
after_newline-first (c ∷ t) u (x ∷ d) v e w = elim (Bool-cases (c == 10)) [
  | inl newline ↦ inr (d, sym (Option.some-injective t u (rw newline at e)) ∙ cc w)
  | inr other ↦ after_newline-first t u d v (rw other at e) (cc w)
]

empty_text : (u : List ℕ) → length u ≡ 0 → u ≡ []
empty_text [] h = refl
empty_text (c ∷ u) h = absurd (omega arith)

module _ (max_size : ℕ) (s t : List ℕ) where
  abbrev pub fits : List ℕ → ℕ
  fits u = length u + length s + 1

  pub first_line_dropped : Cut max_size s t (drop_line t)
  unfolding drop_line
  first_line_dropped = elim (Option-cases (after_newline t)) [
    | inl nothing ↦ rw nothing (record {
      dropped = t;
      whole = sym (append-nil t);
      at_line = inl refl;
      least = λ d v e l. absurd (after_newline-none t d v nothing e);
    })
    | inr (v, found) ↦
        let (d, whole) = after_newline-some t v found in
        rw found (record {
          dropped = d ++ 10 ∷ [];
          whole = whole ∙ sym (append_assoc d (10 ∷ []) v);
          at_line = inr (d, refl);
          least = λ d' w e l. elim (after_newline-first t v d' w found e) [
            | inl same ↦ absurd (omega (arith, ap length same, l))
            | inr (d2, later) ↦
                absurd (omega (arith, ap length later, length-append d2 (10 ∷ w), l))
          ];
        })
  ]

  pub more_lines_dropped :
      (u : List ℕ)
      → max_size < fits (drop_line t)
      → Cut max_size s (drop_line t) u
      → Cut max_size s t u
  unfolding drop_line
  more_lines_dropped u over rest = elim (Option-cases (after_newline t)) [
    | inl nothing ↦
        let none_left : [] ≡ rest.dropped ++ u =
          sym (ap (λ (o : Option (List ℕ)). Option.get_or o []) nothing) ∙ rest.whole in
        let ended : u ≡ [] =
          empty_text u (omega (arith, ap length none_left, length-append rest.dropped u)) in
        record {
          dropped = t;
          whole = sym (append-nil t) ∙ ap (◌++◌ t) (sym ended);
          at_line = inl ended;
          least = λ d v e l. absurd (after_newline-none t d v nothing e);
        }
    | inr (v, found) ↦
        let (d, whole) = after_newline-some t v found in
        let k : drop_line t ≡ v = ap (λ (o : Option (List ℕ)). Option.get_or o []) found in
        record {
          dropped = (d ++ 10 ∷ []) ++ rest.dropped;
          whole =
              whole
              ∙ sym (append_assoc d (10 ∷ []) v)
              ∙ ap (◌++◌ (d ++ 10 ∷ [])) (sym k ∙ rest.whole)
              ∙ sym (append_assoc (d ++ 10 ∷ []) rest.dropped u);
          at_line = elim rest.at_line [
            | inl ended ↦ inl ended
            | inr (d2, e) ↦ inr (
              (d ++ 10 ∷ []) ++ d2,
              ap (◌++◌ (d ++ 10 ∷ [])) e ∙ sym (append_assoc (d ++ 10 ∷ []) d2 (10 ∷ [])),
            )
          ];
          least = λ d' w e l. elim (after_newline-first t v d' w found e) [
            | inl same ↦ omega (arith, ap length same, ap length k, over)
            | inr (d2, later) ↦ rest.least d2 w (k ∙ later) l
          ];
        }
  ]
