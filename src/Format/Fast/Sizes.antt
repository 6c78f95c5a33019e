-- ===== src/Format/Fast/Sizes.antt =====
-- The hint for the size of a buffer is large enough for everything that is printed.
use logme.Prelude.{
  ℕ, ◌+◌, ◌≤◌, ◌<◌, ◌≡◌, refl, sym, subst, true, not, ◌||◌, ◌==◌, leb, Option, none, some, List, [],
  ◌∷◌, ◌++◌, length, drop, length-append, length-take, Bool-cases, inl, inr, All, by_test, ◌⊎◌,
  arith,
}
use logme.Format.Fast.{
  FastFormatKind, format_d, format_i, format_u, format_p, FastFormatEntry, Argument, kind_of,
  is_kind, noted, rejected, scan, next_text, part0, part1, part2, max_arg_text_size,
  align_buffer_size_hint,
}
use logme.Format.Fast.Interpretation.{scan_skips, scan_refuses, scan_notes}
use logme.Format.Fast.Copying.{whole_first, whole_second, whole_text}
use logme.Format.Fast.Equivalence.{by_kind-is_kind}
use logme.Format.Fast.Lengths.{InRange, Fits, NextFits, next_text-NextFits}

-- The parts of an entry lie within the first `n` bytes of its format; there is no hint yet.
pub record Within (n : ℕ) (f : List ℕ) (e : FastFormatEntry) : Type 0 where
  pub format : e.format ≡ f
  pub hint : e.buffer_size_hint ≡ 0
  pub first : e.part0_len ≤ n
  pub second : e.part1_len ≤ n
  pub third : e.part2_len ≡ 0

noted-Within :
    (n i : ℕ) (f : List ℕ) (kind : FastFormatKind) (e : FastFormatEntry)
    → i ≤ n
    → Within n f e
    → Within n f (noted kind i e)
noted-Within n i f kind e h w =
    by_test (Within n f) (e.spec_count == 0)
      (λ first. record {
        format = w.format;
        hint = w.hint;
        first = h;
        second = w.second;
        third = w.third;
      })
      λ second. record {
        format = w.format;
        hint = w.hint;
        first = w.first;
        second = omega arith;
        third = w.third;
      }

pub scan-Within :
    (n : ℕ) (f s : List ℕ) (i : ℕ) (e : FastFormatEntry)
    → i + length s ≤ n
    → Within n f e
    → Within n f (scan s i e).1
unfolding scan
scan-Within n f [] i e h w = w
scan-Within n f (c ∷ []) i e h w = elim (Bool-cases (c == b'%')) [
  | inl percent ↦ rw percent (refused e w)
  | inr other ↦ rw other w
]
  where
    refused : (e : FastFormatEntry) → Within n f e → Within n f (rejected e)
    refused e w = record {
      format = w.format;
      hint = w.hint;
      first = w.first;
      second = w.second;
      third = w.third;
    }
scan-Within n f (c ∷ d ∷ s) i e h w = elim (Bool-cases (c == b'%')) [
  | inr other ↦
      subst (λ r. Within n f r.1) (sym (scan_skips c d s i e other))
        (scan-Within n f (d ∷ s) (i + 1) e (omega arith) w)
  | inl percent ↦ elim (Bool-cases (not (is_kind (kind_of d)) || leb 2 e.spec_count)) [
    | inl refused ↦
        subst (λ r. Within n f r.1) (sym (scan_refuses c d s i e percent refused))
          (record {
            format = w.format;
            hint = w.hint;
            first = w.first;
            second = w.second;
            third = w.third;
          })
    | inr accepted ↦
        subst (λ r. Within n f r.1) (sym (scan_notes c d s i e percent accepted))
          (scan-Within n f s (i + 2) (noted (kind_of d) i e) (omega arith)
            (noted-Within n i f (kind_of d) e (omega arith) w))
  ]
]

pub align-≤ : (size : ℕ) → size ≤ 0xff00 → size ≤ align_buffer_size_hint size
unfolding align_buffer_size_hint
align-≤ size h = ground arith

pub sized-is_kind : (kind : FastFormatKind) → 0 < max_arg_text_size kind → is_kind kind ≡ true
sized-is_kind format_d h = refl
sized-is_kind format_i h = refl
sized-is_kind format_u h = refl
sized-is_kind format_p h = refl
sized-is_kind kind h = absurd (omega arith)

pub sized-bound : (kind : FastFormatKind) → max_arg_text_size kind ≤ 18
sized-bound format_d = omega arith
sized-bound format_i = omega arith
sized-bound format_u = omega arith
sized-bound format_p = omega arith
sized-bound kind = omega arith

pub Fits-≤ : (m m' : ℕ) (o : Option (List ℕ)) → m ≤ m' → Fits m o → Fits m' o
Fits-≤ m m' none h g = tt
Fits-≤ m m' (some t) h g = omega arith

-- The text of an entry, where each conversion has a bound.
module _ (e : FastFormatEntry) where
  second-Fits :
      (w : List ℕ) (m : ℕ) (r : Option (List ℕ × List Argument))
      → NextFits m r
      → Fits (length w + m + e.part2_len) (whole_second e w r)
  second-Fits w m none h = tt
  second-Fits w m (some (t, rest)) h = omega (
    arith,
    h.0,
    length-append (w ++ t) (part2 e),
    length-append w t,
    length-take e.part2_len (drop e.part2_pos e.format),
  )

  first-Fits :
      (w : List ℕ) (m m2 : ℕ) (r : Option (List ℕ × List Argument))
      → NextFits m r
      → (e.spec_count ≡ 1)
        ⊎ ((rest : List Argument) → All InRange rest → NextFits m2 (next_text e.kind2 rest))
      → Fits (length w + m + e.part1_len + m2 + e.part2_len) (whole_first e w r)
  first-Fits w m m2 none h k = tt
  first-Fits w m m2 (some (t, rest)) h k =
      let so_far : length ((w ++ t) ++ part1 e) ≤ length w + m + e.part1_len = omega (
        arith,
        h.0,
        length-append (w ++ t) (part1 e),
        length-append w t,
        length-take e.part1_len (drop e.part1_pos e.format),
      ) in
      elim (Bool-cases (e.spec_count == 1)) [
        | inl single ↦ rw single (omega arith)
        | inr more ↦ elim (Bool-cases (e.spec_count == 2)) [
          | inr other ↦ rw (more, other) tt
          | inl double ↦
              rw (more, double)
                (elim k [
                  | inl single ↦ absurd (ground arith)
                  | inr later ↦
                      Fits-≤ (length ((w ++ t) ++ part1 e) + m2 + e.part2_len) _ _ (omega arith) (
                        second-Fits ((w ++ t) ++ part1 e) m2 (next_text e.kind2 rest)
                          (later rest h.1))
                ])
        ]
      ]

  -- Every conversion that is executed has a bound.
  pub sized-Fits :
      (args : List Argument) (m2 : ℕ)
      → 0 < max_arg_text_size e.kind1
      → (e.spec_count ≡ 1) ⊎ ((0 < max_arg_text_size e.kind2) × (max_arg_text_size e.kind2 ≡ m2))
      → All InRange args
      → Fits
          (e.part0_len + max_arg_text_size e.kind1 + e.part1_len + m2 + e.part2_len)
          (whole_text e args)
  unfolding whole_text
  sized-Fits args m2 p k h =
      subst (Fits _)
        (sym (by_kind-is_kind e.kind1 none (some (part0 e)) _ (sized-is_kind e.kind1 p)))
        (Fits-≤ (length (part0 e) + max_arg_text_size e.kind1 + e.part1_len + m2 + e.part2_len) _ _
          (omega (arith, length-take e.part0_len e.format))
          (first-Fits (part0 e) (max_arg_text_size e.kind1) m2 (next_text e.kind1 args)
            (next_text-NextFits e.kind1 args p h)
            (elim k [
              | inl single ↦ inl single
              | inr double ↦ inr λ rest g.
                  subst (λ m. NextFits m (next_text e.kind2 rest)) double.1
                    (next_text-NextFits e.kind2 rest double.0 g)
            ])))
