-- ===== src/Format/Fast/Copying.antt =====
-- A bounded copy of texts one after the other is a bounded copy of all of them.
use mathlib.Core.Option
use logme.Prelude.{
  ℕ, zero, suc, ◌+◌, ◌-◌, ◌<◌, ◌≡◌, refl, sym, ap, ◌∙◌, true, false, not, ◌||◌, ◌==◌, leb,
  if◌then◌else◌, Option, none, some, List, [], ◌∷◌, ◌++◌, length, take, length-append, length-take,
  take_all, ◌⊎◌, append-nil, Bool-cases, by_test, inl, inr, arith,
}
use logme.Format.Fast.{
  FastFormatKind, no_kind, literal, format_s, format_d, format_i, format_u, format_p,
  FastFormatEntry, Argument, next_text, Output, copy_bounded, part0, part1, part2, after_second,
  after_first, by_kind, execute_fast_format,
}

module _ {ℓ} {A : Type ℓ} where
  take-append_any :
      (m : ℕ) (xs ys : List A) → take m (xs ++ ys) ≡ take m xs ++ take (m - length xs) ys
  take-append_any zero [] ys = refl
  take-append_any (suc m) [] ys = ap (λ k. take k ys) {x = suc m} {y = suc m - 0} (omega arith)
  take-append_any zero (x ∷ xs) ys =
      ap (λ k. take k ys) {x = 0} {y = 0 - suc (length xs)} (omega arith)
  take-append_any (suc m) (x ∷ xs) ys = ap (◌∷◌ x) (
      take-append_any m xs ys
      ∙ ap (λ k. take m xs ++ take k ys) {x = m - length xs} {y = suc m - suc (length xs)}
          (omega arith))

-- The output holds as much of the text as a buffer of `n` bytes has room for.
pub record Holds (n : ℕ) (t : List ℕ) (o : Output) : Type 0 where
  written : o.written ≡ take (n - 1) t
  left : o.left + length o.written ≡ n

nothing_taken : (k : ℕ) (src : List ℕ) → (k ≡ 0) ⊎ (length src ≡ 0) → take k src ≡ []
nothing_taken zero src h = refl
nothing_taken (suc k) [] h = refl
nothing_taken (suc k) (x ∷ src) (inl e) = absurd (omega arith)
nothing_taken (suc k) (x ∷ src) (inr e) = absurd (omega arith)

full_or_empty : (m k : ℕ) → (leb m 1 || k == 0) ≡ true → (m - 1 ≡ 0) ⊎ (k ≡ 0)
full_or_empty m k h = elim (Bool-cases (leb m 1)) [
  | inl full ↦ inl (ground arith)
  | inr other ↦ inr (ground arith)
]

module _ (n : ℕ) (t src : List ℕ) (o : Output) (pos : 0 < n) (h : Holds n t o) where
  room : n - 1 - length t ≡ o.left - 1
  room = omega (arith, h.left, ap length h.written, length-take (n - 1) t)

  longer : take (n - 1) (t ++ src) ≡ o.written ++ take (o.left - 1) src
  longer =
      take-append_any (n - 1) t src
      ∙ ap (λ k. take (n - 1) t ++ take k src) room
      ∙ ap (λ w. w ++ take (o.left - 1) src) (sym h.written)

  unchanged : take (o.left - 1) src ≡ [] → Holds n (t ++ src) o
  unchanged e = record {
    written = sym (longer ∙ ap (◌++◌ o.written) e ∙ append-nil o.written);
    left = h.left;
  }

  pub copy-Holds : Holds n (t ++ src) (copy_bounded src o)
  unfolding copy_bounded
  copy-Holds =
      by_test (Holds n (t ++ src)) (leb o.left 1 || length src == 0)
        (λ full.
          unchanged (nothing_taken (o.left - 1) src (full_or_empty o.left (length src) full)))
        λ some_room.
          let k : ℕ = (if leb o.left (length src) then o.left - 1 else length src) in
          let same : take k src ≡ take (o.left - 1) src =
            elim (Bool-cases (leb o.left (length src))) [
              | inl cut ↦ ap (λ m. take m src) {x = k} {y = o.left - 1} (ground arith)
              | inr whole ↦
                  take_all src k (ground arith) ∙ sym (take_all src (o.left - 1) (ground arith))
            ] in
          record {
            written = ap (◌++◌ o.written) same ∙ sym longer;
            left = ground (arith, h.left, length-append o.written (take k src), length-take k src);
          }

start-Holds : (n : ℕ) → 0 < n → Holds n [] (record { written = []; left = n })
start-Holds zero h = absurd (omega arith)
start-Holds (suc n) h = record { written = nothing (suc n - 1); left = omega arith }
  where
    nothing : (k : ℕ) → [] ≡ take {A = ℕ} k []
    nothing zero = refl
    nothing (suc k) = refl

by_kind-map :
    {A : Type 0} (g : A → A) (k : FastFormatKind) {a b a' b' : A} {f f' : FastFormatKind → A}
    → a ≡ g a'
    → b ≡ g b'
    → ((k : FastFormatKind) → f k ≡ g (f' k))
    → by_kind k a b f ≡ g (by_kind k a' b' f')
by_kind-map g no_kind p q r = p
by_kind-map g literal p q r = q
by_kind-map g format_s p q r = r format_s
by_kind-map g format_d p q r = r format_d
by_kind-map g format_i p q r = r format_i
by_kind-map g format_u p q r = r format_u
by_kind-map g format_p p q r = r format_p

-- The whole text that an entry describes, in a buffer without an end.
module _ (e : FastFormatEntry) where
  abbrev pub whole_second : List ℕ → Option (List ℕ × List Argument) → Option (List ℕ)
  whole_second w none = none
  whole_second w (some (t, rest)) = some ((w ++ t) ++ part2 e)

  abbrev pub whole_first : List ℕ → Option (List ℕ × List Argument) → Option (List ℕ)
  whole_first w none = none
  whole_first w (some (t, rest)) =
      if e.spec_count == 1
      then some ((w ++ t) ++ part1 e)
      else if not (e.spec_count == 2)
      then none
      else whole_second ((w ++ t) ++ part1 e) (next_text e.kind2 rest)

  unfoldable pub whole_text : List Argument → Option (List ℕ)
  unfolding next_text
  whole_text args =
      by_kind e.kind1 none (some (part0 e)) (λ kind. whole_first (part0 e) (next_text kind args))

  module _ (n : ℕ) (pos : 0 < n) where
    second-cut :
        (w : List ℕ) (o : Output) (r : Option (List ℕ × List Argument))
        → Holds n w o
        → after_second e o r ≡ Option.map (take (n - 1)) (whole_second w r)
    second-cut w o none h = refl
    second-cut w o (some (t, rest)) h =
        ap some
          (copy-Holds n (w ++ t) (part2 e) (copy_bounded t o) pos
            (copy-Holds n w t o pos h)).written

    first-cut :
        (w : List ℕ) (o : Output) (r : Option (List ℕ × List Argument))
        → Holds n w o
        → after_first e o r ≡ Option.map (take (n - 1)) (whole_first w r)
    first-cut w o none h = refl
    first-cut w o (some (t, rest)) h =
        let one = copy-Holds n w t o pos h in
        let two = copy-Holds n (w ++ t) (part1 e) (copy_bounded t o) pos one in
        elim (Bool-cases (e.spec_count == 1)) [
          | inl single ↦ rw single (ap some two.written)
          | inr more ↦ elim (Bool-cases (e.spec_count == 2)) [
            | inl double ↦ rw (more, double) (second-cut _ _ (next_text e.kind2 rest) two)
            | inr other ↦ rw (more, other) refl
          ]
        ]

    -- What is written is the whole text, cut to the buffer.
    pub execute-cut :
        (args : List Argument)
        → execute_fast_format e n args ≡ Option.map (take (n - 1)) (whole_text args)
    unfolding execute_fast_format whole_text
    execute-cut args =
        let start : Output = record { written = []; left = n } in
        let first = copy-Holds n [] (part0 e) start pos (start-Holds n pos) in
        let nonzero : (n == 0) ≡ false = ground arith in
        rw nonzero (
          by_kind-map (λ (o : Option (List ℕ)). Option.map (take (n - 1)) o) e.kind1 refl
            (ap some first.written)
            λ kind. first-cut (part0 e) (copy_bounded (part0 e) start) (next_text kind args) first)
