-- ===== src/Backend/Growing/Trimming.antt =====
-- The loop of BufferBackend.cpp that drops the oldest lines.
use mathlib.Core.Option
use logme.Prelude.{
  ℕ, zero, suc, ◌+◌, ◌≤◌, ◌<◌, ◌≡◌, refl, sym, ap, subst, ◌∙◌, ◌⊎◌, inl, inr, true, ◌==◌, Option,
  some, List, [], ◌∷◌, ◌++◌, take, length, length-append, length-take, take-append, ltb, u64_mod,
  Bool-cases, Option-cases, arith,
}
use logme.Backend.Growing.Cutting.{Cut, first_line_dropped, more_lines_dropped}
use logme.Backend.Growing.{end_of, needed, after_newline, drop_line, make_room}

-- A buffer is empty or has a zero behind its text.
abbrev pub Ended : List ℕ → Type 0
Ended buffer = (buffer ≡ []) ⊎ ((t : List ℕ) × (buffer ≡ t ++ 0 ∷ []))

abbrev pub text_of : List ℕ → List ℕ
text_of buffer = take (end_of buffer) buffer

pub text_of_ended : (t : List ℕ) → text_of (t ++ 0 ∷ []) ≡ t
text_of_ended t =
    take-append t (0 ∷ []) (end_of (t ++ 0 ∷ [])) (omega (arith, length-append t (0 ∷ [])))

after_newline-snoc :
    (t : List ℕ) → after_newline (t ++ 0 ∷ []) ≡ Option.map (λ u. u ++ 0 ∷ []) (after_newline t)
unfolding after_newline
after_newline-snoc [] = refl
after_newline-snoc (c ∷ t) = elim (Bool-cases (c == 10)) [
  | inl newline ↦ rw newline refl
  | inr other ↦ rw other (after_newline-snoc t)
]

after_newline-length : (t u : List ℕ) → after_newline t ≡ some u → length u < length t
unfolding after_newline
after_newline-length [] u e = cc
after_newline-length (c ∷ t) u e = elim (Bool-cases (c == 10)) [
  | inl newline ↦ omega (arith, ap length (Option.some-injective t u (rw newline at e)))
  | inr other ↦ omega (arith, after_newline-length t u (rw other at e))
]

-- A round of the loop.
record Shorter (buffer : List ℕ) : Type 0 where
  ended : Ended (drop_line buffer)
  text : text_of (drop_line buffer) ≡ drop_line (text_of buffer)
  less : (length (drop_line buffer) < length buffer) ⊎ (drop_line buffer ≡ [])

drop_line-Shorter : (buffer : List ℕ) → Ended buffer → Shorter buffer
unfolding drop_line after_newline
drop_line-Shorter buffer (inl e) = record {
  ended = inl (rw e refl);
  text = rw e refl;
  less = inr (rw e refl);
}
drop_line-Shorter buffer (inr (t, e)) =
    let whole = t ++ 0 ∷ [] in
    let after = λ (o : Option (List ℕ)). Option.get_or o [] in
    subst Shorter (sym e) (elim (Option-cases (after_newline t)) [
      | inl nothing ↦
          let d : drop_line whole ≡ [] =
            ap after (after_newline-snoc t ∙ ap (Option.map (λ u. u ++ 0 ∷ [])) nothing) in
          let k : drop_line t ≡ [] = ap after nothing in
          record {
            ended = inl d;
            text = ap text_of d ∙ sym (ap drop_line (text_of_ended t) ∙ k);
            less = inr d;
          }
      | inr (u, found) ↦
          let d : drop_line whole ≡ u ++ 0 ∷ [] =
            ap after (after_newline-snoc t ∙ ap (Option.map (λ u. u ++ 0 ∷ [])) found) in
          let k : drop_line t ≡ u = ap after found in
          record {
            ended = inr (u, d);
            text = ap text_of d ∙ text_of_ended u ∙ sym (ap drop_line (text_of_ended t) ∙ k);
            less = inl (
                omega (
                  arith,
                  ap length d,
                  length-append u (0 ∷ []),
                  length-append t (0 ∷ []),
                  after_newline-length t u found,
                ));
          }
    ])

not_longer : (buffer : List ℕ) → Shorter buffer → length (drop_line buffer) ≤ length buffer
not_longer buffer once = elim once.less [
  | inl less ↦ omega (arith, less)
  | inr nothing ↦ omega (arith, ap length nothing)
]

-- A round that is followed by another one was not on an empty buffer.
fuel_left :
    (max_size : ℕ) (s buffer : List ℕ) (fuel : ℕ)
    → Shorter buffer
    → length buffer < suc fuel
    → length s + 1 ≤ max_size
    → length s + 1 < u64_mod
    → ltb max_size (needed (drop_line buffer) s) ≡ true
    → length (drop_line buffer) < fuel
fuel_left max_size s buffer fuel once f h k more = elim once.less [
  | inl less ↦ omega (arith, less, f)
  | inr nothing ↦ let e = ap length nothing in ground arith
]

-- What the loop leaves: the text cut at a line, with room for `s`.
pub record Roomy (max_size : ℕ) (s buffer r : List ℕ) : Type 0 where
  pub ended : Ended r
  pub text : Cut max_size s (text_of buffer) (text_of r)
  pub room : needed r s ≤ max_size
  pub shorter : length r ≤ length buffer

pub make_room-Roomy :
    (fuel max_size : ℕ) (s buffer : List ℕ)
    → Ended buffer
    → length buffer < fuel
    → length s + 1 ≤ max_size
    → length s + 1 < u64_mod
    → Roomy max_size s buffer (make_room fuel max_size s buffer)
unfolding make_room
make_room-Roomy zero max_size s buffer end f h k = absurd (omega arith)
make_room-Roomy (suc fuel) max_size s buffer end f h k =
    let d = drop_line buffer in
    let once = drop_line-Shorter buffer end in
    elim (Bool-cases (ltb max_size (needed d s))) [
      | inl more ↦
          let r =
            make_room-Roomy fuel max_size s d once.ended
              (fuel_left max_size s buffer fuel once f h k more) h k in
          rw more (record {
            ended = r.ended;
            text =
                more_lines_dropped max_size s (text_of buffer) _
                  (ground (arith, ap length once.text, length-take (end_of d) d))
                  (subst (λ t. Cut max_size s t (text_of (make_room fuel max_size s d))) once.text
                    r.text);
            room = r.room;
            shorter = omega (arith, r.shorter, not_longer buffer once);
          })
      | inr enough ↦ rw enough (record {
        ended = once.ended;
        text =
            subst (Cut max_size s (text_of buffer)) (sym once.text)
              (first_line_dropped max_size s (text_of buffer));
        room = ground arith;
        shorter = not_longer buffer once;
      })
    ]
