-- ===== src/Logger/Collapse/Timing.antt =====
-- Repeated messages, of which one in an interval is shown.
use logme.Prelude.{
  ℕ, ◌+◌, ◌<◌, ◌≤◌, ◌≡◌, refl, Bool, true, false, ltb, ◌==◌, List, [], ◌∷◌, inl, inr, Bool-cases,
  length, add64, sub64, u64_mod, arith,
}
use logme.Logger.Collapse.{
  time, CollapseContextCache, collapse_key, collapse, collapse_each, reported, held_back,
  AreRepeats,
}
use logme.Text.Replace.{same_text}

-- Times that do not go back, from `last` on.
abbrev pub IsOrdered : (last : ℕ) → List (List ℕ × ℕ) → Type 0
IsOrdered last [] = Unit
IsOrdered last ((text, now) ∷ later) = (last ≤ now) × ((now < u64_mod) × IsOrdered now later)

-- A message is shown where `interval` has passed since the last one that was shown, at `last`.
pub data Spaced (interval : ℕ) : (last : ℕ) → List (List ℕ × ℕ) → List (Bool × ℕ) → Type 0 where
  silent : (last : ℕ) → Spaced interval last [] []
  hold :
      (last now : ℕ) (text : List ℕ) (later : List (List ℕ × ℕ)) (answers : List (Bool × ℕ))
      → now < last + interval
      → Spaced interval last later answers
      → Spaced interval last ((text, now) ∷ later) ((false, 0) ∷ answers)
  show :
      (last now n : ℕ) (text : List ℕ) (later : List (List ℕ × ℕ)) (answers : List (Bool × ℕ))
      → last + interval ≤ now
      → Spaced interval now later answers
      → Spaced interval last ((text, now) ∷ later) ((true, n) ∷ answers)

pub record Timed (interval last r : ℕ) (ms : List (List ℕ × ℕ)) (answers : List (Bool × ℕ)) (r' : ℕ)
    : Type 0 where
  pub total : reported answers + r' ≡ r + held_back answers
  pub spaced : Spaced interval last ms answers

module _ (c : CollapseContextCache) (timed : c.mode ≡ time) (positive : 0 < c.interval_ms) where
  collapse-early :
      (text : List ℕ) (now : ℕ)
      → same_text c.last_key (collapse_key c.ignore_regex text) ≡ true
      → ltb (sub64 now c.last_output_time) c.interval_ms ≡ true
      → collapse c text now ≡ ((false, 0), record c { repeat_count = add64 c.repeat_count 1 })
  unfolding collapse
  collapse-early text now same early =
      let on : (c.interval_ms == 0) ≡ false = ground arith in rw (timed, on, same, early) refl

  collapse-late :
      (text : List ℕ) (now : ℕ)
      → same_text c.last_key (collapse_key c.ignore_regex text) ≡ true
      → ltb (sub64 now c.last_output_time) c.interval_ms ≡ false
      → collapse c text now
        ≡ ((true, c.repeat_count), record c { repeat_count = 0; last_output_time = now })
  unfolding collapse
  collapse-late text now same late =
      let on : (c.interval_ms == 0) ≡ false = ground arith in rw (timed, on, same, late) refl

pub collapse_each-Timed :
    (ms : List (List ℕ × ℕ)) (c : CollapseContextCache) (before : ℕ)
    → c.mode ≡ time
    → 0 < c.interval_ms
    → c.last_output_time ≤ before
    → IsOrdered before ms
    → c.repeat_count + length ms < u64_mod
    → AreRepeats c c.last_key ms
    → Timed c.interval_ms c.last_output_time c.repeat_count ms
        (collapse_each c ms).0
        (collapse_each c ms).1.repeat_count
unfolding collapse_each
collapse_each-Timed [] c before timed positive past ordered few same = record {
  total = omega arith;
  spaced = silent c.last_output_time;
}
collapse_each-Timed ((text, now) ∷ later) c before timed positive past ordered few same =
    elim (Bool-cases (ltb (sub64 now c.last_output_time) c.interval_ms)) [
      | inl early ↦
          let step = collapse-early c timed positive text now same.0 early in
          let rest =
            collapse_each-Timed later (record c { repeat_count = add64 c.repeat_count 1 }) now timed
              positive (omega (arith, ordered.0)) ordered.1.1 (omega arith) same.1 in
          rw step (record {
            total = omega (arith, rest.total);
            spaced =
                hold c.last_output_time now text later _ (ground (arith, ordered.0, ordered.1.0))
                  rest.spaced;
          })
      | inr late ↦
          let step = collapse-late c timed positive text now same.0 late in
          let rest =
            collapse_each-Timed later (record c { repeat_count = 0; last_output_time = now }) now
              timed positive (omega arith) ordered.1.1 (omega arith) same.1 in
          rw step (record {
            total = omega (arith, rest.total);
            spaced =
                show c.last_output_time now c.repeat_count text later _
                  (ground (arith, ordered.0, ordered.1.0)) rest.spaced;
          })
    ]
