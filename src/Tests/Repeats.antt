-- ===== src/Tests/Repeats.antt =====
-- Runs of the collapsing of repeated messages.
use logme.Prelude.{ℕ, ◌≡◌, refl, true, false, none, List, [], ◌∷◌, arith}
use logme.Text.Trim.{codes}
use logme.Logger.Collapse.{CollapseContextCache, count, collapse, collapse_each}
use logme.Logger.Collapse.Runs.{Collapsed, collapse_each-Collapsed}

abbrev third_only : CollapseContextCache
third_only = record {
  mode = count;
  limit = 3;
  interval_ms = 0;
  ignore_regex = none;
  last_key = [];
  last_output_time = 0;
  repeat_count = 0;
}

abbrev repeats : List (List ℕ × ℕ)
repeats = (codes "a", 11) ∷ (codes "a", 12) ∷ (codes "a", 13) ∷ (codes "a", 14) ∷ []

collapse_each-Collapsed_example :
    ((collapse third_only (codes "a") 10).0 ≡ (true, 0))
    × Collapsed count third_only 10 repeats
        (collapse_each (collapse third_only (codes "a") 10).1 repeats).0
        (collapse_each (collapse third_only (codes "a") 10).1 repeats).1.repeat_count
collapse_each-Collapsed_example =
    collapse_each-Collapsed third_only (codes "a") 10 repeats refl refl (omega arith)
      (
        omega arith,
        (
          omega arith,
          (
            omega arith,
            (omega arith, (omega arith, (omega arith, (omega arith, (omega arith, tt))))),
          ),
        ),
      )
      (omega arith) (refl, (refl, (refl, (refl, tt))))

third_of_four :
    (collapse_each (collapse third_only (codes "a") 10).1 repeats).0
    ≡ (false, 0) ∷ (false, 0) ∷ (true, 3) ∷ (false, 0) ∷ []
unfolding collapse_each collapse
third_of_four = refl

-- An empty text counts as a repeat although no message came before it.
empty_first : (collapse third_only [] 10).0 ≡ (false, 0)
unfolding collapse
empty_first = refl
