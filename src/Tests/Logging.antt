-- ===== src/Tests/Logging.antt =====
-- Runs of the filters, the levels and their snapshots.
use logme.Prelude.{◌≡◌, ◌≤◌, ◌↔◌, true, false, none, List, [], ◌∷◌, All, length, arith}
use logme.Logger.Snapshots.{System, read, write, start, Reach, initially, later, reads, writes}
use logme.Logger.Snapshots.Readers.{Present, Safe}
use logme.Logger.Snapshots.Invariant.{capacity}
use logme.Logger.Snapshots.Safety.{Reach-Safe}
use logme.Logger.Filters.{passes_subsystem, new_filters}
use logme.Logger.Filters.View.{
  Operation, add_blocked, add_allowed, set_block_reported, report, apply_each, promised_each,
  new_view,
}
use logme.Logger.Filters.Refinement.{Admits, apply_each-Admits}
use logme.Logger.Levels.{get_subsystem_level, new_levels}
use logme.Logger.Levels.Mapping.{
  Change, set_level, remove_level, change_each, mapped_each, get-change_each,
}

-- Reader 0 of two takes the first snapshot, and a second one is published.
abbrev taken : System
taken = read 0 (read 0 (read 0 (read 0 (read 0 (write false (write false (start 2)))))))

abbrev overtaken : System
overtaken = write false (write false (write false taken))

overtaken-Reach : Reach 2 overtaken
overtaken-Reach =
    let published = later (later initially (writes false)) (writes false) in
    let counted = later (later (later published (reads 0)) (reads 0)) (reads 0) in
    let held = later (later counted (reads 0)) (reads 0) in
    later (later (later held (writes false)) (writes false)) (writes false)

Reach-Safe_example :
    All (Safe overtaken.snapshots) overtaken.readers
    × Present overtaken.snapshots overtaken.active
    × (length overtaken.snapshots ≤ capacity overtaken.writer)
Reach-Safe_example = Reach-Safe overtaken-Reach

abbrev operations : List Operation
operations = report 7 ∷ set_block_reported false ∷ add_allowed 3 ∷ add_blocked 5 ∷ []

apply_each-Admits_example :
    (passes_subsystem 7 (apply_each operations new_filters) ≡ true)
    ↔ Admits (promised_each operations new_view) 7
apply_each-Admits_example = apply_each-Admits operations 7 (λ e. omega arith)

abbrev changes : List Change
changes = set_level 9 2 ∷ set_level 4 1 ∷ set_level 9 3 ∷ remove_level 4 ∷ []

get-change_each_example :
    get_subsystem_level 9 (change_each changes new_levels) ≡ mapped_each changes (λ _. none) 9
get-change_each_example = get-change_each changes 9
