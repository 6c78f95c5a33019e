-- ===== src/Logger/Levels.antt =====
-- The levels of subsystems in Logger.cpp, with the snapshot that is published after each change.
-- Readers and the deletion of snapshots are in Snapshots; here no reader comes between.
pub mod Mapping
use logme.Prelude.{
  ℕ, Bool, true, false, ◌||◌, ◌==◌, if◌then◌else◌, Option, none, some, List, [], ◌∷◌, get_elem?,
  set, is_empty,
}
use logme.Logger.Sorted.{lower_bound, is_at, insert_at, erase_at}

pub record SubsystemLevel : Type 0 where
  pub subsystem : ℕ
  pub filter_level : ℕ

abbrev pub key_of : SubsystemLevel → ℕ
key_of l = l.subsystem

pub record Levels : Type 0 where
  pub shutdown_called : Bool
  pub subsystem_levels : List SubsystemLevel
  pub active_snapshot : Option (List SubsystemLevel)

abbrev pub new_levels : Levels
new_levels = record { shutdown_called = false; subsystem_levels = []; active_snapshot = none }

-- A copy of the table, or null if it is empty.
unfoldable pub publish_snapshot : Levels → Levels
publish_snapshot t = record t {
  active_snapshot = if is_empty t.subsystem_levels then none else some t.subsystem_levels;
}

unfoldable pub set_subsystem_level : ℕ → ℕ → Levels → Levels
unfolding publish_snapshot
set_subsystem_level sid level t =
    let item : SubsystemLevel = record { subsystem = sid; filter_level = level } in
    let it = lower_bound key_of t.subsystem_levels sid in
    if t.shutdown_called || sid == 0
    then t
    else publish_snapshot (record t {
      subsystem_levels =
          if is_at key_of (get_elem? t.subsystem_levels it) sid
          then set t.subsystem_levels it item
          else insert_at it item t.subsystem_levels;
    })

unfoldable pub remove_subsystem_level : ℕ → Levels → Levels
unfolding publish_snapshot
remove_subsystem_level sid t =
    let it = lower_bound key_of t.subsystem_levels sid in
    if sid == 0
    then t
    else if is_at key_of (get_elem? t.subsystem_levels it) sid
    then publish_snapshot (record t { subsystem_levels = erase_at it t.subsystem_levels })
    else t

unfoldable pub clear_subsystem_levels : Levels → Levels
unfolding publish_snapshot
clear_subsystem_levels t = publish_snapshot (record t { subsystem_levels = [] })

abbrev pub level_at : Option SubsystemLevel → ℕ → Option ℕ
level_at none sid = none
level_at (some l) sid = if l.subsystem == sid then some l.filter_level else none

abbrev pub level_in : ℕ → Option (List SubsystemLevel) → Option ℕ
level_in sid none = none
level_in sid (some levels) = level_at (get_elem? levels (lower_bound key_of levels sid)) sid

-- `none` is the return value false, on which `level` keeps what it held.
unfoldable pub get_subsystem_level : ℕ → Levels → Option ℕ
get_subsystem_level sid t = if sid == 0 then none else level_in sid t.active_snapshot

abbrev pub is_active : Option (List SubsystemLevel) → Bool
is_active none = false
is_active (some levels) = true

unfoldable pub has_subsystem_level_overrides : Levels → Bool
has_subsystem_level_overrides t = is_active t.active_snapshot
