-- ===== src/Logger/Filters.antt =====
-- The lists of blocked, allowed and reported subsystems in Logger.cpp, and the test that a record
-- passes in `DoLog`. Each operation holds `DataLock`.
pub mod Sets
pub mod View
pub mod Members
pub mod Refinement
use logme.Prelude.{
  ℕ, zero, suc, Bool, true, false, not, ◌&&◌, ◌||◌, ◌==◌, ltb, if◌then◌else◌, Option, none, some,
  List, [], ◌∷◌, get_elem?, is_empty,
}
use logme.Logger.Sorted.{lower_bound, is_at, insert_at, erase_at}

abbrev pub self : ℕ → ℕ
self n = n

unfoldable pub add_subsystem_to_list : List ℕ → ℕ → List ℕ
unfolding lower_bound insert_at
add_subsystem_to_list arr id =
    let it = lower_bound self arr id in
    if is_at self (get_elem? arr it) id then arr else insert_at it id arr

unfoldable pub remove_subsystem_from_list : List ℕ → ℕ → List ℕ
unfolding lower_bound erase_at
remove_subsystem_from_list arr id =
    let it = lower_bound self arr id in
    if is_at self (get_elem? arr it) id then erase_at it arr else arr

pub record Filters : Type 0 where
  pub shutdown_called : Bool
  pub block_reported_subsystems : Bool
  pub blocked_subsystems : List ℕ
  pub allowed_subsystems : List ℕ
  pub subsystems : List ℕ

-- The members as the constructor sets them.
abbrev pub new_filters : Filters
new_filters = record {
  shutdown_called = false;
  block_reported_subsystems = true;
  blocked_subsystems = [];
  allowed_subsystems = [];
  subsystems = [];
}

unfoldable pub add_blocked_subsystem : ℕ → Filters → Filters
add_blocked_subsystem sid f =
    if f.shutdown_called
    then f
    else if sid == 0
    then f
    else record f { blocked_subsystems = add_subsystem_to_list f.blocked_subsystems sid }

unfoldable pub remove_blocked_subsystem : ℕ → Filters → Filters
remove_blocked_subsystem sid f =
    if sid == 0
    then f
    else record f { blocked_subsystems = remove_subsystem_from_list f.blocked_subsystems sid }

unfoldable pub add_allowed_subsystem : ℕ → Filters → Filters
add_allowed_subsystem sid f =
    if f.shutdown_called
    then f
    else if sid == 0
    then f
    else record f { allowed_subsystems = add_subsystem_to_list f.allowed_subsystems sid }

unfoldable pub remove_allowed_subsystem : ℕ → Filters → Filters
remove_allowed_subsystem sid f =
    if sid == 0
    then f
    else record f { allowed_subsystems = remove_subsystem_from_list f.allowed_subsystems sid }

unfoldable pub clear_blocked_subsystems : Filters → Filters
clear_blocked_subsystems f = record f { blocked_subsystems = [] }

unfoldable pub clear_allowed_subsystems : Filters → Filters
clear_allowed_subsystems f = record f { allowed_subsystems = [] }

unfoldable pub clear_subsystem_filters : Filters → Filters
clear_subsystem_filters f = record f {
  blocked_subsystems = [];
  allowed_subsystems = [];
  subsystems = [];
}

-- To the list that reported subsystems go to.
unfoldable pub add_reported : ℕ → Filters → Filters
add_reported id f =
    if f.block_reported_subsystems
    then record f { blocked_subsystems = add_subsystem_to_list f.blocked_subsystems id }
    else record f { allowed_subsystems = add_subsystem_to_list f.allowed_subsystems id }

unfoldable pub add_each_reported : List ℕ → Filters → Filters
unfolding add_reported
add_each_reported [] f = f
add_each_reported (id ∷ ids) f = add_each_reported ids (add_reported id f)

unfoldable pub set_block_reported_subsystems : Bool → Filters → Filters
unfolding add_each_reported
set_block_reported_subsystems block f =
    if f.shutdown_called
    then f
    else add_each_reported f.subsystems (record f {
      block_reported_subsystems = block;
      blocked_subsystems = [];
      allowed_subsystems = [];
    })

unfoldable pub report_subsystem : ℕ → Filters → Filters
unfolding add_reported
report_subsystem sid f =
    if f.shutdown_called
    then f
    else if sid == 0
    then f
    else add_reported sid (record f { subsystems = add_subsystem_to_list f.subsystems sid })

unfoldable pub unreport_subsystem : ℕ → Filters → Filters
unreport_subsystem sid f =
    let f' = record f { subsystems = remove_subsystem_from_list f.subsystems sid } in
    if sid == 0
    then f
    else if f.block_reported_subsystems
    then record f' { blocked_subsystems = remove_subsystem_from_list f.blocked_subsystems sid }
    else record f' { allowed_subsystems = remove_subsystem_from_list f.allowed_subsystems sid }

-- What `Shutdown` does to these members.
unfoldable pub shut_down_filters : Filters → Filters
shut_down_filters f = record f { shutdown_called = true }

-- `std::binary_search`.
abbrev pub not_above : Option ℕ → ℕ → Bool
not_above none id = false
not_above (some x) id = not (ltb id x)

unfoldable pub binary_search : List ℕ → ℕ → Bool
unfolding lower_bound
binary_search arr id = not_above (get_elem? arr (lower_bound self arr id)) id

-- Whether `DoLog` goes on with a record of the subsystem.
unfoldable pub passes_subsystem : ℕ → Filters → Bool
passes_subsystem sid f =
    if sid == 0
    then true
    else if binary_search f.blocked_subsystems sid
    then false
    else not (not (is_empty f.allowed_subsystems) && not (binary_search f.allowed_subsystems sid))
