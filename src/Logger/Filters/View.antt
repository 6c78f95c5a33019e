-- ===== src/Logger/Filters/View.antt =====
-- The sets of subsystems that the lists of Logger.cpp stand for, and what each operation promises.
use logme.Prelude.{ℕ, ◌≡◌, Bool, true, false, ◌==◌, if◌then◌else◌, List, [], ◌∷◌}
use logme.Logger.Filters.{
  Filters, add_blocked_subsystem, remove_blocked_subsystem, add_allowed_subsystem,
  remove_allowed_subsystem, clear_blocked_subsystems, clear_allowed_subsystems,
  clear_subsystem_filters, set_block_reported_subsystems, report_subsystem, unreport_subsystem,
  shut_down_filters,
}
use logme.Logger.Filters.Sets.{InOrder, has, including, excluding, nothing}

pub data Operation : Type 0 where
  add_blocked : ℕ → Operation
  remove_blocked : ℕ → Operation
  add_allowed : ℕ → Operation
  remove_allowed : ℕ → Operation
  clear_blocked : Operation
  clear_allowed : Operation
  clear_filters : Operation
  set_block_reported : Bool → Operation
  report : ℕ → Operation
  unreport : ℕ → Operation
  shut_down : Operation

unfoldable pub apply : Operation → Filters → Filters
unfolding add_blocked_subsystem remove_blocked_subsystem add_allowed_subsystem
    remove_allowed_subsystem clear_blocked_subsystems clear_allowed_subsystems
    clear_subsystem_filters set_block_reported_subsystems report_subsystem unreport_subsystem
    shut_down_filters
apply (add_blocked k) f = add_blocked_subsystem k f
apply (remove_blocked k) f = remove_blocked_subsystem k f
apply (add_allowed k) f = add_allowed_subsystem k f
apply (remove_allowed k) f = remove_allowed_subsystem k f
apply clear_blocked f = clear_blocked_subsystems f
apply clear_allowed f = clear_allowed_subsystems f
apply clear_filters f = clear_subsystem_filters f
apply (set_block_reported b) f = set_block_reported_subsystems b f
apply (report k) f = report_subsystem k f
apply (unreport k) f = unreport_subsystem k f
apply shut_down f = shut_down_filters f

unfoldable pub apply_each : List Operation → Filters → Filters
unfolding apply
apply_each [] f = f
apply_each (o ∷ os) f = apply_each os (apply o f)

-- Three sets of subsystems.
pub record View : Type 0 where
  pub is_shut_down : Bool
  pub blocks_reported : Bool
  pub blocked : ℕ → Bool
  pub allowed : ℕ → Bool
  pub reported : ℕ → Bool

-- The sets of a new logger.
abbrev pub new_view : View
new_view = record {
  is_shut_down = false;
  blocks_reported = true;
  blocked = nothing;
  allowed = nothing;
  reported = nothing;
}

abbrev pub to_reported : ((ℕ → Bool) → ℕ → Bool) → View → View
to_reported g v =
    if v.blocks_reported
    then record v { blocked = g v.blocked; reported = g v.reported }
    else record v { allowed = g v.allowed; reported = g v.reported }

-- What an operation promises, on sets. After a shutdown nothing is added, and subsystem 0 is none.
unfoldable pub promised : Operation → View → View
promised (add_blocked k) v =
    if v.is_shut_down then v else if k == 0 then v else record v { blocked = including k v.blocked }
promised (remove_blocked k) v = if k == 0 then v else record v { blocked = excluding k v.blocked }
promised (add_allowed k) v =
    if v.is_shut_down then v else if k == 0 then v else record v { allowed = including k v.allowed }
promised (remove_allowed k) v = if k == 0 then v else record v { allowed = excluding k v.allowed }
promised clear_blocked v = record v { blocked = nothing }
promised clear_allowed v = record v { allowed = nothing }
promised clear_filters v = record v { blocked = nothing; allowed = nothing; reported = nothing }
promised (set_block_reported b) v = if v.is_shut_down then v else record v {
  blocks_reported = b;
  blocked = if b then v.reported else nothing;
  allowed = if b then nothing else v.reported;
}
promised (report k) v =
    if v.is_shut_down then v else if k == 0 then v else to_reported (including k) v
promised (unreport k) v = if k == 0 then v else to_reported (excluding k) v
promised shut_down v = record v { is_shut_down = true }

unfoldable pub promised_each : List Operation → View → View
unfolding promised
promised_each [] v = v
promised_each (o ∷ os) v = promised_each os (promised o v)

-- The lists are in order, and have the members of the sets.
pub record Refines (f : Filters) (v : View) : Type 0 where
  pub down : f.shutdown_called ≡ v.is_shut_down
  pub mode : f.block_reported_subsystems ≡ v.blocks_reported
  pub blocked_order : InOrder f.blocked_subsystems
  pub allowed_order : InOrder f.allowed_subsystems
  pub reported_order : InOrder f.subsystems
  pub same_blocked : (id : ℕ) → has f.blocked_subsystems id ≡ v.blocked id
  pub same_allowed : (id : ℕ) → has f.allowed_subsystems id ≡ v.allowed id
  pub same_reported : (id : ℕ) → has f.subsystems id ≡ v.reported id
