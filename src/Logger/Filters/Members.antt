-- ===== src/Logger/Filters/Members.antt =====
-- What a change of one list does to the three sets.
use logme.Prelude.{ℕ, ◌≡◌, refl, ap, ◌∙◌, Bool, true, false, ◌==◌, if◌then◌else◌, List, []}
use logme.Logger.Sorted.{look}
use logme.Logger.Filters.{Filters, add_subsystem_to_list, remove_subsystem_from_list}
use logme.Logger.Filters.Sets.{
  InOrder, has, including, excluding, nothing, add-InOrder, has-add, remove-InOrder, has-remove,
}
use logme.Logger.Filters.View.{View, Refines}

module _ (arr : List ℕ) (k : ℕ) (g : ℕ → Bool) (s : InOrder arr)
    (e : (id : ℕ) → has arr id ≡ g id) where
  added : (id : ℕ) → has (add_subsystem_to_list arr k) id ≡ including k g id
  added id = has-add arr k s id ∙ ap (λ b. if k == id then true else b) (e id)

  removed : (id : ℕ) → has (remove_subsystem_from_list arr k) id ≡ excluding k g id
  removed id = has-remove arr k s id ∙ ap (λ b. if k == id then false else b) (e id)

pub none_there : (id : ℕ) → has [] id ≡ nothing id
unfolding look
none_there id = refl

module _ (f : Filters) (v : View) (r : Refines f v) where
  pub blocked_by :
      (l : List ℕ) (g : ℕ → Bool)
      → InOrder l
      → ((id : ℕ) → has l id ≡ g id)
      → Refines (record f { blocked_subsystems = l }) (record v { blocked = g })
  blocked_by l g s e = record {
    down = r.down;
    mode = r.mode;
    blocked_order = s;
    allowed_order = r.allowed_order;
    reported_order = r.reported_order;
    same_blocked = e;
    same_allowed = r.same_allowed;
    same_reported = r.same_reported;
  }

  pub allowed_by :
      (l : List ℕ) (g : ℕ → Bool)
      → InOrder l
      → ((id : ℕ) → has l id ≡ g id)
      → Refines (record f { allowed_subsystems = l }) (record v { allowed = g })
  allowed_by l g s e = record {
    down = r.down;
    mode = r.mode;
    blocked_order = r.blocked_order;
    allowed_order = s;
    reported_order = r.reported_order;
    same_blocked = r.same_blocked;
    same_allowed = e;
    same_reported = r.same_reported;
  }

  pub reported_by :
      (l : List ℕ) (g : ℕ → Bool)
      → InOrder l
      → ((id : ℕ) → has l id ≡ g id)
      → Refines (record f { subsystems = l }) (record v { reported = g })
  reported_by l g s e = record {
    down = r.down;
    mode = r.mode;
    blocked_order = r.blocked_order;
    allowed_order = r.allowed_order;
    reported_order = s;
    same_blocked = r.same_blocked;
    same_allowed = r.same_allowed;
    same_reported = e;
  }

-- Two tests that agree.
pub both :
    (b c : Bool) {f g : Filters} {v w : View}
    → b ≡ c
    → Refines f v
    → Refines g w
    → Refines (if b then f else g) (if c then v else w)
both true true e r s = r
both true false e r s = absurd (cc)
both false true e r s = absurd (cc)
both false false e r s = s

module _ (k : ℕ) (f : Filters) (v : View) (r : Refines f v) where
  pub including_blocked :
      Refines
        (record f { blocked_subsystems = add_subsystem_to_list f.blocked_subsystems k })
        (record v { blocked = including k v.blocked })
  including_blocked =
      blocked_by f v r _ _ (add-InOrder f.blocked_subsystems k r.blocked_order)
        (added f.blocked_subsystems k v.blocked r.blocked_order r.same_blocked)

  pub excluding_blocked :
      Refines
        (record f { blocked_subsystems = remove_subsystem_from_list f.blocked_subsystems k })
        (record v { blocked = excluding k v.blocked })
  excluding_blocked =
      blocked_by f v r _ _ (remove-InOrder f.blocked_subsystems k r.blocked_order)
        (removed f.blocked_subsystems k v.blocked r.blocked_order r.same_blocked)

  pub including_allowed :
      Refines
        (record f { allowed_subsystems = add_subsystem_to_list f.allowed_subsystems k })
        (record v { allowed = including k v.allowed })
  including_allowed =
      allowed_by f v r _ _ (add-InOrder f.allowed_subsystems k r.allowed_order)
        (added f.allowed_subsystems k v.allowed r.allowed_order r.same_allowed)

  pub excluding_allowed :
      Refines
        (record f { allowed_subsystems = remove_subsystem_from_list f.allowed_subsystems k })
        (record v { allowed = excluding k v.allowed })
  excluding_allowed =
      allowed_by f v r _ _ (remove-InOrder f.allowed_subsystems k r.allowed_order)
        (removed f.allowed_subsystems k v.allowed r.allowed_order r.same_allowed)

  pub including_reported :
      Refines
        (record f { subsystems = add_subsystem_to_list f.subsystems k })
        (record v { reported = including k v.reported })
  including_reported =
      reported_by f v r _ _ (add-InOrder f.subsystems k r.reported_order)
        (added f.subsystems k v.reported r.reported_order r.same_reported)

  pub excluding_reported :
      Refines
        (record f { subsystems = remove_subsystem_from_list f.subsystems k })
        (record v { reported = excluding k v.reported })
  excluding_reported =
      reported_by f v r _ _ (remove-InOrder f.subsystems k r.reported_order)
        (removed f.subsystems k v.reported r.reported_order r.same_reported)
