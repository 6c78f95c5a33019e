-- ===== src/Logger/Filters/Refinement.antt =====
-- The lists of subsystems implement sets, whatever the sequence of operations.
use logme.Prelude.{
  ℕ, ◌≡◌, ◌≢◌, refl, sym, ◌∙◌, subst, Bool, true, false, not, ◌&&◌, ◌||◌, ◌==◌, if◌then◌else◌, List,
  [], ◌∷◌, ◌⊎◌, ◌↔◌, is_empty, inl, inr, arith,
}
use logme.Logger.Sorted.{look}
use logme.Logger.Filters.{Filters, new_filters, add_each_reported, passes_subsystem}
use logme.Logger.Filters.Sets.{has, including, nothing, binary_search-has}
use logme.Logger.Filters.View.{
  Operation, add_blocked, remove_blocked, add_allowed, remove_allowed, clear_blocked, clear_allowed,
  clear_filters, set_block_reported, report, unreport, shut_down, apply, apply_each, View, new_view,
  promised, promised_each, Refines,
}
use logme.Logger.Filters.Members.{
  blocked_by, allowed_by, reported_by, both, none_there, including_blocked, excluding_blocked,
  including_allowed, excluding_allowed, including_reported, excluding_reported,
}

-- The loop of `SetBlockReportedSubsystems`, in each mode.
taken_branch {ℓ} : {A : Type ℓ} (b : Bool) (x y : A) → b ≡ true → (if b then x else y) ≡ x
taken_branch true x y e = refl
taken_branch false x y e = absurd (cc)

other_branch {ℓ} : {A : Type ℓ} (b : Bool) (x y : A) → b ≡ false → (if b then x else y) ≡ y
other_branch false x y e = refl
other_branch true x y e = absurd (cc)

has-cons :
    (i : ℕ) (ids : List ℕ) (g : ℕ → Bool) (id : ℕ)
    → (has (i ∷ ids) id || g id) ≡ (has ids id || including i g id)
unfolding look
has-cons i ids g id = ground arith

each_blocked :
    (ids : List ℕ) (f : Filters) (v : View) (g : ℕ → Bool)
    → Refines f v
    → f.block_reported_subsystems ≡ true
    → ((id : ℕ) → (has ids id || v.blocked id) ≡ g id)
    → Refines (add_each_reported ids f) (record v { blocked = g })
unfolding add_each_reported look
each_blocked [] f v g r e h =
    blocked_by f v r f.blocked_subsystems g r.blocked_order (λ id. r.same_blocked id ∙ h id)
each_blocked (i ∷ ids) f v g r e h =
    subst (λ f'. Refines (add_each_reported ids f') (record v { blocked = g }))
      (sym (taken_branch f.block_reported_subsystems _ _ e))
      (each_blocked ids _ _ g (including_blocked i f v r) e
        λ id. sym (has-cons i ids v.blocked id) ∙ h id)

each_allowed :
    (ids : List ℕ) (f : Filters) (v : View) (g : ℕ → Bool)
    → Refines f v
    → f.block_reported_subsystems ≡ false
    → ((id : ℕ) → (has ids id || v.allowed id) ≡ g id)
    → Refines (add_each_reported ids f) (record v { allowed = g })
unfolding add_each_reported look
each_allowed [] f v g r e h =
    allowed_by f v r f.allowed_subsystems g r.allowed_order (λ id. r.same_allowed id ∙ h id)
each_allowed (i ∷ ids) f v g r e h =
    subst (λ f'. Refines (add_each_reported ids f') (record v { allowed = g }))
      (sym (other_branch f.block_reported_subsystems _ _ e))
      (each_allowed ids _ _ g (including_allowed i f v r) e
        λ id. sym (has-cons i ids v.allowed id) ∙ h id)

abbrev emptied : Bool → View → View
emptied b v = record v { blocks_reported = b; blocked = nothing; allowed = nothing }

emptied-Refines :
    (b : Bool) (f : Filters) (v : View)
    → Refines f v
    → Refines
        (record f {
          block_reported_subsystems = b;
          blocked_subsystems = [];
          allowed_subsystems = [];
        })
        (emptied b v)
emptied-Refines b f v r = record {
  down = r.down;
  mode = refl;
  blocked_order = tt;
  allowed_order = tt;
  reported_order = r.reported_order;
  same_blocked = none_there;
  same_allowed = none_there;
  same_reported = r.same_reported;
}

or_nothing : (b : Bool) → (b || false) ≡ b
or_nothing true = refl
or_nothing false = refl

-- Each operation does to the lists what it promises of the sets.
apply-Refines :
    (o : Operation) (f : Filters) (v : View) → Refines f v → Refines (apply o f) (promised o v)
unfolding apply promised
apply-Refines (add_blocked k) f v r =
    both _ _ r.down r (both (k == 0) (k == 0) refl r (including_blocked k f v r))
apply-Refines (remove_blocked k) f v r = both (k == 0) (k == 0) refl r (excluding_blocked k f v r)
apply-Refines (add_allowed k) f v r =
    both _ _ r.down r (both (k == 0) (k == 0) refl r (including_allowed k f v r))
apply-Refines (remove_allowed k) f v r = both (k == 0) (k == 0) refl r (excluding_allowed k f v r)
apply-Refines clear_blocked f v r = blocked_by f v r [] nothing tt none_there
apply-Refines clear_allowed f v r = allowed_by f v r [] nothing tt none_there
apply-Refines clear_filters f v r =
    reported_by _ _
      (allowed_by _ _ (blocked_by f v r [] nothing tt none_there) [] nothing tt none_there) []
      nothing tt none_there
apply-Refines (set_block_reported true) f v r = both _ _ r.down r (
    each_blocked f.subsystems _ (emptied true v) v.reported (emptied-Refines true f v r) refl
      λ id. or_nothing (has f.subsystems id) ∙ r.same_reported id)
apply-Refines (set_block_reported false) f v r = both _ _ r.down r (
    each_allowed f.subsystems _ (emptied false v) v.reported (emptied-Refines false f v r) refl
      λ id. or_nothing (has f.subsystems id) ∙ r.same_reported id)
apply-Refines (report k) f v r =
    let s = including_reported k f v r in
    both _ _ r.down r (
      both (k == 0) (k == 0) refl r
        (both _ _ r.mode (including_blocked k _ _ s) (including_allowed k _ _ s)))
apply-Refines (unreport k) f v r =
    let s = excluding_reported k f v r in
    both (k == 0) (k == 0) refl r
      (both _ _ r.mode (excluding_blocked k _ _ s) (excluding_allowed k _ _ s))
apply-Refines shut_down f v r = record {
  down = refl;
  mode = r.mode;
  blocked_order = r.blocked_order;
  allowed_order = r.allowed_order;
  reported_order = r.reported_order;
  same_blocked = r.same_blocked;
  same_allowed = r.same_allowed;
  same_reported = r.same_reported;
}

apply_each-Refines :
    (os : List Operation) (f : Filters) (v : View)
    → Refines f v
    → Refines (apply_each os f) (promised_each os v)
unfolding apply_each promised_each
apply_each-Refines [] f v r = r
apply_each-Refines (o ∷ os) f v r =
    apply_each-Refines os (apply o f) (promised o v) (apply-Refines o f v r)

new-Refines : Refines new_filters new_view
new-Refines = record {
  down = refl;
  mode = refl;
  blocked_order = tt;
  allowed_order = tt;
  reported_order = tt;
  same_blocked = none_there;
  same_allowed = none_there;
  same_reported = none_there;
}

-- Only an empty list has no members.
empty_or_has :
    (l : List ℕ)
    → ((is_empty l ≡ true) × ((id : ℕ) → has l id ≡ false))
      ⊎ ((is_empty l ≡ false) × ((id : ℕ) × (has l id ≡ true)))
unfolding look
empty_or_has [] = inl (refl, λ id. refl)
empty_or_has (x ∷ xs) = inr (refl, (x, ground arith))

-- The sets admit a subsystem.
abbrev pub Admits : View → ℕ → Type 0
Admits v sid =
    (v.blocked sid ≡ false) × ((v.allowed sid ≡ true) ⊎ ((id : ℕ) → v.allowed id ≡ false))

-- `DoLog`'s tests, on the answers of the searches.
passes_test : (b e a : Bool) → Bool
passes_test b e a = if b then false else not (not e && not a)

passes_subsystem-passes_test :
    (sid : ℕ) (f : Filters) (v : View)
    → sid ≢ 0
    → Refines f v
    → passes_subsystem sid f
      ≡ passes_test (v.blocked sid) (is_empty f.allowed_subsystems) (v.allowed sid)
unfolding passes_subsystem passes_test
passes_subsystem-passes_test sid f v nonzero r = ground (
  arith,
  binary_search-has f.blocked_subsystems sid r.blocked_order,
  binary_search-has f.allowed_subsystems sid r.allowed_order,
  r.same_blocked sid,
  r.same_allowed sid,
)

passes_test-Admits :
    (sid : ℕ) (e : Bool) (v : View)
    → ((e ≡ true) × ((id : ℕ) → v.allowed id ≡ false))
      ⊎ ((e ≡ false) × ((id : ℕ) × (v.allowed id ≡ true)))
    → (passes_test (v.blocked sid) e (v.allowed sid) ≡ true) ↔ Admits v sid
unfolding passes_test
passes_test-Admits sid e v (inl (empty, none_allowed)) =
    (λ h. (ground arith, inr none_allowed), λ h. ground arith)
passes_test-Admits sid e v (inr (some_left, (id, one))) =
    (λ h. (ground arith, inl (ground arith)), λ h. admitted h.0 h.1)
  where
    admitted :
        v.blocked sid ≡ false
        → (v.allowed sid ≡ true) ⊎ ((id : ℕ) → v.allowed id ≡ false)
        → passes_test (v.blocked sid) e (v.allowed sid) ≡ true
    admitted h (inl k) = ground arith
    admitted h (inr none_allowed) = absurd (cc (none_allowed id))

passes-Admits :
    (sid : ℕ) (f : Filters) (v : View)
    → sid ≢ 0
    → Refines f v
    → (passes_subsystem sid f ≡ true) ↔ Admits v sid
passes-Admits sid f v nonzero r = rw (passes_subsystem-passes_test sid f v nonzero r) (
    passes_test-Admits sid (is_empty f.allowed_subsystems) v
      (elim (empty_or_has f.allowed_subsystems) [
        | inl (e, h) ↦ inl (e, λ id. sym (r.same_allowed id) ∙ h id)
        | inr (e, (id, h)) ↦ inr (e, (id, sym (r.same_allowed id) ∙ h))
      ]))

-- After any sequence of operations on a new logger, a record of a subsystem other than 0 passes the
-- tests of `DoLog` exactly where the sets that the operations promise admit it: it is not blocked, and
-- it is allowed or no subsystem is.
pub apply_each-Admits :
    (os : List Operation) (sid : ℕ)
    → sid ≢ 0
    → (passes_subsystem sid (apply_each os new_filters) ≡ true)
      ↔ Admits (promised_each os new_view) sid
apply_each-Admits os sid nonzero =
    passes-Admits sid _ _ nonzero (apply_each-Refines os new_filters new_view new-Refines)
