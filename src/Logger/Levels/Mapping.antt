-- ===== src/Logger/Levels/Mapping.antt =====
-- The table of levels implements a map, whatever the sequence of changes.
use logme.Prelude.{
  ℕ, ◌≡◌, refl, sym, ap, ◌∙◌, subst, ==_iff, Bool, true, false, ◌||◌, ◌==◌, if◌then◌else◌, Option,
  none, some, List, [], ◌∷◌, get_elem?, set, is_empty, Bool-cases, inl, inr, arith,
}
use logme.Logger.Sorted.{lower_bound, is_at, Sorted, look, insert_at, found}
use logme.Logger.Sorted.Laws.{
  found-look, insert_at-Sorted, look-insert_at, set-Sorted, look-set, erase_at-Sorted,
  look-erase_at,
}
use logme.Logger.Levels.{
  SubsystemLevel, key_of, Levels, new_levels, publish_snapshot, set_subsystem_level,
  remove_subsystem_level, clear_subsystem_levels, level_at, level_in, get_subsystem_level,
}

pub data Change : Type 0 where
  set_level : ℕ → ℕ → Change
  remove_level : ℕ → Change
  clear_levels : Change

unfoldable pub change : Change → Levels → Levels
unfolding set_subsystem_level remove_subsystem_level clear_subsystem_levels
change (set_level sid level) t = set_subsystem_level sid level t
change (remove_level sid) t = remove_subsystem_level sid t
change clear_levels t = clear_subsystem_levels t

unfoldable pub change_each : List Change → Levels → Levels
unfolding change
change_each [] t = t
change_each (c ∷ cs) t = change_each cs (change c t)

-- The map that the changes make; subsystem 0 is none.
unfoldable pub mapped : Change → (ℕ → Option ℕ) → ℕ → Option ℕ
mapped (set_level k level) m sid = if k == 0 then m sid else if k == sid then some level else m sid
mapped (remove_level k) m sid = if k == sid then none else m sid
mapped clear_levels m sid = none

unfoldable pub mapped_each : List Change → (ℕ → Option ℕ) → ℕ → Option ℕ
unfolding mapped
mapped_each [] m = m
mapped_each (c ∷ cs) m = mapped_each cs (mapped c m)

abbrev level_of : Option SubsystemLevel → Option ℕ
level_of none = none
level_of (some l) = some l.filter_level

record IsMap (t : Levels) (m : ℕ → Option ℕ) : Type 0 where
  running : t.shutdown_called ≡ false
  order : Sorted key_of t.subsystem_levels
  published :
      t.active_snapshot ≡ (if is_empty t.subsystem_levels then none else some t.subsystem_levels)
  same : (sid : ℕ) → level_of (look key_of sid t.subsystem_levels) ≡ m sid
  no_zero : m 0 ≡ none

chosen :
    (P : Levels → Type 0) (b c : Bool) {t u : Levels}
    → b ≡ c
    → (c ≡ true → P t)
    → (c ≡ false → P u)
    → P (if b then t else u)
chosen P true true e p q = p refl
chosen P true false e p q = absurd (cc)
chosen P false true e p q = absurd (cc)
chosen P false false e p q = q refl

level_at-is_at :
    (o : Option SubsystemLevel) (sid : ℕ)
    → level_at o sid ≡ level_of (if is_at key_of o sid then o else none)
level_at-is_at none sid = refl
level_at-is_at (some l) sid = ground arith

level_at-found :
    (l : List SubsystemLevel) (sid : ℕ)
    → Sorted key_of l
    → level_at (get_elem? l (lower_bound key_of l sid)) sid ≡ level_of (look key_of sid l)
unfolding found
level_at-found l sid s =
    level_at-is_at (get_elem? l (lower_bound key_of l sid)) sid
    ∙ ap level_of (found-look key_of sid l s)

level_in-published :
    (l : List SubsystemLevel) (sid : ℕ)
    → Sorted key_of l
    → level_in sid (if is_empty l then none else some l) ≡ level_of (look key_of sid l)
unfolding look
level_in-published [] sid s = refl
level_in-published (x ∷ l) sid s = level_at-found (x ∷ l) sid s

get-IsMap :
    (t : Levels) (m : ℕ → Option ℕ) (sid : ℕ) → IsMap t m → get_subsystem_level sid t ≡ m sid
unfolding get_subsystem_level
get-IsMap t m sid v = elim (Bool-cases (sid == 0)) [
  | inl zero_id ↦
      rw zero_id (subst (λ n. none ≡ m n) (sym ((==_iff sid 0).0 zero_id)) (sym v.no_zero))
  | inr other ↦ rw other (
      ap (level_in sid) v.published
      ∙ level_in-published t.subsystem_levels sid v.order
      ∙ v.same sid)
]

module _ (t : Levels) (m : ℕ → Option ℕ) (v : IsMap t m) (k : ℕ) where
  abbrev place : Option SubsystemLevel
  place = get_elem? t.subsystem_levels (lower_bound key_of t.subsystem_levels k)

  present :
      is_at key_of place k ≡ true
      → (x : SubsystemLevel) × (found key_of t.subsystem_levels k ≡ some x)
  unfolding found
  present e = rw e (at_place place e)
    where
      at_place :
          (o : Option SubsystemLevel)
          → is_at key_of o k ≡ true
          → (x : SubsystemLevel) × (o ≡ some x)
      at_place none h = absurd (cc)
      at_place (some x) h = (x, refl)

  absent : is_at key_of place k ≡ false → found key_of t.subsystem_levels k ≡ none
  unfolding found
  absent e = rw e refl

  -- A table in order with the members of the new map, once it is published.
  republished :
      (l : List SubsystemLevel) (m' : ℕ → Option ℕ)
      → Sorted key_of l
      → ((sid : ℕ) → level_of (look key_of sid l) ≡ m' sid)
      → m' 0 ≡ none
      → IsMap (publish_snapshot (record t { subsystem_levels = l })) m'
  unfolding publish_snapshot
  republished l m' s e z = record {
    running = v.running;
    order = s;
    published = refl;
    same = e;
    no_zero = z;
  }

  module _ (level : ℕ) where
    abbrev item : SubsystemLevel
    item = record { subsystem = k; filter_level = level }

    abbrev with_item : List SubsystemLevel
    with_item =
        if is_at key_of place k
        then set t.subsystem_levels (lower_bound key_of t.subsystem_levels k) item
        else insert_at (lower_bound key_of t.subsystem_levels k) item t.subsystem_levels

    with_item-Sorted : Sorted key_of with_item
    with_item-Sorted = elim (Bool-cases (is_at key_of place k)) [
      | inl old ↦
          rw old (set-Sorted key_of item (present old).0 t.subsystem_levels (present old).1 v.order)
      | inr new ↦ rw new (insert_at-Sorted key_of item t.subsystem_levels (absent new) v.order)
    ]

    look-with_item :
        (sid : ℕ)
        → look key_of sid with_item
          ≡ (if k == sid then some item else look key_of sid t.subsystem_levels)
    look-with_item sid = elim (Bool-cases (is_at key_of place k)) [
      | inl old ↦
          rw old (look-set key_of sid item (present old).0 t.subsystem_levels (present old).1)
      | inr new ↦ rw new (look-insert_at key_of sid item t.subsystem_levels)
    ]

    set-IsMap : IsMap (set_subsystem_level k level t) (mapped (set_level k level) m)
    unfolding set_subsystem_level mapped
    set-IsMap =
        chosen (λ t'. IsMap t' (mapped (set_level k level) m)) _ (k == 0)
          (ap (λ b. b || k == 0) v.running)
          (λ z. record {
            running = v.running;
            order = v.order;
            published = v.published;
            same = λ sid. v.same sid ∙ ground (arith, z);
            no_zero = rw z v.no_zero;
          })
          λ z.
            republished with_item _ with_item-Sorted
              (λ sid. ground (arith, look-with_item sid, v.same sid, z))
              (ground (arith, v.no_zero, z))

  remove-IsMap : IsMap (remove_subsystem_level k t) (mapped (remove_level k) m)
  unfolding remove_subsystem_level mapped
  remove-IsMap =
      chosen (λ t'. IsMap t' (mapped (remove_level k) m)) (k == 0) (k == 0) refl
        (λ z. record {
          running = v.running;
          order = v.order;
          published = v.published;
          same = λ sid. ground (arith, v.same sid, v.no_zero, z);
          no_zero = ground (arith, v.no_zero);
        })
        λ z.
          chosen (λ t'. IsMap t' (mapped (remove_level k) m)) (is_at key_of place k)
            (is_at key_of place k) refl
            (λ old.
              republished _ _ (erase_at-Sorted key_of _ t.subsystem_levels v.order)
                (λ sid. ground (
                  arith,
                  v.same sid,
                  look-erase_at key_of sid k (present old).0 t.subsystem_levels v.order
                      (present old).1,
                ))
                (ground (arith, v.no_zero)))
            λ new. record {
              running = v.running;
              order = v.order;
              published = v.published;
              same = λ sid.
                  ground
                    (arith, v.same sid, absent new, found-look key_of k t.subsystem_levels v.order);
              no_zero = ground (arith, v.no_zero);
            }

change-IsMap :
    (c : Change) (t : Levels) (m : ℕ → Option ℕ) → IsMap t m → IsMap (change c t) (mapped c m)
unfolding change mapped clear_subsystem_levels look
change-IsMap (set_level k level) t m v = set-IsMap t m v k level
change-IsMap (remove_level k) t m v = remove-IsMap t m v k
change-IsMap clear_levels t m v = republished t m v 0 [] (λ sid. none) tt (λ sid. refl) refl

change_each-IsMap :
    (cs : List Change) (t : Levels) (m : ℕ → Option ℕ)
    → IsMap t m
    → IsMap (change_each cs t) (mapped_each cs m)
unfolding change_each mapped_each
change_each-IsMap [] t m v = v
change_each-IsMap (c ∷ cs) t m v =
    change_each-IsMap cs (change c t) (mapped c m) (change-IsMap c t m v)

new-IsMap : IsMap new_levels (λ sid. none)
unfolding look
new-IsMap = record {
  running = refl;
  order = tt;
  published = refl;
  same = λ sid. refl;
  no_zero = refl;
}

-- After any sequence of changes to the levels of a new logger that is not shut down,
-- `GetSubsystemLevel` gives for each subsystem the level that was set last and not removed since, and
-- nothing where there is none.
pub get-change_each :
    (cs : List Change) (sid : ℕ)
    → get_subsystem_level sid (change_each cs new_levels) ≡ mapped_each cs (λ _. none) sid
get-change_each cs sid =
    get-IsMap (change_each cs new_levels) (mapped_each cs (λ _. none)) sid
      (change_each-IsMap cs new_levels (λ _. none) new-IsMap)
