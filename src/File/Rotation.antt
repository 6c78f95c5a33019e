-- ===== src/File/Rotation.antt =====
-- FileTimeRotationPolicy.cpp: when a log file is rotated because a new hour, day, week or month began.
-- Times are seconds since 1970, not before it. `localtime` and `mktime` are parameters; `none` is a
-- failure, for `mktime` the value -1, and `tm_isdst` is -1 wherever `mktime` is called.
pub mod Linear
pub mod Periods
pub mod Calls
use logme.Prelude.{
  ℕ, suc, ◌+◌, ◌-◌, ◌*◌, ◌%◌, Bool, true, false, not, ◌||◌, ◌==◌, ltb, leb, if◌then◌else◌, Option,
  none, some, List, [], ◌∷◌,
}

pub data ℤ : Type 0 where
  pos : ℕ → ℤ
  negsuc : ℕ → ℤ

-- An integer and a natural number added.
abbrev pub add : ℤ → ℕ → ℤ
add (pos m) k = pos (m + k)
add (negsuc m) k = if ltb m k then pos (k - suc m) else negsuc (m - k)

abbrev pub subtract : ℤ → ℕ → ℤ
subtract (pos m) k = if leb k m then pos (m - k) else negsuc (k - suc m)
subtract (negsuc m) k = negsuc (m + k)

-- The fields of `struct tm` that the code looks at.
pub record Tm : Type 0 where
  pub tm_sec : ℕ
  pub tm_min : ℕ
  pub tm_hour : ℕ
  pub tm_mday : ℤ
  pub tm_mon : ℕ
  pub tm_year : ℕ
  pub tm_wday : ℕ

pub data TimeRotationMode : Type 0 where
  time_rotation_none : TimeRotationMode
  time_rotation_hourly : TimeRotationMode
  time_rotation_daily : TimeRotationMode
  time_rotation_weekly : TimeRotationMode
  time_rotation_monthly : TimeRotationMode

pub record FileTimeRotationPolicy : Type 0 where
  pub mode : TimeRotationMode
  pub period_start : ℕ
  pub next_period_start : ℕ

abbrev pub is_enabled : TimeRotationMode → Bool
is_enabled time_rotation_none = false
is_enabled mode = true

-- The length of a period that stands in for the calendar where it fails.
abbrev pub fallback_period : TimeRotationMode → ℕ
fallback_period time_rotation_hourly = 60 * 60
fallback_period time_rotation_weekly = 7 * 24 * 60 * 60
fallback_period mode = 24 * 60 * 60

-- The fields at the start of the period.
abbrev pub start_fields : TimeRotationMode → Tm → Tm
start_fields time_rotation_hourly c = record c { tm_min = 0; tm_sec = 0 }
start_fields time_rotation_weekly c = record c {
  tm_hour = 0;
  tm_min = 0;
  tm_sec = 0;
  tm_mday = subtract c.tm_mday ((c.tm_wday + 6) % 7);
}
start_fields time_rotation_monthly c = record c {
  tm_hour = 0;
  tm_min = 0;
  tm_sec = 0;
  tm_mday = pos 1;
}
start_fields mode c = record c { tm_hour = 0; tm_min = 0; tm_sec = 0 }

-- The fields one period later.
abbrev pub next_fields : TimeRotationMode → Tm → Tm
next_fields time_rotation_hourly c = record c { tm_hour = c.tm_hour + 1 }
next_fields time_rotation_weekly c = record c { tm_mday = add c.tm_mday 7 }
next_fields time_rotation_monthly c = record c { tm_mon = c.tm_mon + 1 }
next_fields mode c = record c { tm_mday = add c.tm_mday 1 }

-- The start of a period, which is `now` where the calendar fails, and the end of one.
abbrev pub start_of_period : ℕ → Option ℕ → ℕ
start_of_period now none = now
start_of_period now (some t) = t

abbrev pub end_of_period : TimeRotationMode → ℕ → Option ℕ → ℕ
end_of_period mode start none = start + fallback_period mode
end_of_period mode start (some t) = if leb t start then start + fallback_period mode else t

module _ (localtime : ℕ → Option Tm) (mktime : Tm → Option ℕ) where
  unfoldable pub build_period_start : TimeRotationMode → ℕ → Option ℕ
  build_period_start mode now = elim (localtime now) [
    | none ↦ some now
    | some c ↦ mktime (start_fields mode c)
  ]

  -- From a start that is not -1.
  unfoldable pub build_next_period_start : TimeRotationMode → ℕ → Option ℕ
  build_next_period_start mode start = elim (localtime start) [
    | none ↦ some (start + fallback_period mode)
    | some c ↦ mktime (next_fields mode c)
  ]

  -- `Reset` where a mode is set.
  unfoldable pub period_of : TimeRotationMode → ℕ → ℕ × ℕ
  unfolding build_period_start build_next_period_start
  period_of mode now =
      let start = start_of_period now (build_period_start mode now) in
      let next = end_of_period mode start (build_next_period_start mode start) in (start, next)

  unfoldable pub reset : ℕ → FileTimeRotationPolicy → FileTimeRotationPolicy
  unfolding period_of
  reset now p =
      let (start, next) = period_of p.mode now in
      if not (is_enabled p.mode)
      then record p { period_start = 0; next_period_start = 0 }
      else record p { period_start = start; next_period_start = next }

  unfoldable pub configure : TimeRotationMode → ℕ → FileTimeRotationPolicy
  unfolding reset
  configure mode now = reset now (record { mode = mode; period_start = 0; next_period_start = 0 })

  -- With the time for the name of the archive, where the file is to be rotated.
  unfoldable pub should_rotate : ℕ → FileTimeRotationPolicy → Option ℕ × FileTimeRotationPolicy
  unfolding reset
  should_rotate now p =
      if not (is_enabled p.mode)
      then (none, p)
      else if p.next_period_start == 0
      then (none, reset now p)
      else if ltb now p.next_period_start
      then (none, p)
      else (some (if not (p.period_start == 0) then p.period_start else now), reset now p)

  -- A call for each time.
  unfoldable pub should_rotate_each : FileTimeRotationPolicy → List ℕ → List (Option ℕ)
  unfolding should_rotate
  should_rotate_each p [] = []
  should_rotate_each p (now ∷ later) =
      let (archive, q) = should_rotate now p in archive ∷ should_rotate_each q later
