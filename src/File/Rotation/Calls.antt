-- ===== src/File/Rotation/Calls.antt =====
-- The calls of `ShouldRotate`, one after the other.
use logme.Prelude.{
  ℕ, ◌+◌, ◌≤◌, ◌<◌, ◌≡◌, refl, sym, subst, true, false, ltb, ◌==◌, Option, none, some, List, [],
  ◌∷◌, All, Bool-cases, inl, inr, arith,
}
use logme.File.Rotation.{
  Tm, TimeRotationMode, time_rotation_none, FileTimeRotationPolicy, is_enabled, fallback_period,
  reset, period_of, configure, should_rotate, should_rotate_each,
}
use logme.File.Rotation.Linear.{Zone, IsLinear}
use logme.File.Rotation.Periods.{
  is_regular, InPeriod, InPeriod-within, fallback_period-positive, period_of-InPeriod,
}

-- The answers to calls at the times of a list, while the period from `start` on is current: a call
-- within it answers no, one at or behind its end the period's start, and the period of that time is
-- current from then on.
pub data Rotates (z : Zone) (mode : TimeRotationMode)
    : (start : ℕ) → List ℕ → List (Option ℕ) → Type 0 where
  silent : (start : ℕ) → Rotates z mode start [] []
  stay :
      (start now : ℕ) (later : List ℕ) (answers : List (Option ℕ))
      → now < start + fallback_period mode
      → Rotates z mode start later answers
      → Rotates z mode start (now ∷ later) (none ∷ answers)
  turn :
      (start now start' : ℕ) (later : List ℕ) (answers : List (Option ℕ))
      → start + fallback_period mode ≤ now
      → InPeriod z mode now start'
      → Rotates z mode start' later answers
      → Rotates z mode start (now ∷ later) (some start ∷ answers)

-- The state of a policy whose current period begins at `start`.
record IsAt (mode : TimeRotationMode) (start : ℕ) (p : FileTimeRotationPolicy) : Type 0 where
  same_mode : p.mode ≡ mode
  begins : p.period_start ≡ start
  ends : p.next_period_start ≡ start + fallback_period mode

regular-is_enabled : (mode : TimeRotationMode) → is_regular mode ≡ true → is_enabled mode ≡ true
regular-is_enabled time_rotation_none r = r
regular-is_enabled mode r = refl

module _ (z : Zone) (zone : IsLinear z) (mode : TimeRotationMode)
    (regular : is_regular mode ≡ true) where
  abbrev localtime : ℕ → Option Tm
  localtime = z.localtime

  abbrev mktime : Tm → Option ℕ
  mktime = z.mktime

  reset-IsAt :
      (now : ℕ) (p : FileTimeRotationPolicy)
      → fallback_period mode ≤ now
      → p.mode ≡ mode
      → IsAt mode (period_of localtime mktime mode now).0 (reset localtime mktime now p)
  unfolding reset
  reset-IsAt now p h m =
      let found = period_of-InPeriod z zone mode now regular h in
      rw (m, regular-is_enabled mode regular)
        (record { same_mode = refl; begins = refl; ends = found.1 })

  module _ (start now : ℕ) (p : FileTimeRotationPolicy) (at : IsAt mode start p) where
    should_rotate-stay :
        now < start + fallback_period mode → should_rotate localtime mktime now p ≡ (none, p)
    unfolding should_rotate
    should_rotate-stay within =
        let length : 0 < fallback_period mode = fallback_period-positive mode in
        let known : (p.next_period_start == 0) ≡ false = ground (arith, at.ends) in
        let early : ltb now p.next_period_start ≡ true = ground (arith, at.ends) in
        rw (at.same_mode, regular-is_enabled mode regular, known, early) refl

    should_rotate-turn :
        0 < start
        → start + fallback_period mode ≤ now
        → should_rotate localtime mktime now p ≡ (some start, reset localtime mktime now p)
    unfolding should_rotate
    should_rotate-turn positive late =
        let known : (p.next_period_start == 0) ≡ false = ground (arith, at.ends) in
        let over : ltb now p.next_period_start ≡ false = ground (arith, at.ends) in
        let later : (p.period_start == 0) ≡ false = ground (arith, at.begins) in
        rw (at.same_mode, regular-is_enabled mode regular, known, over, later, at.begins) refl

  each-Rotates :
      (nows : List ℕ) (start : ℕ) (p : FileTimeRotationPolicy)
      → IsAt mode start p
      → 0 < start
      → All (λ now. fallback_period mode ≤ now) nows
      → Rotates z mode start nows (should_rotate_each localtime mktime p nows)
  unfolding should_rotate_each
  each-Rotates [] start p at positive late = silent start
  each-Rotates (now ∷ nows) start p at positive late =
      elim (Bool-cases (ltb now (start + fallback_period mode))) [
        | inl within ↦
            let step = should_rotate-stay start now p at (ground arith) in
            rw step
              (stay start now nows _ (ground arith) (each-Rotates nows start p at positive late.1))
        | inr over ↦
            let step = should_rotate-turn start now p at positive (ground arith) in
            let found = period_of-InPeriod z zone mode now regular late.0 in
            rw step (
              turn start now _ nows _ (ground arith) found.0 (
                each-Rotates nows _ (reset localtime mktime now p)
                  (reset-IsAt now p late.0 at.same_mode)
                  (omega (arith, (InPeriod-within z mode now _ found.0).1, late.0)) late.1))
      ]

  -- In a zone whose distance from UTC does not change, for the hourly, daily and weekly modes, and for
  -- times that are not in the first period of 1970: the current period is the hour, the day or the week
  -- from Monday on that the time of `Configure` lies in, and `ShouldRotate` answers yes exactly at the
  -- calls at or behind the end of the current period, with the start of that period; then the current
  -- period is the one that the call lies in. Where the calendar fails for a time, so that it has no
  -- fields, or no time for the fields of the start, the period is as long and begins at that time.
  pub configure-Rotates :
      (now : ℕ) (nows : List ℕ)
      → All (λ t. fallback_period mode ≤ t) (now ∷ nows)
      → InPeriod z mode now (configure localtime mktime mode now).period_start
        × Rotates z mode
            (configure localtime mktime mode now).period_start
            nows
            (should_rotate_each localtime mktime (configure localtime mktime mode now) nows)
  unfolding configure
  configure-Rotates now nows late =
      let found = period_of-InPeriod z zone mode now regular late.0 in
      let at =
        reset-IsAt now (record { mode = mode; period_start = 0; next_period_start = 0 }) late.0
          refl in
      (
        subst (InPeriod z mode now) (sym at.begins) found.0,
        subst
            (λ s.
              Rotates z mode s nows
                (should_rotate_each localtime mktime (configure localtime mktime mode now) nows))
            (sym at.begins)
            (each-Rotates nows _ _ at
              (omega (arith, (InPeriod-within z mode now _ found.0).1, late.0)) late.1),
      )
