-- ===== src/File/Rotation/Periods.antt =====
-- The periods of an hour, a day and a week.
use logme.Prelude.{
  ℕ, ◌+◌, ◌-◌, ◌*◌, ◌/◌, ◌%◌, ◌⊎◌, inl, inr, subst, ap, ◌∙◌, ◌≤◌, ◌<◌, ◌≡◌, refl, Bool, true, false,
  leb, Option, none, some, by_test, arith,
}
use logme.File.Rotation.{
  Tm, TimeRotationMode, time_rotation_none, time_rotation_hourly, time_rotation_daily,
  time_rotation_weekly, time_rotation_monthly, fallback_period, start_fields, next_fields,
  start_of_period, end_of_period, build_period_start, build_next_period_start, period_of,
}
use logme.File.Rotation.Linear.{above-add, above-subtract, Zone, IsMoment, IsLinear}

-- The modes whose periods have one length.
abbrev pub is_regular : TimeRotationMode → Bool
is_regular time_rotation_none = false
is_regular time_rotation_monthly = false
is_regular mode = true

pub fallback_period-positive : (mode : TimeRotationMode) → 0 < fallback_period mode
fallback_period-positive time_rotation_hourly = omega arith
fallback_period-positive time_rotation_weekly = omega arith
fallback_period-positive mode = omega arith

module _ (z : Zone) where
  -- A period begins with an hour, with a day, or with a Monday.
  abbrev pub IsStart : TimeRotationMode → ℕ → Type 0
  IsStart time_rotation_hourly t = (t + z.epoch) % 3600 ≡ 0
  IsStart time_rotation_daily t = (t + z.epoch) % 86400 ≡ 0
  IsStart time_rotation_weekly t =
      ((t + z.epoch) % 86400 ≡ 0) × (((t + z.epoch) / 86400 + z.weekday) % 7 ≡ 1)
  IsStart mode t = Unit

  -- `t` is where the period begins that `now` lies in.
  pub record Begins (mode : TimeRotationMode) (now t : ℕ) : Type 0 where
    pub start : IsStart mode t
    pub not_after : t ≤ now
    pub not_over : now < t + fallback_period mode

  -- The calendar fails for `now`: there are no fields for it, or no time for fields of the start.
  abbrev pub Fails : TimeRotationMode → ℕ → Type 0
  Fails mode now =
      (z.localtime now ≡ none)
      ⊎ ((c : Tm) × (t : ℕ) × Begins mode now t × IsMoment z c t × (z.mktime c ≡ none))

  -- `s` is where the period begins that `now` lies in, or `now` itself where the calendar fails.
  abbrev pub InPeriod : TimeRotationMode → ℕ → ℕ → Type 0
  InPeriod mode now s = Begins mode now s ⊎ ((s ≡ now) × Fails mode now)

  pub InPeriod-within :
      (mode : TimeRotationMode) (now s : ℕ)
      → InPeriod mode now s
      → (s ≤ now) × (now < s + fallback_period mode)
  InPeriod-within mode now s (inl b) = (b.not_after, b.not_over)
  InPeriod-within mode now s (inr (same, _)) =
      (omega (arith, same), omega (arith, same, fallback_period-positive mode))

-- Back from a time on day `n / 86400` to the Monday before it, or to that day's start.
module _ (n w k : ℕ) (h : k * 86400 + n % 86400 ≤ n) where
  days_back : (n - (n % 86400 + k * 86400)) / 86400 ≡ n / 86400 - k
  days_back = omega (arith, h)

  monday_before :
      k ≡ ((n / 86400 + w) % 7 + 6) % 7 → ((n - (n % 86400 + k * 86400)) / 86400 + w) % 7 ≡ 1
  monday_before e = omega (arith, days_back, h, e)

module _ (z : Zone) (zone : IsLinear z) where
  abbrev localtime : ℕ → Option Tm
  localtime = z.localtime

  abbrev mktime : Tm → Option ℕ
  mktime = z.mktime

  -- The time of the fields at the start of a period.
  record StartOf (mode : TimeRotationMode) (now : ℕ) (c : Tm) : Type 0 where
    time : ℕ
    moment : IsMoment z (start_fields mode c) time
    begins : Begins z mode now time

  -- The fields of a time, less the hours, minutes and seconds of it.
  module _ (now : ℕ) (c : Tm) (p : localtime now ≡ some c) where
    abbrev at : IsMoment z c now
    at = zone.split now c p

    abbrev since_hour : ℕ
    since_hour = c.tm_min * 60 + c.tm_sec

    hour_within : since_hour < 3600
    hour_within = omega (arith, zone.minutes now c p, zone.seconds now c p)

    abbrev since_midnight : ℕ
    since_midnight = c.tm_hour * 3600 + since_hour

    day_within : since_midnight < 86400
    day_within = omega (arith, hour_within, zone.hours now c p)

    midnight : (now + z.epoch) % 86400 ≡ since_midnight
    midnight = omega (arith, at, day_within)

    monday_start :
        7 * 86400 ≤ now
        → ((now - (since_midnight + ((c.tm_wday + 6) % 7) * 86400) + z.epoch) / 86400 + z.weekday)
            % 7
          ≡ 1
    monday_start h =
        let n : ℕ = now + z.epoch in
        let k : ℕ = (c.tm_wday + 6) % 7 in
        let same : now - (since_midnight + k * 86400) + z.epoch ≡ n - (n % 86400 + k * 86400) =
          omega (arith, midnight, day_within, h) in
        ap (λ x. (x / 86400 + z.weekday) % 7) same
        ∙ monday_before n z.weekday k (omega (arith, midnight, day_within, h))
            (ap (λ x. (x + 6) % 7) (zone.day_of_week now c p))

    start_fields-StartOf :
        (mode : TimeRotationMode)
        → is_regular mode ≡ true
        → fallback_period mode ≤ now
        → StartOf mode now c
    start_fields-StartOf time_rotation_none r h = absurd (cc)
    start_fields-StartOf time_rotation_monthly r h = absurd (cc)
    start_fields-StartOf time_rotation_hourly r h = record {
      time = now - since_hour;
      moment = omega (arith, at, hour_within, h);
      begins = record {
        start = omega (arith, at, hour_within, h);
        not_after = omega arith;
        not_over = omega (arith, hour_within);
      };
    }
    start_fields-StartOf time_rotation_daily r h = record {
      time = now - since_midnight;
      moment = omega (arith, at, day_within, h);
      begins = record {
        start = omega (arith, at, day_within, h);
        not_after = omega arith;
        not_over = omega (arith, day_within);
      };
    }
    start_fields-StartOf time_rotation_weekly r h =
        let since : ℕ = since_midnight + ((c.tm_wday + 6) % 7) * 86400 in
        let within : since < 7 * 86400 = omega (arith, day_within) in
        let back = above-subtract c.tm_mday ((c.tm_wday + 6) % 7) in
        record {
          time = now - since;
          moment = omega (arith, at, within, back, h);
          begins = record {
            start = (omega (arith, at, within, day_within, h), monday_start h);
            not_after = omega arith;
            not_over = omega (arith, within);
          };
        }

  next_fields-later :
      (mode : TimeRotationMode) (s t : ℕ) (c : Tm)
      → is_regular mode ≡ true
      → localtime s ≡ some c
      → mktime (next_fields mode c) ≡ some t
      → t ≡ s + fallback_period mode
  next_fields-later time_rotation_none s t c r p q = absurd (cc)
  next_fields-later time_rotation_monthly s t c r p q = absurd (cc)
  next_fields-later time_rotation_hourly s t c r p q =
      omega (arith, zone.split s c p, zone.joined _ t q)
  next_fields-later time_rotation_daily s t c r p q =
      omega (arith, zone.split s c p, zone.joined _ t q, above-add c.tm_mday 1)
  next_fields-later time_rotation_weekly s t c r p q =
      omega (arith, zone.split s c p, zone.joined _ t q, above-add c.tm_mday 7)

  start-InPeriod :
      (mode : TimeRotationMode) (now : ℕ)
      → is_regular mode ≡ true
      → fallback_period mode ≤ now
      → InPeriod z mode now (start_of_period now (build_period_start localtime mktime mode now))
  unfolding build_period_start
  start-InPeriod mode now r h = from_fields (localtime now) refl
    where
      made :
          (c : Tm) (o : Option ℕ)
          → localtime now ≡ some c
          → mktime (start_fields mode c) ≡ o
          → InPeriod z mode now (start_of_period now o)
      made c none p q =
          let found = start_fields-StartOf now c p mode r h in
          inr (refl, inr (start_fields mode c, found.time, found.begins, found.moment, q))
      made c (some s) p q =
          let found = start_fields-StartOf now c p mode r h in
          inl (
            subst (Begins z mode now) (omega (arith, found.moment, zone.joined _ s q)) found.begins)

      from_fields :
          (o : Option Tm)
          → localtime now ≡ o
          → InPeriod z mode now (
              start_of_period now
                (elim o [ none ↦ some now | some c ↦ mktime (start_fields mode c) ]))
      from_fields none p = inr (refl, inl p)
      from_fields (some c) p = made c (mktime (start_fields mode c)) p refl

  end_one_period :
      (mode : TimeRotationMode) (start : ℕ)
      → is_regular mode ≡ true
      → end_of_period mode start (build_next_period_start localtime mktime mode start)
        ≡ start + fallback_period mode
  unfolding build_next_period_start
  end_one_period mode start r = from_fields (localtime start) refl
    where
      made_end :
          (t : ℕ)
          → t ≡ start + fallback_period mode
          → end_of_period mode start (some t) ≡ start + fallback_period mode
      made_end t e =
          by_test (λ (x : ℕ). x ≡ start + fallback_period mode) (leb t start) (λ early. refl)
            (λ late. e)

      made :
          (c : Tm) (o : Option ℕ)
          → localtime start ≡ some c
          → mktime (next_fields mode c) ≡ o
          → end_of_period mode start o ≡ start + fallback_period mode
      made c none p q = refl
      made c (some t) p q = made_end t (next_fields-later mode start t c r p q)

      from_fields :
          (o : Option Tm)
          → localtime start ≡ o
          → end_of_period mode start (elim o [
            | none ↦ some (start + fallback_period mode)
            | some c ↦ mktime (next_fields mode c)
          ])
            ≡ start + fallback_period mode
      from_fields none p = made_end (start + fallback_period mode) refl
      from_fields (some c) p = made c (mktime (next_fields mode c)) p refl

  -- The period of a time, and its end.
  pub period_of-InPeriod :
      (mode : TimeRotationMode) (now : ℕ)
      → is_regular mode ≡ true
      → fallback_period mode ≤ now
      → InPeriod z mode now (period_of localtime mktime mode now).0
        × ((period_of localtime mktime mode now).1
            ≡ (period_of localtime mktime mode now).0 + fallback_period mode)
  unfolding period_of
  period_of-InPeriod mode now r h = (start-InPeriod mode now r h, end_one_period mode _ r)
