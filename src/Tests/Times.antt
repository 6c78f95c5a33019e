-- ===== src/Tests/Times.antt =====
-- Runs of the rotation of log files.
use logme.Prelude.{
  ℕ, ◌+◌, ◌-◌, ◌*◌, ◌/◌, ◌%◌, ◌<◌, ◌≡◌, refl, subst, ltb, if◌then◌else◌, Option, none, some, List,
  [], ◌∷◌, Bool-cases, inl, inr, arith,
}
use logme.File.Rotation.{pos, Tm, time_rotation_weekly, configure, should_rotate_each}
use logme.File.Rotation.Linear.{above, below, Zone, IsMoment, IsLinear}
use logme.File.Rotation.Periods.{InPeriod}
use logme.File.Rotation.Calls.{Rotates, configure-Rotates}

-- UTC in a January without an end.
abbrev fields_at : ℕ → Tm
fields_at t = record {
  tm_sec = t % 60;
  tm_min = t / 60 % 60;
  tm_hour = t / 3600 % 24;
  tm_mday = pos (1 + t / 86400);
  tm_mon = 0;
  tm_year = 70;
  tm_wday = (t / 86400 + 4) % 7;
}

abbrev localtime : ℕ → Option Tm
localtime t = some (fields_at t)

abbrev seconds_of : Tm → ℕ
seconds_of c = above c.tm_mday * 86400 + c.tm_hour * 3600 + c.tm_min * 60 + c.tm_sec

abbrev mktime : Tm → Option ℕ
mktime c =
    if ltb (seconds_of c) ((1 + below c.tm_mday) * 86400)
    then none
    else some (seconds_of c - (1 + below c.tm_mday) * 86400)

abbrev january : Zone
january = record {
  days = λ year month. 0;
  epoch = 86400;
  weekday = 3;
  localtime = localtime;
  mktime = mktime;
}

same_fields : (t : ℕ) (c : Tm) → localtime t ≡ some c → fields_at t ≡ c
same_fields t c p = cc

made-IsMoment : (c : Tm) (t : ℕ) → mktime c ≡ some t → IsMoment january c t
made-IsMoment c t p = elim (Bool-cases (ltb (seconds_of c) ((1 + below c.tm_mday) * 86400))) [
  | inl early ↦ absurd (ground arith)
  | inr late ↦ ground arith
]

january-IsLinear : IsLinear january
january-IsLinear = record {
  split = λ t c p. subst (λ c. IsMoment january c t) (same_fields t c p) (omega arith);
  seconds = λ t c p. subst (λ c. c.tm_sec < 60) (same_fields t c p) (omega arith);
  minutes = λ t c p. subst (λ c. c.tm_min < 60) (same_fields t c p) (omega arith);
  hours = λ t c p. subst (λ c. c.tm_hour < 24) (same_fields t c p) (omega arith);
  day_of_week = λ t c p.
      subst (λ c. c.tm_wday ≡ ((t + 86400) / 86400 + 3) % 7) (same_fields t c p) (omega arith);
  joined = made-IsMoment;
}

abbrev calls : List ℕ
calls = 900000 ∷ 1000000 ∷ 1900000 ∷ 2000000 ∷ []

configure-Rotates_example :
    InPeriod january time_rotation_weekly 864000
      (configure localtime mktime time_rotation_weekly 864000).period_start
    × Rotates january time_rotation_weekly
        (configure localtime mktime time_rotation_weekly 864000).period_start
        calls
        (should_rotate_each localtime mktime
          (configure localtime mktime time_rotation_weekly 864000)
          calls)
configure-Rotates_example =
    configure-Rotates january january-IsLinear time_rotation_weekly refl 864000 calls
      (omega arith, (omega arith, (omega arith, (omega arith, (omega arith, tt)))))

-- The week of 10 January 1970 began on the 5th.
weekly_answers :
    should_rotate_each localtime mktime
      (configure localtime mktime time_rotation_weekly 864000)
      calls
    ≡ none ∷ some 345600 ∷ some 950400 ∷ none ∷ []
unfolding should_rotate_each configure
weekly_answers = refl
