-- ===== src/File/Rotation/Linear.antt =====
-- What is relied on of the calendar: `localtime` gives fields in their ranges, and `mktime` counts the
-- seconds of its fields, in or out of their ranges, so that it gives back the time of `localtime`. It
-- is so in a zone whose distance from UTC does not change. Both may fail.
use logme.Prelude.{
  ◌/◌, ◌%◌, ℕ, suc, ◌+◌, ◌*◌, ◌<◌, ◌≡◌, leb, ltb, Option, some, Bool-cases, inl, inr, arith,
}
use logme.File.Rotation.{ℤ, pos, negsuc, add, subtract, Tm}

abbrev pub above : ℤ → ℕ
above (pos m) = m
above (negsuc m) = 0

abbrev pub below : ℤ → ℕ
below (pos m) = 0
below (negsuc m) = suc m

pub above-add : (z : ℤ) (k : ℕ) → above (add z k) + below z ≡ above z + k + below (add z k)
above-add (pos m) k = omega arith
above-add (negsuc m) k = elim (Bool-cases (ltb m k)) [
  | inl more ↦ rw more (ground arith)
  | inr less ↦ rw less (ground arith)
]

pub above-subtract :
    (z : ℤ) (k : ℕ) → above (subtract z k) + k + below z ≡ above z + below (subtract z k)
above-subtract (pos m) k = elim (Bool-cases (leb k m)) [
  | inl less ↦ rw less (ground arith)
  | inr more ↦ rw more (ground arith)
]
above-subtract (negsuc m) k = omega arith

-- A calendar: the days before the first of a month are counted by `days`, from a day that is `epoch`
-- seconds before 1970 on, whose day of the week is `weekday`; 0 is Sunday.
pub record Zone : Type 0 where
  pub days : ℕ → ℕ → ℕ
  pub epoch : ℕ
  pub weekday : ℕ
  pub localtime : ℕ → Option Tm
  pub mktime : Tm → Option ℕ

module _ (z : Zone) where
  -- The fields are those of `t` seconds since 1970.
  abbrev pub IsMoment : Tm → ℕ → Type 0
  IsMoment c t =
      (z.days c.tm_year c.tm_mon + above c.tm_mday) * 86400
        + c.tm_hour * 3600
        + c.tm_min * 60
        + c.tm_sec
      ≡ t + z.epoch + below c.tm_mday * 86400

  pub record IsLinear : Type 0 where
    pub split : (t : ℕ) (c : Tm) → z.localtime t ≡ some c → IsMoment c t
    pub seconds : (t : ℕ) (c : Tm) → z.localtime t ≡ some c → c.tm_sec < 60
    pub minutes : (t : ℕ) (c : Tm) → z.localtime t ≡ some c → c.tm_min < 60
    pub hours : (t : ℕ) (c : Tm) → z.localtime t ≡ some c → c.tm_hour < 24
    pub day_of_week :
        (t : ℕ) (c : Tm)
        → z.localtime t ≡ some c
        → c.tm_wday ≡ ((t + z.epoch) / 86400 + z.weekday) % 7
    pub joined : (c : Tm) (t : ℕ) → z.mktime c ≡ some t → IsMoment c t
