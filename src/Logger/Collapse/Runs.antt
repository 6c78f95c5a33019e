-- ===== src/Logger/Collapse/Runs.antt =====
-- A message and the messages that repeat it.
use logme.Prelude.{
  ℕ, ◌<◌, ◌≡◌, refl, sym, ap, subst, Bool, true, false, List, length, u64_mod, arith,
}
use logme.Logger.Collapse.{
  CollapseMode, count, time, CollapseContextCache, is_count, is_off, collapse_key, collapse,
  collapse_each, AreRepeats,
}
use logme.Logger.Collapse.Counting.{Counted, collapse_each-Counted}
use logme.Logger.Collapse.Timing.{IsOrdered, Timed, collapse_each-Timed}
use logme.Text.Replace.{same_text}

-- What the answers to the repeats are, for each mode.
abbrev pub Collapsed :
    CollapseMode
    → CollapseContextCache
    → (now : ℕ) → List (List ℕ × ℕ)
    → List (Bool × ℕ)
    → (repeat_count : ℕ) → Type 0
Collapsed count c now ms answers r = Counted c.limit 0 (length ms) answers r
Collapsed time c now ms answers r = Timed c.interval_ms now 0 ms answers r

-- A cache that is on has a limit, or an interval.
limit-positive : (c : CollapseContextCache) → c.mode ≡ count → is_off c ≡ false → 0 < c.limit
limit-positive c m on = ground (arith, on, ap is_count m)

interval-positive :
    (c : CollapseContextCache) → c.mode ≡ time → is_off c ≡ false → 0 < c.interval_ms
interval-positive c m on = ground (arith, on, ap is_count m)

module _ (c : CollapseContextCache) (text : List ℕ) (now : ℕ) where
  abbrev started : CollapseContextCache
  started = record c {
    last_key = collapse_key c.ignore_regex text;
    last_output_time = now;
    repeat_count = 0;
  }

  collapse-new :
      is_off c ≡ false
      → same_text c.last_key (collapse_key c.ignore_regex text) ≡ false
      → collapse c text now ≡ ((true, 0), started)
  unfolding collapse
  collapse-new on new = rw (on, new) refl

  started-Collapsed :
      (mode : CollapseMode) (ms : List (List ℕ × ℕ))
      → c.mode ≡ mode
      → is_off c ≡ false
      → c.limit < u64_mod
      → IsOrdered now ms
      → length ms < u64_mod
      → AreRepeats c (collapse_key c.ignore_regex text) ms
      → Collapsed mode c now ms
          (collapse_each started ms).0
          (collapse_each started ms).1.repeat_count
  started-Collapsed count ms m on small ordered few same =
      let positive : 0 < c.limit = limit-positive c m on in
      collapse_each-Counted ms started m positive small positive same
  started-Collapsed time ms m on small ordered few same =
      collapse_each-Timed ms started now m (interval-positive c m on) (omega arith) ordered
        (omega arith) same

  -- For a cache that is not switched off and whose limit is below 2^64, a message with another
  -- key than the last one, and fewer than 2^64 later messages with its key, at times that do not
  -- go back: the first message is shown and reports no repeats. Of the others, in the mode that
  -- counts, those that are shown report `limit` messages each, and these with the ones that are
  -- not reported yet, fewer than `limit`, are all of them. In the mode that measures time, those
  -- are shown that are `interval_ms` or more behind the last one shown, and the counts reported
  -- and the one not reported yet are the messages held back.
  pub collapse_each-Collapsed :
      (ms : List (List ℕ × ℕ))
      → is_off c ≡ false
      → same_text c.last_key (collapse_key c.ignore_regex text) ≡ false
      → c.limit < u64_mod
      → IsOrdered now ms
      → length ms < u64_mod
      → AreRepeats c (collapse_key c.ignore_regex text) ms
      → ((collapse c text now).0 ≡ (true, 0))
        × Collapsed c.mode c now ms
            (collapse_each (collapse c text now).1 ms).0
            (collapse_each (collapse c text now).1 ms).1.repeat_count
  collapse_each-Collapsed ms on new small ordered few same =
      let step = collapse-new on new in
      (
        ap (λ r. r.0) step,
        subst
            (λ r.
              Collapsed c.mode c now ms (collapse_each r.1 ms).0
                (collapse_each r.1 ms).1.repeat_count)
            (sym step) (started-Collapsed c.mode ms refl on small ordered few same),
      )
