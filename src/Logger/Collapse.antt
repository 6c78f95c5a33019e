-- ===== src/Logger/Collapse.antt =====
-- `Context::ApplyCollapse` of Context.cpp: a message that repeats the one before it is held back, but
-- for each of a number of them, or for one in each interval. The clock is an argument.
pub mod Counting
pub mod Timing
pub mod Runs
use logme.Prelude.{
  ℕ, suc, ◌+◌, ◌≡◌, Bool, true, false, not, ◌&&◌, ◌||◌, ◌==◌, ltb, if◌then◌else◌, Option, none,
  some, List, [], ◌∷◌, add64, sub64,
}
use logme.Text.Replace.{same_text}

pub data CollapseMode : Type 0 where
  count : CollapseMode
  time : CollapseMode

-- The regular expression is the function that removes its matches, where it is enabled.
pub record CollapseContextCache : Type 0 where
  pub mode : CollapseMode
  pub limit : ℕ
  pub interval_ms : ℕ
  pub ignore_regex : Option (List ℕ → List ℕ)
  pub last_key : List ℕ
  pub last_output_time : ℕ
  pub repeat_count : ℕ

abbrev pub is_count : CollapseMode → Bool
is_count count = true
is_count time = false

abbrev pub collapse_key : Option (List ℕ → List ℕ) → List ℕ → List ℕ
collapse_key none text = text
collapse_key (some remove) text = remove text

-- The setting that switches the cache off.
abbrev pub is_off : CollapseContextCache → Bool
is_off c = (is_count c.mode && c.limit == 0) || (not (is_count c.mode) && c.interval_ms == 0)

-- Whether the message is to be shown, its `CollapseRepeatCount`, and the cache behind it.
unfoldable pub collapse :
    CollapseContextCache → (text : List ℕ) → (now : ℕ) → (Bool × ℕ) × CollapseContextCache
collapse c text now =
    let key = collapse_key c.ignore_regex text in
    let repeated = add64 c.repeat_count 1 in
    let held : (Bool × ℕ) × CollapseContextCache =
      ((false, 0), record c { repeat_count = repeated }) in
    if is_off c
    then ((true, 0), c)
    else if not (same_text c.last_key key)
    then ((true, 0), record c { last_key = key; last_output_time = now; repeat_count = 0 })
    else if is_count c.mode
    then if ltb repeated c.limit then held else ((true, repeated), record c { repeat_count = 0 })
    else if ltb (sub64 now c.last_output_time) c.interval_ms
    then held
    else ((true, c.repeat_count), record c { repeat_count = 0; last_output_time = now })

-- With the pointers: there may be no cache, and no text, which is an empty one then.
unfoldable pub apply_collapse :
    Option CollapseContextCache → Option (List ℕ) → ℕ → (Bool × ℕ) × Option CollapseContextCache
unfolding collapse
apply_collapse none text now = ((true, 0), none)
apply_collapse (some c) none now = let (answer, d) = collapse c [] now in (answer, some d)
apply_collapse (some c) (some text) now = let (answer, d) = collapse c text now in (answer, some d)

-- A message after the other, each with its time.
unfoldable pub collapse_each :
    CollapseContextCache → List (List ℕ × ℕ) → List (Bool × ℕ) × CollapseContextCache
unfolding collapse
collapse_each c [] = ([], c)
collapse_each c ((text, now) ∷ later) =
    let (answer, d) = collapse c text now in
    let (answers, e) = collapse_each d later in (answer ∷ answers, e)

-- The counts that are reported, and how many messages are held back.
abbrev pub reported : List (Bool × ℕ) → ℕ
reported [] = 0
reported ((shown, n) ∷ answers) = n + reported answers

abbrev pub held_back : List (Bool × ℕ) → ℕ
held_back [] = 0
held_back ((shown, n) ∷ answers) = (if shown then 0 else 1) + held_back answers

-- The messages have the key of the last one.
abbrev pub AreRepeats : CollapseContextCache → List ℕ → List (List ℕ × ℕ) → Type 0
AreRepeats c key [] = Unit
AreRepeats c key ((text, now) ∷ later) =
    (same_text key (collapse_key c.ignore_regex text) ≡ true) × AreRepeats c key later
