-- ===== src/Channel/Reentry.antt =====
-- ReentryGuard.cpp: the channels that a thread is displaying on, the innermost one last. Channels are
-- numbered; the state is that of one thread.
pub mod Stack
use logme.Prelude.{
  ℕ, zero, suc, ◌+◌, ◌-◌, ◌==◌, Bool, true, false, ◌&&◌, ◌||◌, List, [], ◌∷◌, ◌++◌, take, length,
  get_or, set, replicate, ltb, if◌then◌else◌,
}

abbrev pub small_capacity : ℕ
small_capacity = 8

pub record State : Type 0 where
  pub depth : ℕ
  pub overflow : Bool
  pub small_stack : List ℕ
  pub large_stack : List ℕ

-- A null pointer in the array is 0.
unfoldable pub initial_guard : State
initial_guard = record {
  depth = 0;
  overflow = false;
  small_stack = replicate small_capacity 0;
  large_stack = [];
}

abbrev pub contains : ℕ → List ℕ → Bool
contains c [] = false
contains c (x ∷ xs) = x == c || contains c xs

-- A loop that appends the first `depth` elements of the small stack.
unfoldable pub promote_to_overflow : State → State
promote_to_overflow s = record s {
  overflow = true;
  large_stack = s.large_stack ++ take s.depth s.small_stack;
}

unfoldable pub enter_large : ℕ → State → Bool × State
enter_large channel s =
    if contains channel s.large_stack
    then (false, s)
    else (true, record s { large_stack = s.large_stack ++ channel ∷ [] })

unfoldable pub enter_small : ℕ → State → Bool × State
unfolding enter_large promote_to_overflow
enter_small channel s =
    if ltb 0 s.depth && get_or s.small_stack (s.depth - 1) 0 == channel
    then (false, s)
    else if contains channel (take s.depth s.small_stack)
    then (false, s)
    else if ltb s.depth small_capacity
    then (true, record s { small_stack = set s.small_stack s.depth channel; depth = s.depth + 1 })
    else enter_large channel (promote_to_overflow s)

-- The constructor: whether the guard is active, and the state of the thread.
unfoldable pub enter : ℕ → State → Bool × State
unfolding enter_small enter_large
enter channel s = if s.overflow then enter_large channel s else enter_small channel s

-- The destructor, of a guard that is active or not.
unfoldable pub leave : Bool → State → State
leave false s = s
leave true s =
    if s.overflow
    then record s { large_stack = take (length s.large_stack - 1) s.large_stack }
    else record s { depth = s.depth - 1 }
