-- ===== src/Buffer/Data/Usage.antt =====
-- MemoryUsageTracker.cpp, and the calls of it in DataBuffer.cpp: trackers are numbered, and a
-- `Usage` holds the counter of each.
use logme.Prelude.{
  ℕ, ◌+◌, ◌%◌, ◌<◌, ◌≡◌, refl, Bool, true, false, Option, none, some, List, [], ◌∷◌, arith,
  if◌then◌else◌, ◌==◌, add64, sub64, u64_mod,
}
use logme.Buffer.Data.{DataBuffer, new_buffer}

abbrev pub Usage : Type 0
Usage = ℕ → ℕ

unfoldable pub add_memory_usage : ℕ → ℕ → Usage → Usage
add_memory_usage t bytes u s = if s == t then add64 (u s) bytes else u s

unfoldable pub remove_memory_usage : ℕ → ℕ → Usage → Usage
remove_memory_usage t bytes u s = if s == t then sub64 (u s) bytes else u s

-- The calls that are made only where the pointer to the tracker is not null.
unfoldable pub charge : Option ℕ → ℕ → Usage → Usage
unfolding add_memory_usage
charge none bytes u = u
charge (some t) bytes u = add_memory_usage t bytes u

unfoldable pub discharge : Option ℕ → ℕ → Usage → Usage
unfolding remove_memory_usage
discharge none bytes u = u
discharge (some t) bytes u = remove_memory_usage t bytes u

unfoldable pub same_tracker : Option ℕ → Option ℕ → Bool
same_tracker none none = true
same_tracker none (some t) = false
same_tracker (some s) none = false
same_tracker (some s) (some t) = s == t

-- The constructor and the destructor, with the effect on the tracker.
unfoldable pub create : ℕ → ℕ → Option ℕ → Usage → DataBuffer × Usage
unfolding charge
create address capacity t u = (new_buffer address capacity t, charge t capacity u)

unfoldable pub destroy : DataBuffer → Usage → Usage
unfolding discharge
destroy b u = discharge b.tracker b.capacity u

unfoldable pub attach_memory_tracker : Option ℕ → DataBuffer → Usage → DataBuffer × Usage
unfolding same_tracker charge discharge
attach_memory_tracker t b u =
    if same_tracker b.tracker t
    then (b, u)
    else (record b { tracker = t }, charge t b.capacity (discharge b.tracker b.capacity u))

unfoldable pub detach_memory_tracker : DataBuffer → Usage → DataBuffer × Usage
unfolding discharge
detach_memory_tracker b u = (record b { tracker = none }, discharge b.tracker b.capacity u)

-- The part of a buffer's capacity that is to be charged to tracker `t`.
unfoldable pub share : ℕ → Option ℕ → ℕ → ℕ
share t none bytes = 0
share t (some s) bytes = if t == s then bytes else 0

abbrev pub owed : ℕ → List DataBuffer → ℕ
owed t [] = 0
owed t (b ∷ bs) = share t b.tracker b.capacity + owed t bs

-- Each tracker shows the capacities of the live buffers that are attached to it, mod 2 ^ 64.
abbrev pub Balanced : Usage → List DataBuffer → Type 0
Balanced u live = (t : ℕ) → u t ≡ owed t live % u64_mod

charge-share :
    (o : Option ℕ) (c rest t : ℕ) (u : Usage)
    → u t ≡ rest % u64_mod
    → charge o c u t ≡ (share t o c + rest) % u64_mod
unfolding charge share
charge-share none c rest t u h = ground arith
charge-share (some s) c rest t u h = ground arith

discharge-share :
    (o : Option ℕ) (c rest t : ℕ) (u : Usage)
    → u t ≡ (share t o c + rest) % u64_mod
    → c < u64_mod
    → discharge o c u t ≡ rest % u64_mod
unfolding discharge share
discharge-share none c rest t u h k = ground arith
discharge-share (some s) c rest t u h k = ground arith

same_tracker_eq : (s t : Option ℕ) → same_tracker s t ≡ true → s ≡ t
unfolding same_tracker
same_tracker_eq none none h = refl
same_tracker_eq none (some t) h = cc
same_tracker_eq (some s) none h = cc
same_tracker_eq (some s) (some t) h = ground arith

pub create-Balanced :
    (a c : ℕ) (o : Option ℕ) (u : Usage) (live : List DataBuffer)
    → Balanced u live
    → Balanced (create a c o u).1 ((create a c o u).0 ∷ live)
unfolding create new_buffer
create-Balanced a c o u live h t = charge-share o c (owed t live) t u (h t)

pub destroy-Balanced :
    (b : DataBuffer) (u : Usage) (live : List DataBuffer)
    → b.capacity < u64_mod
    → Balanced u (b ∷ live)
    → Balanced (destroy b u) live
unfolding destroy
destroy-Balanced b u live k h t = discharge-share b.tracker b.capacity (owed t live) t u (h t) k

pub attach-Balanced :
    (o : Option ℕ) (b : DataBuffer) (u : Usage) (live : List DataBuffer)
    → b.capacity < u64_mod
    → Balanced u (b ∷ live)
    → Balanced (attach_memory_tracker o b u).1 ((attach_memory_tracker o b u).0 ∷ live)
unfolding attach_memory_tracker
attach-Balanced o b u live k h t = ground (
  arith,
  h t,
  charge-share o b.capacity (owed t live) t (discharge b.tracker b.capacity u),
  discharge-share b.tracker b.capacity (owed t live) t u (h t) k,
)

pub detach-Balanced :
    (b : DataBuffer) (u : Usage) (live : List DataBuffer)
    → b.capacity < u64_mod
    → Balanced u (b ∷ live)
    → Balanced (detach_memory_tracker b u).1 ((detach_memory_tracker b u).0 ∷ live)
unfolding detach_memory_tracker share
detach-Balanced b u live k h t =
    ground (arith, discharge-share b.tracker b.capacity (owed t live) t u (h t) k)
