-- ===== src/Buffer/Data.antt =====
-- DataBuffer.cpp and MemoryUsageTracker.cpp: one byte buffer, and the memory charged to a tracker.
pub mod Laws
pub mod Usage
use logme.Prelude.{
  ℕ, ◌+◌, ◌≤◌, ◌<◌, ◌≡◌, Bool, true, false, Option, none, some, List, [], ◌++◌, length, take, drop,
  replicate, leb, u64_mod, add64, sub64,
}

-- `address` stands for the pointer to the object; `bytes` is the array behind `DataPtr`, of which
-- the first `size` bytes are in use. `tracker` is the pointer to the tracker, if it is not null.
pub record DataBuffer : Type 0 where
  pub address : ℕ
  pub bytes : List ℕ
  pub capacity : ℕ
  pub size : ℕ
  pub first_write_time : ℕ
  pub seen_on_soft_flush : Bool
  pub tracker : Option ℕ

-- The constructor. `new char[capacity]` leaves the bytes unspecified; nothing reads them before
-- they are written, since `size` is 0.
unfoldable pub new_buffer : ℕ → ℕ → Option ℕ → DataBuffer
new_buffer address capacity tracker = record {
  address = address;
  bytes = replicate capacity 0;
  capacity = capacity;
  size = 0;
  first_write_time = 0;
  seen_on_soft_flush = false;
  tracker = tracker;
}

unfoldable pub reset : DataBuffer → DataBuffer
reset b = record b { size = 0; first_write_time = 0; seen_on_soft_flush = false }

-- The difference of two `size_t` wraps where the size exceeds the capacity.
unfoldable pub can_append : DataBuffer → ℕ → Bool
can_append b cb = leb cb (sub64 b.capacity b.size)

-- `memcpy(DataPtr + SizeValue, p, cb)`, with the bytes after the copied ones left in place.
unfoldable pub append : DataBuffer → List ℕ → DataBuffer
append b p = record b {
  bytes = take b.size b.bytes ++ (p ++ drop (b.size + length p) b.bytes);
  size = add64 b.size (length p);
}

unfoldable pub set_first_write_time : ℕ → DataBuffer → DataBuffer
set_first_write_time value b = record b { first_write_time = value }

unfoldable pub set_seen_on_soft_flush : Bool → DataBuffer → DataBuffer
set_seen_on_soft_flush value b = record b { seen_on_soft_flush = value }

-- The bytes that a reader of `Data()` and `Size()` sees.
unfoldable pub contents : DataBuffer → List ℕ
contents b = take b.size b.bytes

-- The array has the size it was allocated with, and no more of it is in use than there is.
pub record Fits (b : DataBuffer) : Type 0 where
  pub allocated : length b.bytes ≡ b.capacity
  pub within : b.size ≤ b.capacity
  pub machine : b.capacity < u64_mod
