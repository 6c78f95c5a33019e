-- ===== src/Logger/Snapshots.antt =====
-- The snapshots of the table of levels in Logger.cpp: one thread at a time publishes (it holds
-- `DataLock`), any number of threads read without a lock. Each access to a shared variable is a step
-- of its own; a snapshot is known by a number that no other gets.

pub mod Readers
pub mod Invariant
pub mod Safety
use logme.Prelude.{
  ℕ, zero, suc, ◌+◌, ◌-◌, ◌≡◌, Bool, true, false, Option, none, some, List, [], ◌∷◌, ◌++◌, length,
  leb, ◌==◌, if◌then◌else◌,
}

abbrev pub subsystem_level_snapshot_limit : ℕ
subsystem_level_snapshot_limit = 64

-- Where a thread stands in `GetSubsystemLevel`.
pub data Reader : Type 0 where
  outside : Reader  -- before the first load of the active snapshot
  waiting : Reader  -- in the loop over `SubsystemLevelSnapshotReclamation`
  entering : Reader  -- before `fetch_add`
  counted : Reader  -- before the second look at the flag
  retreating : Reader  -- before `fetch_sub` in the loop
  admitted : Reader  -- before the load that it returns
  holding : Option ℕ → Reader  -- with the snapshot, before `ReleaseSubsystemLevelSnapshot`

-- Where the thread that holds `DataLock` stands in `PublishSubsystemLevelSnapshot`.
pub data Writer : Type 0 where
  resting : Writer  -- no thread is there
  pushed : ℕ → Writer  -- the new snapshot is in the list, before it is made the active one
  stored : Writer  -- before `ReclaimSubsystemLevelSnapshots` looks at the size
  requested : Writer  -- the flag is set, in the loop over the count of readers
  alone : Writer  -- no reader was counted, before the list is cleared
  cleared : Writer  -- before the flag is reset

pub record System : Type 0 where
  pub reclamation : Bool
  pub reader_count : ℕ
  pub active : Option ℕ
  pub snapshots : List ℕ
  pub next_snapshot : ℕ
  pub writer : Writer
  pub readers : List Reader

abbrev pub is_null : Option ℕ → Bool
is_null none = true
is_null (some a) = false

-- One step of a reader: the new count, and where it stands then. The count is a `uint32_t`, and does
-- not wrap around while fewer than 2 ^ 32 readers are counted at once.
unfoldable pub reader_step : Bool → Option ℕ → ℕ → Reader → ℕ × Reader
reader_step flag active n outside = (n, if is_null active then outside else waiting)
reader_step flag active n waiting = (n, if flag then waiting else entering)
reader_step flag active n entering = (n + 1, counted)
reader_step flag active n counted = (n, if flag then retreating else admitted)
reader_step flag active n retreating = (n - 1, waiting)
reader_step flag active n admitted = (n, holding active)
reader_step flag active n (holding p) = (n - 1, outside)

-- The step of the reader in place `i`.
unfoldable pub readers_step : Bool → Option ℕ → ℕ → ℕ → List Reader → ℕ × List Reader
unfolding reader_step
readers_step flag active n i [] = (n, [])
readers_step flag active n zero (r ∷ rs) =
    let (n', r') = reader_step flag active n r in (n', r' ∷ rs)
readers_step flag active n (suc i) (r ∷ rs) =
    let (n', rs') = readers_step flag active n i rs in (n', r ∷ rs')

unfoldable pub read : ℕ → System → System
unfolding readers_step
read i s =
    let (n, rs) = readers_step s.reclamation s.active s.reader_count i s.readers in
    record s { reader_count = n; readers = rs }

-- `back`, in a list of its own.
abbrev pub last_only : List ℕ → List ℕ
last_only [] = []
last_only (x ∷ []) = x ∷ []
last_only (x ∷ y ∷ xs) = last_only (y ∷ xs)

-- What is left of the list.
abbrev pub snapshots_left : Option ℕ → List ℕ → List ℕ
snapshots_left none xs = []
snapshots_left (some a) xs = last_only xs

-- One step of the publishing thread; `empty` says whether the table of levels is empty when it
-- starts.
unfoldable pub writer_step : (empty : Bool) → Writer → System → System
writer_step true resting s = record s { active = none; writer = stored }
writer_step false resting s = record s {
  snapshots = s.snapshots ++ s.next_snapshot ∷ [];
  next_snapshot = s.next_snapshot + 1;
  writer = pushed s.next_snapshot;
}
writer_step empty (pushed a) s = record s { active = some a; writer = stored }
writer_step empty stored s =
    if leb (length s.snapshots) subsystem_level_snapshot_limit
    then record s { writer = resting }
    else record s { reclamation = true; writer = requested }
writer_step empty requested s =
    if s.reader_count == 0 then record s { writer = alone } else record s { writer = requested }
writer_step empty alone s = record s {
  snapshots = snapshots_left s.active s.snapshots;
  writer = cleared;
}
writer_step empty cleared s = record s { reclamation = false; writer = resting }

unfoldable pub write : (empty : Bool) → System → System
unfolding writer_step
write empty s = writer_step empty s.writer s

-- A logger's start, with `rs` readers.
abbrev pub all_outside : ℕ → List Reader
all_outside zero = []
all_outside (suc n) = outside ∷ all_outside n

abbrev pub start : (threads : ℕ) → System
start threads = record {
  reclamation = false;
  reader_count = 0;
  active = none;
  snapshots = [];
  next_snapshot = 0;
  writer = resting;
  readers = all_outside threads;
}

pub data Step (s : System) : System → Type 0 where
  reads : (i : ℕ) → Step s (read i s)
  writes : (empty : Bool) → Step s (write empty s)

pub data Reach (threads : ℕ) : System → Type 0 where
  initially : Reach threads (start threads)
  later : {s t : System} → Reach threads s → Step s t → Reach threads t
