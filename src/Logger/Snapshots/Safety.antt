-- ===== src/Logger/Snapshots/Safety.antt =====
-- What the readers of a snapshot may rely on.
use logme.Prelude.{ℕ, ◌≤◌, All, length}
use logme.Logger.Snapshots.{System, Reach}
use logme.Logger.Snapshots.Readers.{Present, Safe}
use logme.Logger.Snapshots.Invariant.{capacity, Reach-Inv}

-- However the steps of one publishing thread and of any number of readers follow one another, no
-- snapshot that a reader holds, and not the active one, has been deleted; there are at most 64
-- snapshots when no thread publishes, and at most 65 while one does.
pub Reach-Safe :
    {threads : ℕ} {s : System}
    → Reach threads s
    → All (Safe s.snapshots) s.readers
      × Present s.snapshots s.active
      × (length s.snapshots ≤ capacity s.writer)
Reach-Safe r = let v = Reach-Inv r in (v.safe, v.present, v.room)
