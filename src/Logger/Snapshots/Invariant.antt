-- ===== src/Logger/Snapshots/Invariant.antt =====
-- What holds between the steps of readers and writer.
use logme.Prelude.{
  ℕ, zero, suc, ◌+◌, ◌≤◌, ◌≡◌, refl, sym, subst, ap, ◌∙◌, Bool, true, false, Option, none, some,
  List, [], ◌∷◌, ◌++◌, All, length, length-append, leb, ◌==◌, ==_iff, Bool-cases, inl, inr, arith,
}
use logme.Logger.Snapshots.{
  subsystem_level_snapshot_limit, Reader, Writer, resting, pushed, stored, requested, alone,
  cleared, System, read, write, writer_step, last_only, snapshots_left, start, all_outside, Step,
  reads, writes, Reach, initially, later,
}
use logme.Logger.Snapshots.Readers.{
  weights, In, Present, Safe, Outside, weights-readers_step, Safe-readers_step,
  Outside-readers_step, Outside-weights, Outside-Safe,
}

abbrev reclamation_of : Writer → Bool
reclamation_of resting = false
reclamation_of (pushed a) = false
reclamation_of stored = false
reclamation_of requested = true
reclamation_of alone = true
reclamation_of cleared = true

abbrev Latest : List ℕ → Option ℕ → Type 0
Latest xs none = Unit
Latest xs (some a) = last_only xs ≡ a ∷ []

-- Until the list is cleared, the active snapshot is its last.
abbrev Settled : Writer → List ℕ → Option ℕ → Type 0
Settled resting xs active = Unit
Settled (pushed a) xs active = Latest xs (some a)
Settled stored xs active = Latest xs active
Settled requested xs active = Latest xs active
Settled alone xs active = Latest xs active
Settled cleared xs active = Unit

-- Once the publishing thread has seen no reader, none is inside until the flag is reset.
abbrev Closed : Writer → List Reader → Type 0
Closed alone rs = All Outside rs
Closed cleared rs = All Outside rs
Closed w rs = Unit

abbrev pub capacity : Writer → ℕ
capacity resting = subsystem_level_snapshot_limit
capacity (pushed a) = subsystem_level_snapshot_limit + 1
capacity stored = subsystem_level_snapshot_limit + 1
capacity requested = subsystem_level_snapshot_limit + 1
capacity alone = subsystem_level_snapshot_limit + 1
capacity cleared = 1

pub record Inv (w : Writer) (s : System) : Type 0 where
  pub flag : s.reclamation ≡ reclamation_of w
  pub count : s.reader_count ≡ weights s.readers
  pub safe : All (Safe s.snapshots) s.readers
  pub present : Present s.snapshots s.active
  pub settled : Settled w s.snapshots s.active
  pub closed : Closed w s.readers
  pub room : length s.snapshots ≤ capacity w

In-append : (a : ℕ) (xs ys : List ℕ) → In a xs → In a (xs ++ ys)
In-append a [] ys h = absurd h
In-append a (x ∷ xs) ys (inl e) = inl e
In-append a (x ∷ xs) ys (inr h) = inr (In-append a xs ys h)

Present-append : (p : Option ℕ) (xs ys : List ℕ) → Present xs p → Present (xs ++ ys) p
Present-append none xs ys h = h
Present-append (some a) xs ys h = In-append a xs ys h

Safe-append : (xs ys : List ℕ) (rs : List Reader) → All (Safe xs) rs → All (Safe (xs ++ ys)) rs
Safe-append xs ys [] h = tt
Safe-append xs ys (Reader.holding p ∷ rs) h = (Present-append p xs ys h.0, Safe-append xs ys rs h.1)
Safe-append xs ys (Reader.outside ∷ rs) h = (tt, Safe-append xs ys rs h.1)
Safe-append xs ys (Reader.waiting ∷ rs) h = (tt, Safe-append xs ys rs h.1)
Safe-append xs ys (Reader.entering ∷ rs) h = (tt, Safe-append xs ys rs h.1)
Safe-append xs ys (Reader.counted ∷ rs) h = (tt, Safe-append xs ys rs h.1)
Safe-append xs ys (Reader.retreating ∷ rs) h = (tt, Safe-append xs ys rs h.1)
Safe-append xs ys (Reader.admitted ∷ rs) h = (tt, Safe-append xs ys rs h.1)

last_only-snoc : (xs : List ℕ) (a : ℕ) → last_only (xs ++ a ∷ []) ≡ a ∷ []
last_only-snoc [] a = refl
last_only-snoc (x ∷ []) a = refl
last_only-snoc (x ∷ y ∷ xs) a = last_only-snoc (y ∷ xs) a

In-last_only : (xs : List ℕ) (a : ℕ) → last_only xs ≡ a ∷ [] → In a xs
In-last_only [] a h = absurd (cc)
In-last_only (x ∷ []) a h = inl (cc)
In-last_only (x ∷ y ∷ xs) a h = inr (In-last_only (y ∷ xs) a h)

Present-snapshots_left :
    (active : Option ℕ) (xs : List ℕ) → Latest xs active → Present (snapshots_left active xs) active
Present-snapshots_left none xs h = tt
Present-snapshots_left (some a) xs h = subst (In a) (sym h) (inl refl)

length-snapshots_left :
    (active : Option ℕ) (xs : List ℕ) → Latest xs active → length (snapshots_left active xs) ≤ 1
length-snapshots_left none xs h = omega arith
length-snapshots_left (some a) xs h = omega (arith, ap length h)

-- Every step of the publishing thread keeps the invariant.
writer_step-Inv :
    (empty : Bool) (w : Writer) (s : System)
    → Inv w s
    → Inv (writer_step empty w s).writer (writer_step empty w s)
unfolding writer_step
writer_step-Inv true resting s v = record {
  flag = v.flag;
  count = v.count;
  safe = v.safe;
  present = tt;
  settled = tt;
  closed = tt;
  room = omega (arith, v.room);
}
writer_step-Inv false resting s v = record {
  flag = v.flag;
  count = v.count;
  safe = Safe-append s.snapshots (s.next_snapshot ∷ []) s.readers v.safe;
  present = Present-append s.active s.snapshots (s.next_snapshot ∷ []) v.present;
  settled = last_only-snoc s.snapshots s.next_snapshot;
  closed = tt;
  room = omega (arith, v.room, length-append s.snapshots (s.next_snapshot ∷ []));
}
writer_step-Inv empty (pushed a) s v = record {
  flag = v.flag;
  count = v.count;
  safe = v.safe;
  present = In-last_only s.snapshots a v.settled;
  settled = v.settled;
  closed = tt;
  room = v.room;
}
writer_step-Inv empty stored s v =
    elim (Bool-cases (leb (length s.snapshots) subsystem_level_snapshot_limit)) [
      | inl small ↦ rw small (record {
        flag = v.flag;
        count = v.count;
        safe = v.safe;
        present = v.present;
        settled = tt;
        closed = tt;
        room = ground arith;
      })
      | inr large ↦ rw large (record {
        flag = refl;
        count = v.count;
        safe = v.safe;
        present = v.present;
        settled = v.settled;
        closed = tt;
        room = v.room;
      })
    ]
writer_step-Inv empty requested s v = elim (Bool-cases (s.reader_count == 0)) [
  | inl none_left ↦
      let zero_count = (==_iff s.reader_count 0).0 none_left in
      rw none_left (record {
        flag = v.flag;
        count = v.count;
        safe = v.safe;
        present = v.present;
        settled = v.settled;
        closed = Outside-weights s.readers (sym v.count ∙ zero_count);
        room = v.room;
      })
  | inr some_left ↦ rw some_left (record {
    flag = v.flag;
    count = v.count;
    safe = v.safe;
    present = v.present;
    settled = v.settled;
    closed = tt;
    room = v.room;
  })
]
writer_step-Inv empty alone s v = record {
  flag = v.flag;
  count = v.count;
  safe = Outside-Safe (snapshots_left s.active s.snapshots) s.readers v.closed;
  present = Present-snapshots_left s.active s.snapshots v.settled;
  settled = tt;
  closed = v.closed;
  room = length-snapshots_left s.active s.snapshots v.settled;
}
writer_step-Inv empty cleared s v = record {
  flag = refl;
  count = v.count;
  safe = v.safe;
  present = v.present;
  settled = tt;
  closed = tt;
  room = omega (arith, v.room);
}

Closed-read : (i : ℕ) (w : Writer) (s : System) → Inv w s → Closed w (read i s).readers
unfolding read
Closed-read i alone s v =
    rw v.flag (Outside-readers_step s.active s.reader_count i s.readers v.closed)
Closed-read i cleared s v =
    rw v.flag (Outside-readers_step s.active s.reader_count i s.readers v.closed)
Closed-read i resting s v = tt
Closed-read i (pushed a) s v = tt
Closed-read i stored s v = tt
Closed-read i requested s v = tt

read-Inv : (i : ℕ) (w : Writer) (s : System) → Inv w s → Inv w (read i s)
unfolding read
read-Inv i w s v = record {
  flag = v.flag;
  count = omega (
    arith,
    v.count,
    weights-readers_step s.reclamation s.active s.reader_count i s.readers (omega (arith, v.count)),
  );
  safe =
      Safe-readers_step s.reclamation s.active s.reader_count i s.snapshots s.readers v.present
        v.safe;
  present = v.present;
  settled = v.settled;
  closed = Closed-read i w s v;
  room = v.room;
}

start-Inv : (threads : ℕ) → Inv resting (start threads)
start-Inv threads = record {
  flag = refl;
  count = all_outside_count threads;
  safe = Outside-Safe [] (all_outside threads) (all_Outside threads);
  present = tt;
  settled = tt;
  closed = tt;
  room = omega arith;
}
  where
    all_Outside : (n : ℕ) → All Outside (all_outside n)
    all_Outside zero = tt
    all_Outside (suc n) = (refl, all_Outside n)

    all_outside_count : (n : ℕ) → 0 ≡ weights (all_outside n)
    all_outside_count zero = refl
    all_outside_count (suc n) = omega (arith, all_outside_count n)

-- Every step keeps the invariant.
Step-Inv : {s t : System} → Step s t → Inv s.writer s → Inv t.writer t
unfolding write read
Step-Inv {s} (reads i) v = read-Inv i s.writer s v
Step-Inv {s} (writes empty) v = writer_step-Inv empty s.writer s v

pub Reach-Inv : {threads : ℕ} {s : System} → Reach threads s → Inv s.writer s
Reach-Inv {threads} initially = start-Inv threads
Reach-Inv (later r st) = Step-Inv st (Reach-Inv r)
