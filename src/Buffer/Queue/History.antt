-- ===== src/Buffer/Queue/History.antt =====
-- A queue between the threads that log and the one that writes, as a sequence of atomic operations.
-- The writer hands its buffers back before it takes more, as `FileBackend::WriteReadyData` does.
pub mod Lossless
use logme.Prelude.{
  ℕ, ◌+◌, ◌≡◌, refl, sym, ap, subst, ◌∙◌, Bool, Option, some, List, [], ◌++◌, All, length, map,
  append_assoc, append-nil, if◌then◌else◌, arith,
}
use logme.Buffer.Data.{DataBuffer, Fits, contents}
use logme.Buffer.Queue.State.{Queue, Options, BufferCounters}
use logme.Buffer.Queue.Lifecycle.{new_queue}
use logme.Buffer.Queue.Ops.{
  Appended, Published, append_queue, publish_current, publish_current_if_matches,
  prepare_soft_flush_current, take_ready, recycle, set_current_first_write_time, report_write,
  trim_free_buffers_if_idle,
}
use logme.Buffer.Queue.Stream.{bytes_of, stream}
use logme.Buffer.Queue.Invariant.{Inv, Sound}
use logme.Buffer.Queue.Invariant.AppendKeeps.{append-Spec}
use logme.Buffer.Queue.Invariant.PublishKeeps.{
  PublishSpec, publish_current-Spec, publish_if_matches-Spec,
}
use logme.Buffer.Queue.Invariant.OtherKeeps.{
  new_queue-Inv, take_ready-Inv, recycle-Inv, recycle-Front, set_time-Inv, prepare-Inv, report-Inv,
  trim-Inv, same_stream,
}

-- `taken` is what the writer has in `ReadyData`, `out` all that it was handed so far, and
-- `accepted` the bytes of the appends that returned true.
pub record System (C : Type 0) : Type 0 where
  pub queue : Queue C
  pub taken : List DataBuffer
  pub out : List ℕ
  pub accepted : List ℕ

module _ {C : Type 0} where
  abbrev pub appended : List ℕ → ℕ → System C → System C
  appended p now s = record s {
    queue = (append_queue p now s.queue).queue;
    accepted = s.accepted ++ (if (append_queue p now s.queue).ok then p else []);
  }

  abbrev pub took : System C → System C
  took s = record s {
    queue = (take_ready s.queue).1;
    taken = (take_ready s.queue).0;
    out = s.out ++ bytes_of (take_ready s.queue).0;
  }

  abbrev pub recycled : System C → System C
  recycled s = record s { queue = recycle (map some s.taken) s.queue; taken = [] }

  pub data Step : System C → System C → Type 0 where
    append_bytes : (p : List ℕ) (now : ℕ) (s : System C) → Step s (appended p now s)
    publish : (s : System C) → Step s (record s { queue = (publish_current s.queue).queue })
    publish_if :
        (expected : Option ℕ) (s : System C)
        → Step s (record s { queue = (publish_current_if_matches expected s.queue).queue })
    soft_flush :
        (s : System C) → Step s (record s { queue = (prepare_soft_flush_current s.queue).2 })
    set_time :
        (t : ℕ) (s : System C)
        → Step s (record s { queue = set_current_first_write_time t s.queue })
    take_all : (s : System C) → s.taken ≡ [] → Step s (took s)
    report :
        (buffers bytes : ℕ) (ok : Bool) (s : System C)
        → Step s (record s { queue = report_write buffers bytes ok s.queue })
    give_back : (s : System C) → Step s (recycled s)
    trim : (s : System C) → Step s (record s { queue = trim_free_buffers_if_idle s.queue })

  pub data Reach (s : System C) : System C → Type 0 where
    here : Reach s s
    next : {t u : System C} → Reach s t → Step t u → Reach s u

  abbrev pub start : Options C → Option ℕ → C → ℕ → BufferCounters → System C
  start options tracker cache address globals = record {
    queue = new_queue options tracker cache address globals;
    taken = [];
    out = [];
    accepted = [];
  }
