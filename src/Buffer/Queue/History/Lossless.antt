-- ===== src/Buffer/Queue/History/Lossless.antt =====
-- No history of a queue loses, repeats or reorders a byte.
use logme.Prelude.{
  ℕ, ◌≡◌, refl, sym, ap, subst, ◌∙◌, Bool, Option, some, List, [], ◌++◌, All, length, map,
  append_assoc, if◌then◌else◌, arith,
}
use logme.Buffer.Data.{DataBuffer, Fits, contents}
use logme.Buffer.Queue.State.{Queue, Options, BufferCounters}
use logme.Buffer.Queue.Ops.{
  Published, append_queue, prepare_soft_flush_current, take_ready, set_current_first_write_time,
  report_write, trim_free_buffers_if_idle,
}
use logme.Buffer.Queue.Stream.{bytes_of, stream}
use logme.Buffer.Queue.Invariant.{Inv, Sound}
use logme.Buffer.Queue.Invariant.AppendKeeps.{append-Spec}
use logme.Buffer.Queue.Invariant.PublishKeeps.{
  PublishSpec, publish_current-Spec, publish_if_matches-Spec,
}
use logme.Buffer.Queue.Invariant.OtherKeeps.{
  new_queue-Inv, take_ready-Inv, recycle-Inv, recycle-Front, set_time-Inv, prepare-Inv, report-Inv,
  trim-Inv, same_stream,
}
use logme.Buffer.Queue.History.{
  System, Step, Reach, append_bytes, publish, publish_if, soft_flush, set_time, take_all, report,
  give_back, trim, here, next, appended, took, recycled, start,
}
use logme.Buffer.Queue.State.{count_written}
use logme.Buffer.Queue.Invariant.Frames.{Front, Kept-Front, decay-Decayed}
use logme.Buffer.Data.{set_first_write_time, set_seen_on_soft_flush}

module _ {C : Type 0} where
  -- The bytes of the accepted appends, in their order, are those that the writer was handed
  -- followed by those that the queue still holds; and the queue is well-formed.
  pub record Lossless (s : System C) : Type 0 where
    pub sound : Sound s.queue.options
    pub inv : Inv (length s.taken) s.queue
    pub held_fit : All Fits s.taken
    pub bytes : s.out ++ stream s.queue ≡ s.accepted

  -- A change of the queue that keeps its options and its stream.
  quiet-Lossless :
      (s : System C) (q : Queue C)
      → q.options ≡ s.queue.options
      → stream q ≡ stream s.queue
      → Inv (length s.taken) q
      → Lossless s
      → Lossless (record s { queue = q })
  quiet-Lossless s q o b v h = record {
    sound = subst Sound (sym o) h.sound;
    inv = v;
    held_fit = h.held_fit;
    bytes = ap (◌++◌ s.out) b ∙ h.bytes;
  }

  append-Lossless : (p : List ℕ) (now : ℕ) (s : System C) → Lossless s → Lossless (appended p now s)
  append-Lossless p now s h =
      let a = append-Spec (length s.taken) p now s.queue h.sound h.inv in
      record {
        sound = subst Sound (sym a.options) h.sound;
        inv = a.inv;
        held_fit = h.held_fit;
        bytes =
            ap (◌++◌ s.out) a.written
            ∙ sym (append_assoc s.out (stream s.queue) _)
            ∙ ap (λ (l : List ℕ). l ++ (if (append_queue p now s.queue).ok then p else [])) h.bytes;
      }

  published-Lossless :
      (s : System C) (r : Published C)
      → PublishSpec (length s.taken) s.queue r
      → Lossless s
      → Lossless (record s { queue = r.queue })
  published-Lossless s r p h = quiet-Lossless s r.queue p.options p.kept p.inv h

  take-Lossless : (s : System C) → s.taken ≡ [] → Lossless s → Lossless (took s)
  unfolding take_ready
  take-Lossless s e h = record {
    sound = h.sound;
    inv = take_ready-Inv s.queue (subst (λ (l : List DataBuffer). Inv (length l) s.queue) e h.inv);
    held_fit = h.inv.ready_fits;
    bytes = append_assoc s.out (bytes_of s.queue.ready_list) (contents s.queue.current) ∙ h.bytes;
  }

  recycle-Lossless : (s : System C) → Lossless s → Lossless (recycled s)
  recycle-Lossless s h =
      let f = recycle-Front (map some s.taken) s.queue in
      record {
        sound = subst Sound (sym f.options) h.sound;
        inv =
            recycle-Inv 0 s.taken s.queue h.held_fit
              (subst (λ k. Inv k s.queue) (omega arith) h.inv);
        held_fit = tt;
        bytes = ap (◌++◌ s.out) (same_stream _ _ f) ∙ h.bytes;
      }

  set_time-stream : (t : ℕ) (q : Queue C) → stream (set_current_first_write_time t q) ≡ stream q
  unfolding set_current_first_write_time contents set_first_write_time
  set_time-stream t q = ground arith

  prepare-stream : (q : Queue C) → stream (prepare_soft_flush_current q).2 ≡ stream q
  unfolding prepare_soft_flush_current contents set_seen_on_soft_flush
  prepare-stream q = ground arith

  set_time-options : (t : ℕ) (q : Queue C) → (set_current_first_write_time t q).options ≡ q.options
  unfolding set_current_first_write_time
  set_time-options t q = ground arith

  prepare-options : (q : Queue C) → (prepare_soft_flush_current q).2.options ≡ q.options
  unfolding prepare_soft_flush_current
  prepare-options q = ground arith

  trim-Front : (q : Queue C) → Front q (trim_free_buffers_if_idle q)
  unfolding trim_free_buffers_if_idle
  trim-Front q = Kept-Front _ _ (decay-Decayed q).kept

  report-Front :
      (n m : ℕ) (ok : Bool) (q : Queue C)
      → ((report_write n m ok q).options ≡ q.options) × (stream (report_write n m ok q) ≡ stream q)
  unfolding report_write count_written
  report-Front n m ok q = (refl, refl)

  pub Step-Lossless : {s t : System C} → Step s t → Lossless s → Lossless t
  Step-Lossless (append_bytes p now s) h = append-Lossless p now s h
  Step-Lossless (publish s) h =
      published-Lossless s _ (publish_current-Spec (length s.taken) s.queue h.sound h.inv) h
  Step-Lossless (publish_if expected s) h =
      published-Lossless s _
        (publish_if_matches-Spec (length s.taken) expected s.queue h.sound h.inv) h
  Step-Lossless (soft_flush s) h =
      quiet-Lossless s _ (prepare-options s.queue) (prepare-stream s.queue)
        (prepare-Inv (length s.taken) s.queue h.inv) h
  Step-Lossless (set_time t s) h =
      quiet-Lossless s _ (set_time-options t s.queue) (set_time-stream t s.queue)
        (set_time-Inv (length s.taken) t s.queue h.inv) h
  Step-Lossless (take_all s e) h = take-Lossless s e h
  Step-Lossless (report buffers bytes ok s) h =
      let (o, b) = report-Front buffers bytes ok s.queue in
      quiet-Lossless s _ o b (report-Inv (length s.taken) buffers bytes ok s.queue h.inv) h
  Step-Lossless (give_back s) h = recycle-Lossless s h
  Step-Lossless (trim s) h =
      let f = trim-Front s.queue in
      quiet-Lossless s _ f.options (same_stream _ _ f) (trim-Inv (length s.taken) s.queue h.inv) h

  start-Lossless :
      (o : Options C) (t : Option ℕ) (c : C) (a : ℕ) (g : BufferCounters)
      → Sound o
      → Lossless (start o t c a g)
  start-Lossless o t c a g s =
      let (v, empty, same) = new_queue-Inv o t c a g s in
      record { sound = subst Sound (sym same) s; inv = v; held_fit = tt; bytes = empty }

  Reach-Lossless : {s t : System C} → Reach s t → Lossless s → Lossless t
  Reach-Lossless here h = h
  Reach-Lossless (next r st) h = Step-Lossless st (Reach-Lossless r h)

  -- After any history of a new queue, its counts of buffers are exact (mod 2 ^ 64) and within
  -- the limit, its flags say what they stand for, and the bytes handed to the writer followed by
  -- those still queued are the bytes of the accepted appends, in their order.
  pub history-Lossless :
      (o : Options C) (t : Option ℕ) (c : C) (a : ℕ) (g : BufferCounters) {s : System C}
      → Sound o
      → Reach (start o t c a g) s
      → Lossless s
  history-Lossless o t c a g s r = Reach-Lossless r (start-Lossless o t c a g s)
