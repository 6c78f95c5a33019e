-- ===== src/Buffer/Queue/Invariant/OtherKeeps.antt =====
-- The constructor, and the operations that move no byte of the current buffer.
use mathlib.Core.Option
use logme.Prelude.{
  ℕ, suc, ◌+◌, ◌<◌, ◌≡◌, refl, sym, ap, subst, ◌∙◌, Bool, Option, none, some, List, [], ◌∷◌, ◌++◌,
  All, All-append, length, length-append, map, arith, u64_mod,
}
use logme.Buffer.Data.{
  DataBuffer, Fits, contents, reset, new_buffer, set_seen_on_soft_flush, set_first_write_time,
}
use logme.Buffer.Data.Laws.{contents_of_empty, reset-Fits, new_buffer-Fits}
use logme.Buffer.Queue.State.{Queue, Options, BufferCounters, count_allocated, count_written}
use logme.Buffer.Queue.Pool.{take_cached}
use logme.Buffer.Queue.Lifecycle.{initial, started, new_queue}
use logme.Buffer.Queue.Ops.{
  set_current_first_write_time, take_ready, recycle, prepare_soft_flush_current, report_write,
  trim_free_buffers_if_idle,
}
use logme.Buffer.Queue.Stream.{bytes_of, stream}
use logme.Buffer.Queue.Invariant.Frames.{Front, Front-refl, Front-trans}
use logme.Buffer.Queue.Invariant.PoolKeeps.{take_cached-Fits, decay-Inv}
use logme.Buffer.Queue.Invariant.{Inv, Sound}

new_buffer_empty :
    (a c : ℕ) (t : Option ℕ)
    → ((new_buffer a c t).size ≡ 0) × ((new_buffer a c t).first_write_time ≡ 0)
unfolding new_buffer
new_buffer_empty a c t = (refl, refl)

map-reset_empty :
    (o : Option DataBuffer) (b : DataBuffer)
    → Option.map reset o ≡ some b
    → (b.size ≡ 0) × (b.first_write_time ≡ 0)
unfolding reset
map-reset_empty none b e = cc
map-reset_empty (some x) b e = ground arith

module _ {C : Type 0} where
  take_cached_empty :
      (o : Option (C → ℕ → Option DataBuffer × C)) (n : ℕ) (c : C) (b : DataBuffer)
      → (take_cached o n c).0 ≡ some b
      → (b.size ≡ 0) × (b.first_write_time ≡ 0)
  unfolding take_cached
  take_cached_empty none n c b h = cc
  take_cached_empty (some take) n c b h = map-reset_empty (take c n).0 b h

  pub take_ready-Inv : (q : Queue C) → Inv 0 q → Inv (length (take_ready q).0) (take_ready q).1
  unfolding take_ready
  take_ready-Inv q v = record {
    used = v.used ∙ omega arith;
    total = v.total ∙ omega arith;
    capped = λ h. omega (arith, v.capped h);
    current_fits = v.current_fits;
    free_fits = v.free_fits;
    ready_fits = tt;
    ready_filled = tt;
    flag = v.flag;
    time = v.time;
    signal = refl;
  }

  pub recycle-Inv :
      (n : ℕ) (bs : List DataBuffer) (q : Queue C)
      → All Fits bs
      → Inv (length bs + n) q
      → Inv n (recycle (map some bs) q)
  unfolding recycle
  recycle-Inv n [] q f v = subst (λ k. Inv k q) (omega arith) v
  recycle-Inv n (b ∷ bs) q f v = recycle-Inv n bs _ f.1 (record {
    used = omega (arith, v.used);
    total = omega (arith, v.total, length-append q.free_list (reset b ∷ []));
    capped = λ h. omega (arith, v.capped h, length-append q.free_list (reset b ∷ []));
    current_fits = v.current_fits;
    free_fits = All-append Fits q.free_list _ v.free_fits (reset-Fits b f.0, tt);
    ready_fits = v.ready_fits;
    ready_filled = v.ready_filled;
    flag = v.flag;
    time = v.time;
    signal = v.signal;
  })

  pub recycle-Front : (bs : List (Option DataBuffer)) (q : Queue C) → Front q (recycle bs q)
  unfolding recycle
  recycle-Front [] q = Front-refl q
  recycle-Front (none ∷ bs) q = recycle-Front bs q
  recycle-Front (some b ∷ bs) q = Front-trans q _ _ (ground arith) (recycle-Front bs _)

  pub set_time-Inv : (n t : ℕ) (q : Queue C) → Inv n q → Inv n (set_current_first_write_time t q)
  unfolding set_current_first_write_time set_first_write_time
  set_time-Inv n t q v = ground arith

  pub prepare-Inv : (n : ℕ) (q : Queue C) → Inv n q → Inv n (prepare_soft_flush_current q).2
  unfolding prepare_soft_flush_current set_seen_on_soft_flush
  prepare-Inv n q v = ground arith

  pub report-Inv :
      (n buffers bytes : ℕ) (ok : Bool) (q : Queue C)
      → Inv n q
      → Inv n (report_write buffers bytes ok q)
  unfolding report_write count_written
  report-Inv n buffers bytes ok q v = ground arith

  pub trim-Inv : (n : ℕ) (q : Queue C) → Inv n q → Inv n (trim_free_buffers_if_idle q)
  unfolding trim_free_buffers_if_idle
  trim-Inv n q v = decay-Inv n q v

  initial-Inv :
      (o : Options C) (t : Option ℕ) (g : BufferCounters) (b : DataBuffer) (c : C) (a : ℕ)
      → Fits b
      → b.size ≡ 0
      → b.first_write_time ≡ 0
      → Inv 0 (initial o t g b c a)
  unfolding initial
  initial-Inv o t g b c a f h k = record {
    used = omega arith;
    total = omega arith;
    capped = λ m. omega arith;
    current_fits = f;
    free_fits = tt;
    ready_fits = tt;
    ready_filled = tt;
    flag = ground arith;
    time = sym k;
    signal = refl;
  }

  started-Inv :
      (o : Options C) (t : Option ℕ) (g : BufferCounters) (a : ℕ) (r : Option DataBuffer × C)
      → o.buffer_size < u64_mod
      → ((b : DataBuffer) → r.0 ≡ some b → Fits b × (b.size ≡ 0) × (b.first_write_time ≡ 0))
      → Inv 0 (started o t g a r)
        × ((started o t g a r).ready_list ≡ [])
        × ((started o t g a r).current.size ≡ 0)
        × ((started o t g a r).options ≡ o)
  unfolding started initial count_allocated
  started-Inv o t g a (some b, c) s h =
      let (f, size, time) = h b refl in (initial-Inv o t g b c a f size time, refl, size, refl)
  started-Inv o t g a (none, c) s h =
      let b = new_buffer a o.buffer_size t in
      let v =
        initial-Inv o t g b c (suc a) (new_buffer-Fits a o.buffer_size t s)
          (new_buffer_empty a o.buffer_size t).0 (new_buffer_empty a o.buffer_size t).1 in
      (ground arith, refl, (new_buffer_empty a o.buffer_size t).0, refl)

  -- A new queue is well-formed and holds no byte.
  pub new_queue-Inv :
      (o : Options C) (t : Option ℕ) (c : C) (a : ℕ) (g : BufferCounters)
      → Sound o
      → Inv 0 (new_queue o t c a g)
        × (stream (new_queue o t c a g) ≡ [])
        × ((new_queue o t c a g).options ≡ o)
  unfolding new_queue
  new_queue-Inv o t c a g s =
      let r = take_cached o.take_cached_buffer o.buffer_size c in
      let (v, none_ready, empty, same) = started-Inv o t g a r s.buffer_size (λ b h.
        let (size, time) = take_cached_empty o.take_cached_buffer o.buffer_size c b h in
        (take_cached-Fits o.take_cached_buffer o.buffer_size c b s.whole h, size, time)) in
      (v, rw (none_ready, contents_of_empty (started o t g a r).current empty), same)

  pub same_stream : (q r : Queue C) → Front q r → stream r ≡ stream q
  same_stream q r f =
      ap (λ (l : List DataBuffer). bytes_of l ++ contents r.current) f.ready_list
      ∙ ap (λ (b : DataBuffer). bytes_of q.ready_list ++ contents b) f.current
