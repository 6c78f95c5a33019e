-- ===== src/Buffer/Queue/Ops.antt =====
-- BufferQueue.cpp: the public operations, and `EnqueueReady`.
use logme.Prelude.{
  ℕ, Bool, true, false, not, ◌&&◌, ◌==◌, Option, none, some, List, [], ◌∷◌, ◌++◌, length, ltb,
  if◌then◌else◌, sub64,
}
use logme.Buffer.Data.{
  DataBuffer, reset, can_append, append, set_first_write_time, set_seen_on_soft_flush,
}
use logme.Buffer.Queue.State.{
  Queue, SoftFlushState, count_appended, count_dropped, count_enqueued, count_written, count_signal,
}
use logme.Buffer.Queue.Pool.{
  try_take_free_buffer, try_create_buffer, release_buffer, maybe_grow_adaptive, decay_free_locked,
}

-- The results of `Append`: its value, its two reference arguments and the queue.
pub record Appended (C : Type 0) : Type 0 where
  pub ok : Bool
  pub need_signal : Bool
  pub first_data : Bool
  pub queue : Queue C

-- Those of the two functions that publish.
pub record Published (C : Type 0) : Type 0 where
  pub ok : Bool
  pub need_signal : Bool
  pub queue : Queue C

-- `Reset` and `SetSeenOnSoftFlush(false)` on a buffer that is about to become the current one.
abbrev pub prepared : DataBuffer → DataBuffer
prepared b = set_seen_on_soft_flush false (reset b)

-- The time of the front of the ready list, 0 if it is empty.
unfoldable pub oldest_ready : List DataBuffer → ℕ
oldest_ready [] = 0
oldest_ready (b ∷ bs) = b.first_write_time

module _ {C : Type 0} where
  unfoldable pub after_create : Option DataBuffer × Queue C → Option DataBuffer × Bool × Queue C
  after_create (some b, q) = (some b, true, q)
  after_create (none, q) = (none, false, q)

  unfoldable pub after_free : Option DataBuffer × Queue C → Option DataBuffer × Bool × Queue C
  unfolding after_create
  after_free (some b, q) = (some b, false, q)
  after_free (none, q) = after_create (try_create_buffer q)

  -- The replacement buffer that an append or a publication starts with, and whether it was
  -- created because no buffer was free.
  unfoldable pub acquire : Queue C → Option DataBuffer × Bool × Queue C
  unfolding after_free
  acquire q = after_free (try_take_free_buffer q)

  unfoldable pub signal : Queue C → Bool × Queue C
  signal q = if q.signaled then (false, q) else (true, count_signal (record q { signaled = true }))

  -- `needSignal` is false where it is called; the result is its new value.
  unfoldable pub enqueue_ready : DataBuffer → Queue C → Bool × Queue C
  unfolding signal
  enqueue_ready b q =
      if b.size == 0
      then (false, release_buffer b q)
      else signal (count_enqueued (record q { ready_list = q.ready_list ++ b ∷ [] }))

  -- The branch of `Append` for data that the current buffer has room for, up to the counting.
  unfoldable pub put_current : List ℕ → ℕ → Queue C → Queue C
  put_current p now q =
      if q.current.size == 0
      then record q {
        current = append (set_first_write_time now q.current) p;
        current_first_write_time = now;
        has_current_data_flag = true;
      }
      else record q { current = append q.current p }

  abbrev pub dropped : ℕ → Queue C → Appended C
  dropped cb q = record {
    ok = false;
    need_signal = false;
    first_data = false;
    queue = count_dropped cb q;
  }

  -- The replacement becomes the current buffer, and the old one goes to the ready list.
  unfoldable pub roll_over : List ℕ → ℕ → DataBuffer → Bool → Queue C → Appended C
  roll_over p now b fresh q =
      let (need, q') = enqueue_ready q.current (
        maybe_grow_adaptive fresh (record q {
          current = append (set_first_write_time now (prepared b)) p;
          current_first_write_time = now;
          has_current_data_flag = true;
        })) in
      record {
        ok = true;
        need_signal = need;
        first_data = true;
        queue = count_appended (length p) q';
      }

  unfoldable pub append_with : List ℕ → ℕ → Option DataBuffer × Bool × Queue C → Appended C
  unfolding put_current roll_over
  append_with p now (none, fresh, q) = dropped (length p) q
  append_with p now (some b, fresh, q) =
      if can_append q.current (length p)
      then record {
        ok = true;
        need_signal = false;
        first_data = q.current.size == 0;
        queue = count_appended (length p) (release_buffer b (put_current p now q));
      }
      else if can_append (prepared b) (length p)
      then roll_over p now b fresh q
      else dropped (length p) (release_buffer (prepared b) q)

  -- `Append`, for the `cb` bytes `p`.
  unfoldable pub append_queue : List ℕ → ℕ → Queue C → Appended C
  unfolding put_current append_with
  append_queue p now q =
      if length p == 0
      then record { ok = true; need_signal = false; first_data = false; queue = q }
      else if can_append q.current (length p)
      then record {
        ok = true;
        need_signal = false;
        first_data = q.current.size == 0;
        queue = count_appended (length p) (put_current p now q);
      }
      else append_with p now (acquire q)

  unfoldable pub set_current_first_write_time : ℕ → Queue C → Queue C
  set_current_first_write_time value q =
      if q.current.size == 0
      then q
      else if not (q.current.first_write_time == 0)
      then record q { current_first_write_time = q.current.first_write_time }
      else record q {
        current = set_first_write_time value q.current;
        current_first_write_time = value;
      }

  -- What `TakeReady` puts in `out` is empty where it returns false.
  unfoldable pub take_ready : Queue C → List DataBuffer × Queue C
  take_ready q = (q.ready_list, record q { ready_list = []; signaled = false })

  -- A null entry is skipped.
  unfoldable pub recycle : List (Option DataBuffer) → Queue C → Queue C
  recycle [] q = q
  recycle (none ∷ bs) q = recycle bs q
  recycle (some b ∷ bs) q = recycle bs (record q {
    free_list = q.free_list ++ reset b ∷ [];
    used_buffers_count = sub64 q.used_buffers_count 1;
  })

  -- The third part is `expected`, a pointer to the buffer to publish.
  unfoldable pub prepare_soft_flush_current : Queue C → SoftFlushState × Option ℕ × Queue C
  prepare_soft_flush_current q =
      if q.current.size == 0
      then (SoftFlushState.empty, none, q)
      else if not q.current.seen_on_soft_flush
      then (
        SoftFlushState.marked,
        none,
        record q { current = set_seen_on_soft_flush true q.current },
      )
      else (SoftFlushState.publish, some q.current.address, q)

  -- The part under the owner's data lock, then the part after it.
  unfoldable pub swap_out : DataBuffer → Queue C → Queue C
  swap_out b q = record q {
    current = prepared b;
    current_first_write_time = 0;
    has_current_data_flag = false;
  }

  unfoldable pub finish_publish : DataBuffer → Bool → Queue C → Published C
  finish_publish ready fresh q =
      let (need, q') = enqueue_ready ready (maybe_grow_adaptive fresh q) in
      record { ok = true; need_signal = need; queue = q' }

  unfoldable pub publish_with : (Queue C → Bool) → Option DataBuffer × Bool × Queue C → Published C
  unfolding swap_out finish_publish
  publish_with wanted (none, fresh, q) = record { ok = false; need_signal = false; queue = q }
  publish_with wanted (some b, fresh, q) =
      if wanted q
      then finish_publish q.current fresh (swap_out b q)
      else record { ok = false; need_signal = false; queue = release_buffer b q }

  abbrev pub has_bytes : Queue C → Bool
  has_bytes q = not (q.current.size == 0)

  unfoldable pub publish_current : Queue C → Published C
  unfolding publish_with acquire
  publish_current q = publish_with has_bytes (acquire q)

  unfoldable pub publish_current_if_matches : Option ℕ → Queue C → Published C
  unfolding publish_with acquire
  publish_current_if_matches none q = record { ok = false; need_signal = false; queue = q }
  publish_current_if_matches (some expected) q =
      publish_with (λ r. r.current.address == expected && has_bytes r) (acquire q)

  unfoldable pub report_write : ℕ → ℕ → Bool → Queue C → Queue C
  report_write = count_written

  unfoldable pub trim_free_buffers_if_idle : Queue C → Queue C
  trim_free_buffers_if_idle = decay_free_locked

  unfoldable pub has_ready : Queue C → Bool
  has_ready q = elim q.ready_list [ [] ↦ false | _ ∷ _ ↦ true ]

  unfoldable pub get_oldest_data_time : Queue C → ℕ
  unfolding oldest_ready
  get_oldest_data_time q =
      let ready_time = oldest_ready q.ready_list in
      let current_time : ℕ = if has_bytes q then q.current.first_write_time else 0 in
      if ready_time == 0
      then current_time
      else if current_time == 0
      then ready_time
      else if ltb ready_time current_time
      then ready_time
      else current_time
