-- ===== src/Buffer/Queue/Lifecycle.antt =====
-- The constructor and the destructor of BufferQueue.cpp.
use logme.Prelude.{ℕ, suc, false, Option, none, some, List, [], ◌∷◌, ltb, if◌then◌else◌, sub64}
use logme.Buffer.Data.{DataBuffer, new_buffer}
use logme.Buffer.Queue.State.{Queue, Options, zero_counters, BufferCounters, count_allocated}
use logme.Buffer.Queue.Pool.{take_cached, discard}

module _ {C : Type 0} where
  -- The members as the constructor's list of initialisers sets them, with the first buffer.
  unfoldable pub initial : Options C → Option ℕ → BufferCounters → DataBuffer → C → ℕ → Queue C
  initial options tracker globals first cache address = record {
    options = options;
    tracker = tracker;
    cache = cache;
    next_address = address;
    free_list = [];
    ready_list = [];
    current = first;
    has_current_data_flag = false;
    current_first_write_time = 0;
    used_buffers_count = 1;
    total_buffers = 1;
    adaptive_free_limit = options.base_free_limit;
    signaled = false;
    counters = zero_counters;
    global_counters = globals;
  }

  -- From the search for the first buffer on.
  unfoldable pub started :
      Options C → Option ℕ → BufferCounters → ℕ → Option DataBuffer × C → Queue C
  unfolding initial
  started options tracker globals address (some b, c) = initial options tracker globals b c address
  started options tracker globals address (none, c) = count_allocated (
      initial options tracker globals (new_buffer address options.buffer_size tracker) c
        (suc address))

  -- The constructor.
  unfoldable pub new_queue : Options C → Option ℕ → C → ℕ → BufferCounters → Queue C
  unfolding started take_cached
  new_queue options tracker cache address globals =
      started options tracker globals address
        (take_cached options.take_cached_buffer options.buffer_size cache)

  -- One buffer of the destructor.
  unfoldable pub close_buffer : DataBuffer → Queue C → Queue C
  close_buffer b q =
      let q' = discard b q in
      if ltb 0 q'.total_buffers then record q' { total_buffers = sub64 q'.total_buffers 1 } else q'

  unfoldable pub close_all : List DataBuffer → Queue C → Queue C
  unfolding close_buffer
  close_all [] q = q
  close_all (b ∷ bs) q = close_all bs (close_buffer b q)

  unfoldable pub destruct : Queue C → Queue C
  unfolding close_all
  destruct q =
      let q' = close_all q.free_list (close_buffer q.current q) in
      close_all q'.ready_list (record q' { free_list = [] })
