-- ===== src/Buffer/Queue/State.antt =====
-- BufferQueue.h and BufferCounters.h: the options, the counters and the state of a queue.
use logme.Prelude.{ℕ, Bool, Option, List, if◌then◌else◌, add64}
use logme.Buffer.Data.{DataBuffer}

pub data SoftFlushState : Type 0 where
  empty marked publish : SoftFlushState

-- `C` is the state behind `CacheContext`. The two callbacks belong to the caller of the queue; a
-- null function pointer is `none`, and so is a null buffer.
pub record Options (C : Type 0) : Type 0 where
  pub buffer_size : ℕ
  pub base_free_limit : ℕ
  pub max_total_buffers : ℕ
  pub max_adaptive_free_limit : ℕ
  pub take_cached_buffer : Option (C → ℕ → Option DataBuffer × C)
  pub return_cached_buffer : Option (C → DataBuffer → Bool × C)

pub record BufferCounters : Type 0 where
  pub appends : ℕ
  pub append_bytes : ℕ
  pub enqueued_buffers : ℕ
  pub written_buffers : ℕ
  pub written_bytes : ℕ
  pub allocated_buffers : ℕ
  pub deleted_buffers : ℕ
  pub dropped_appends : ℕ
  pub dropped_bytes : ℕ
  pub write_errors : ℕ
  pub signals_sent : ℕ

abbrev pub zero_counters : BufferCounters
zero_counters = record {
  appends = 0;
  append_bytes = 0;
  enqueued_buffers = 0;
  written_buffers = 0;
  written_bytes = 0;
  allocated_buffers = 0;
  deleted_buffers = 0;
  dropped_appends = 0;
  dropped_bytes = 0;
  write_errors = 0;
  signals_sent = 0;
}

-- `tracker` is `MemoryTracker`; `next_address` is where the next `new DataBuffer` goes, and no
-- address is used twice.
pub record Queue (C : Type 0) : Type 0 where
  pub options : Options C
  pub tracker : Option ℕ
  pub cache : C
  pub next_address : ℕ
  pub free_list : List DataBuffer
  pub ready_list : List DataBuffer
  pub current : DataBuffer
  pub has_current_data_flag : Bool
  pub current_first_write_time : ℕ
  pub used_buffers_count : ℕ
  pub total_buffers : ℕ
  pub adaptive_free_limit : ℕ
  pub signaled : Bool
  pub counters : BufferCounters
  pub global_counters : BufferCounters

-- BFW_CNT and FILE_CNT of one counter: the queue's and the process's.
abbrev pub bump : {C : Type 0} → (BufferCounters → BufferCounters) → Queue C → Queue C
bump f q = record q { counters = f q.counters; global_counters = f q.global_counters }

module _ {C : Type 0} where
  unfoldable pub count_appended : ℕ → Queue C → Queue C
  count_appended cb =
      bump λ c. record c { appends = add64 c.appends 1; append_bytes = add64 c.append_bytes cb }

  unfoldable pub count_dropped : ℕ → Queue C → Queue C
  count_dropped cb = bump λ c. record c {
    dropped_appends = add64 c.dropped_appends 1;
    dropped_bytes = add64 c.dropped_bytes cb;
  }

  unfoldable pub count_allocated : Queue C → Queue C
  count_allocated = bump λ c. record c { allocated_buffers = add64 c.allocated_buffers 1 }

  unfoldable pub count_deleted : Queue C → Queue C
  count_deleted = bump λ c. record c { deleted_buffers = add64 c.deleted_buffers 1 }

  unfoldable pub count_enqueued : Queue C → Queue C
  count_enqueued = bump λ c. record c { enqueued_buffers = add64 c.enqueued_buffers 1 }

  unfoldable pub count_written : ℕ → ℕ → Bool → Queue C → Queue C
  count_written buffers bytes ok = bump λ c.
      if ok
      then record c {
        written_buffers = add64 c.written_buffers buffers;
        written_bytes = add64 c.written_bytes bytes;
      }
      else record c { write_errors = add64 c.write_errors 1 }

  unfoldable pub count_signal : Queue C → Queue C
  count_signal = bump λ c. record c { signals_sent = add64 c.signals_sent 1 }
