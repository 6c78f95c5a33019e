-- ===== src/Tests/Queue.antt =====
-- Runs of BufferQueue.cpp and DataBuffer.cpp, with buffers of 4 bytes and no cache.
use logme.Prelude.{◌≡◌, ◌≢◌, refl, true, false, none, some, [], ◌∷◌, ◌==◌, if◌then◌else◌, arith}
use logme.Buffer.Data.{
  DataBuffer, new_buffer, append, contents, can_append, reset, set_first_write_time,
  set_seen_on_soft_flush,
}
use logme.Buffer.Data.Laws.{new_buffer-Fits}
use logme.Buffer.Data.Usage.{Usage, Balanced, share, attach_memory_tracker, attach-Balanced}
use logme.Buffer.Queue.State.{
  Queue, Options, zero_counters, count_appended, count_allocated, count_enqueued, count_signal,
}
use logme.Buffer.Queue.Pool.{
  take_front, try_take_free_buffer, take_cached, try_take_cached_buffer, is_full, allocate, admit,
  create_from, try_create_buffer, maybe_grow_adaptive, adaptive_cap,
}
use logme.Buffer.Queue.Lifecycle.{initial, started, new_queue}
use logme.Buffer.Queue.Ops.{
  after_create, after_free, acquire, append_with, append_queue, roll_over, put_current,
  enqueue_ready, signal, publish_current, publish_current_if_matches, take_ready, swap_out,
  finish_publish, publish_with,
}
use logme.Buffer.Queue.Stream.{bytes_of}
use logme.Buffer.Queue.Invariant.{Inv, Sound}
use logme.Buffer.Queue.Invariant.AppendKeeps.{AppendSpec, append-Spec}
use logme.Buffer.Queue.Invariant.PublishKeeps.{PublishSpec, publish_current-Spec}
use logme.Buffer.Queue.History.{
  System, Reach, append_bytes, take_all, here, next, appended, took, start,
}
use logme.Buffer.Queue.History.Lossless.{Lossless, history-Lossless}
use logme.Buffer.Queue.Supply.{append-accepts}
use logme.Prelude.{length, u64_mod, ◌+◌, ◌%◌, ◌<◌}
use logme.Buffer.Queue.Closing.{destruct-deletes}
use logme.Buffer.Queue.Lifecycle.{destruct}
use logme.Buffer.Queue.Overtaking.{finish_publish-overtaken}

abbrev options : Options Unit
options = record {
  buffer_size = 4;
  base_free_limit = 1;
  max_total_buffers = 0;
  max_adaptive_free_limit = 0;
  take_cached_buffer = none;
  return_cached_buffer = none;
}

options-Sound : Sound options
options-Sound = record { buffer_size = omega arith; max_total = omega arith; whole = λ take e. cc }

abbrev s0 : System Unit
s0 = start options none tt 0 zero_counters

abbrev s1 : System Unit
s1 = appended (1 ∷ 2 ∷ 3 ∷ []) 50 s0

abbrev s2 : System Unit
s2 = appended (4 ∷ 5 ∷ 6 ∷ []) 60 s1

abbrev s3 : System Unit
s3 = took s2

s3-Reach : Reach s0 s3
s3-Reach = next (next (next here (append_bytes _ _ _)) (append_bytes _ _ _)) (take_all s2 refl)

history-Lossless_example : Lossless s3
history-Lossless_example = history-Lossless options none tt 0 zero_counters options-Sound s3-Reach

s3-Lossless : Lossless s3
s3-Lossless = history-Lossless options none tt 0 zero_counters options-Sound s3-Reach

s1-Lossless : Lossless s1
s1-Lossless =
    history-Lossless options none tt 0 zero_counters options-Sound (next here (append_bytes _ _ _))

append-Spec_example :
    AppendSpec 0 (4 ∷ 5 ∷ 6 ∷ []) 60 s1.queue (append_queue (4 ∷ 5 ∷ 6 ∷ []) 60 s1.queue)
append-Spec_example = append-Spec 0 (4 ∷ 5 ∷ 6 ∷ []) 60 s1.queue s1-Lossless.sound s1-Lossless.inv

publish_current-Spec_example : PublishSpec 0 s1.queue (publish_current s1.queue)
publish_current-Spec_example = publish_current-Spec 0 s1.queue s1-Lossless.sound s1-Lossless.inv

s1-filled : s1.queue.current.size ≢ 0
unfolding new_queue started initial new_buffer append_queue put_current count_appended append
    count_allocated take_cached set_first_write_time can_append
s1-filled e = omega arith

s1-room : can_append s1.queue.current 1 ≡ true
unfolding new_queue started initial new_buffer append_queue put_current count_appended append
    count_allocated take_cached set_first_write_time can_append
s1-room = refl

s1-published : (publish_current_if_matches (some 0) s1.queue).ok ≡ true
unfolding new_queue started initial new_buffer append_queue put_current count_appended append
    count_allocated take_cached set_first_write_time can_append publish_current_if_matches
    publish_with acquire finish_publish after_free after_create try_take_free_buffer take_front
    try_create_buffer is_full try_take_cached_buffer create_from admit allocate swap_out
    maybe_grow_adaptive adaptive_cap enqueue_ready signal count_enqueued count_signal
s1-published = refl

append-accepts_example : (append_queue (4 ∷ 5 ∷ 6 ∷ []) 60 s1.queue).ok ≡ true
unfolding new_queue started initial new_buffer append_queue put_current count_appended append
    count_allocated take_cached set_first_write_time can_append
append-accepts_example =
    append-accepts 0 (4 ∷ 5 ∷ 6 ∷ []) 60 s1.queue s1-Lossless.sound s1-Lossless.inv refl
      (λ take e. cc) tt (omega arith)

new_buffer-room : can_append (new_buffer 0 4 none) 2 ≡ true
unfolding can_append new_buffer
new_buffer-room = refl

abbrev usage : Usage
usage s = if s == 1 then 4 else 0

usage-Balanced : Balanced usage (new_buffer 0 4 (some 1) ∷ [])
unfolding new_buffer share
usage-Balanced t = ground arith

attach-Balanced_example :
    Balanced
      (attach_memory_tracker (some 2) (new_buffer 0 4 (some 1)) usage).1
      ((attach_memory_tracker (some 2) (new_buffer 0 4 (some 1)) usage).0 ∷ [])
attach-Balanced_example =
    attach-Balanced (some 2) (new_buffer 0 4 (some 1)) usage [] (unfold new_buffer in omega arith)
      usage-Balanced

-- A publication in progress: one buffer is out of the queue, and `spare` is its replacement.
abbrev spare : DataBuffer
spare = new_buffer 7 4 none

abbrev first_write : Queue Unit
first_write = (append_queue (7 ∷ []) 70 (swap_out spare s3.queue)).queue

abbrev second_write : Queue Unit
second_write = (append_queue (8 ∷ 9 ∷ 10 ∷ 11 ∷ []) 80 first_write).queue

s3-taken : Inv 1 s3.queue
unfolding new_queue started initial new_buffer append_queue put_current count_appended append
    count_allocated take_cached set_first_write_time can_append acquire after_free after_create
    try_take_free_buffer take_front try_create_buffer is_full try_take_cached_buffer create_from
    admit allocate maybe_grow_adaptive adaptive_cap enqueue_ready signal count_enqueued count_signal
    append_with roll_over reset set_seen_on_soft_flush take_ready swap_out
s3-taken = s3-Lossless.inv

writes :
    ((append_queue (7 ∷ []) 70 (swap_out spare s3.queue)).ok ≡ true)
    × ((append_queue (8 ∷ 9 ∷ 10 ∷ 11 ∷ []) 80 first_write).ok ≡ true)
    × ((append_queue (8 ∷ 9 ∷ 10 ∷ 11 ∷ []) 80 first_write).first_data ≡ true)
unfolding new_queue started initial new_buffer append_queue put_current count_appended append
    count_allocated take_cached set_first_write_time can_append acquire after_free after_create
    try_take_free_buffer take_front try_create_buffer is_full try_take_cached_buffer create_from
    admit allocate maybe_grow_adaptive adaptive_cap enqueue_ready signal count_enqueued count_signal
    append_with roll_over reset set_seen_on_soft_flush take_ready swap_out
writes = (refl, refl, refl)

finish_publish-overtaken_example :
    let after = (finish_publish s3.queue.current false second_write).queue in
    (bytes_of after.ready_list ≡ 7 ∷ contents s3.queue.current)
    × (contents after.current ≡ 8 ∷ 9 ∷ 10 ∷ 11 ∷ [])
unfolding take_ready
finish_publish-overtaken_example =
    finish_publish-overtaken 0 spare false (7 ∷ []) (8 ∷ 9 ∷ 10 ∷ 11 ∷ []) 70 80 s3.queue
      s3-Lossless.sound s3-taken (new_buffer-Fits 7 4 none (omega arith)) refl writes.0 writes.1
      writes.2

s1-counted :
    (1 + length s1.queue.ready_list + length s1.queue.free_list < u64_mod)
    × (s1.queue.counters.deleted_buffers < u64_mod)
unfolding new_queue started initial new_buffer append_queue put_current count_appended append
    count_allocated take_cached set_first_write_time can_append
s1-counted = (omega arith, omega arith)

destruct-deletes_example :
    ((destruct s1.queue).total_buffers ≡ 0)
    × ((destruct s1.queue).counters.deleted_buffers
        ≡ (s1.queue.counters.deleted_buffers
            + (1 + length s1.queue.ready_list + length s1.queue.free_list))
          % u64_mod)
unfolding append_queue new_queue started initial take_cached count_allocated put_current
    count_appended can_append new_buffer
destruct-deletes_example = destruct-deletes s1.queue s1-Lossless.inv refl s1-counted.0 s1-counted.1
