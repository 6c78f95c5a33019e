-- ===== src/Buffer/Queue/Pool.antt =====
-- BufferQueue.cpp: where the queue's buffers come from, and where they go.
use mathlib.Core.Option
use logme.Prelude.{
  ℕ, zero, suc, Bool, true, false, not, ◌&&◌, ◌==◌, Option, none, some, List, [], ◌∷◌, ◌++◌, length,
  ltb, leb, if◌then◌else◌, add64, sub64,
}
use logme.Buffer.Data.{DataBuffer, new_buffer, reset}
use logme.Buffer.Queue.State.{Queue, Options, count_allocated, count_deleted}

-- The first loop of `DecayFreeLocked`, for `n` free buffers.
unfoldable pub shrink_limit : ℕ → ℕ → ℕ → ℕ
shrink_limit base n zero = zero
shrink_limit base n (suc limit) =
    let rest = shrink_limit base n limit in
    if ltb base (suc limit) && leb n limit then rest else suc limit

module _ {C : Type 0} where
  unfoldable pub take_front : Queue C → List DataBuffer → Option DataBuffer × Queue C
  take_front q [] = (none, q)
  take_front q (b ∷ rest) =
      (some b, record q { free_list = rest; used_buffers_count = add64 q.used_buffers_count 1 })

  unfoldable pub try_take_free_buffer : Queue C → Option DataBuffer × Queue C
  unfolding take_front
  try_take_free_buffer q = take_front q q.free_list

  -- The buffer that the cache hands over is reset.
  unfoldable pub take_cached :
      Option (C → ℕ → Option DataBuffer × C) → ℕ → C → Option DataBuffer × C
  take_cached none capacity c = (none, c)
  take_cached (some take) capacity c =
      let (found, c') = take c capacity in (Option.map reset found, c')

  unfoldable pub try_take_cached_buffer : Queue C → Option DataBuffer × Queue C
  unfolding take_cached
  try_take_cached_buffer q =
      let (found, cache) = take_cached q.options.take_cached_buffer q.options.buffer_size q.cache in
      (found, record q { cache = cache })

  -- The limit on the buffers of the queue, 0 for no limit.
  unfoldable pub is_full : Queue C → Bool
  is_full q =
      not (q.options.max_total_buffers == 0) && leb q.options.max_total_buffers q.total_buffers

  abbrev pub grown : Queue C → Queue C
  grown q = record q {
    total_buffers = add64 q.total_buffers 1;
    used_buffers_count = add64 q.used_buffers_count 1;
  }

  unfoldable pub allocate : Queue C → DataBuffer × Queue C
  allocate q = (
    new_buffer q.next_address q.options.buffer_size q.tracker,
    record q { next_address = suc q.next_address },
  )

  -- From the second look at the limit on. `allocated` says that the buffer is new.
  -- The global count that FileManager keeps of allocations is left out.
  unfoldable pub admit : Bool → DataBuffer → Queue C → Option DataBuffer × Queue C
  unfolding is_full
  admit allocated b q =
      if is_full q
      then (none, q)
      else (some b, if allocated then count_allocated (grown q) else grown q)

  unfoldable pub create_from : Option DataBuffer × Queue C → Option DataBuffer × Queue C
  unfolding admit allocate
  create_from (some b, q) = admit false b q
  create_from (none, q) = let (b, q') = allocate q in admit true b q'

  unfoldable pub try_create_buffer : Queue C → Option DataBuffer × Queue C
  unfolding is_full create_from try_take_cached_buffer
  try_create_buffer q = if is_full q then (none, q) else create_from (try_take_cached_buffer q)

  unfoldable pub return_cached :
      Option (C → DataBuffer → Bool × C) → DataBuffer → Queue C → Bool × Queue C
  return_cached none b q = (false, q)
  return_cached (some give) b q =
      let (taken, cache) = give q.cache (reset b) in (taken, record q { cache = cache })

  unfoldable pub try_return_cached_buffer : DataBuffer → Queue C → Bool × Queue C
  unfolding return_cached
  try_return_cached_buffer b q = return_cached q.options.return_cached_buffer b q

  unfoldable pub counted_if_deleted : Bool × Queue C → Queue C
  counted_if_deleted (true, q) = q
  counted_if_deleted (false, q) = count_deleted q

  -- A buffer that the cache does not take is destroyed.
  unfoldable pub discard : DataBuffer → Queue C → Queue C
  unfolding counted_if_deleted try_return_cached_buffer
  discard b q = counted_if_deleted (try_return_cached_buffer b q)

  -- The second loop, on the free list that it shortens.
  unfoldable pub drop_excess : List DataBuffer → Queue C → Queue C
  drop_excess [] q = q
  drop_excess (b ∷ rest) q =
      let next =
        drop_excess rest
          (discard b (record q { free_list = rest; total_buffers = sub64 q.total_buffers 1 })) in
      if ltb q.adaptive_free_limit (length (b ∷ rest)) then next else q

  unfoldable pub decay_free_locked : Queue C → Queue C
  unfolding shrink_limit drop_excess
  decay_free_locked q = drop_excess q.free_list (record q {
    adaptive_free_limit =
        shrink_limit q.options.base_free_limit (length q.free_list) q.adaptive_free_limit;
  })

  unfoldable pub release_buffer : DataBuffer → Queue C → Queue C
  release_buffer b q = decay_free_locked (record q {
    free_list = q.free_list ++ reset b ∷ [];
    used_buffers_count = sub64 q.used_buffers_count 1;
  })

  unfoldable pub adaptive_cap : Options C → ℕ
  adaptive_cap o =
      if not (o.max_adaptive_free_limit == 0)
      then o.max_adaptive_free_limit
      else if not (o.max_total_buffers == 0)
      then o.max_total_buffers
      else 0

  unfoldable pub maybe_grow_adaptive : Bool → Queue C → Queue C
  unfolding adaptive_cap
  maybe_grow_adaptive false q = q
  maybe_grow_adaptive true q =
      if not (adaptive_cap q.options == 0) && leb (adaptive_cap q.options) q.adaptive_free_limit
      then q
      else record q { adaptive_free_limit = add64 q.adaptive_free_limit 1 }
