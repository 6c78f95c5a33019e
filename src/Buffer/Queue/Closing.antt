-- ===== src/Buffer/Queue/Closing.antt =====
-- What the destructor of a queue does with its buffers.
use logme.Prelude.{
  ℕ, ◌+◌, ◌-◌, ◌%◌, ◌<◌, ◌≡◌, refl, ap, ◌∙◌, none, List, [], ◌∷◌, length, ltb, u64_mod, arith,
  Bool-cases, inl, inr,
}
use logme.Buffer.Data.{DataBuffer}
use logme.Buffer.Queue.State.{Queue, count_deleted}
use logme.Buffer.Queue.Pool.{discard, return_cached, try_return_cached_buffer, counted_if_deleted}
use logme.Buffer.Queue.Lifecycle.{close_buffer, close_all, destruct}
use logme.Buffer.Queue.Invariant.{Inv}

module _ {C : Type 0} where
  -- From one queue to another, with `n` buffers deleted.
  record Deleted (n : ℕ) (q r : Queue C) : Type 0 where
    cache : r.options.return_cached_buffer ≡ none
    ready_list : r.ready_list ≡ q.ready_list
    total : r.total_buffers ≡ q.total_buffers - n
    deleted : r.counters.deleted_buffers ≡ (q.counters.deleted_buffers + n) % u64_mod
    small : r.total_buffers < u64_mod

  discard-none :
      (b : DataBuffer) (q : Queue C)
      → q.options.return_cached_buffer ≡ none
      → discard b q ≡ count_deleted q
  unfolding discard try_return_cached_buffer return_cached counted_if_deleted
  discard-none b q h = rw h refl

  close_buffer-Deleted :
      (b : DataBuffer) (q : Queue C)
      → q.options.return_cached_buffer ≡ none
      → q.total_buffers < u64_mod
      → Deleted 1 q (close_buffer b q)
  unfolding close_buffer count_deleted
  close_buffer-Deleted b q h k =
      rw (close_buffer, discard-none b q h)
        (elim (Bool-cases (ltb 0 q.total_buffers)) [
          | inl some_left ↦ rw some_left (record {
            cache = h;
            ready_list = refl;
            total = ground arith;
            deleted = refl;
            small = ground arith;
          })
          | inr nothing_left ↦ rw nothing_left (record {
            cache = h;
            ready_list = refl;
            total = ground arith;
            deleted = refl;
            small = k;
          })
        ])

  close_all-Deleted :
      (bs : List DataBuffer) (q : Queue C)
      → q.options.return_cached_buffer ≡ none
      → q.total_buffers < u64_mod
      → q.counters.deleted_buffers < u64_mod
      → Deleted (length bs) q (close_all bs q)
  unfolding close_all
  close_all-Deleted [] q h k l = record {
    cache = h;
    ready_list = refl;
    total = omega arith;
    deleted = omega (arith, l);
    small = k;
  }
  close_all-Deleted (b ∷ bs) q h k l =
      let one = close_buffer-Deleted b q h k in
      let rest =
        close_all-Deleted bs (close_buffer b q) one.cache one.small (omega (arith, one.deleted)) in
      record {
        cache = rest.cache;
        ready_list = rest.ready_list ∙ one.ready_list;
        total = omega (arith, rest.total, one.total);
        deleted = omega (arith, rest.deleted, one.deleted);
        small = rest.small;
      }

  -- Without a cache to return them to, the destructor of a well-formed queue, all of whose buffers are
  -- in its members, deletes every one of them, and no other: the count of deleted buffers grows by
  -- their number, mod 2 ^ 64, and the total is 0.
  pub destruct-deletes :
      (q : Queue C)
      → Inv 0 q
      → q.options.return_cached_buffer ≡ none
      → 1 + length q.ready_list + length q.free_list < u64_mod
      → q.counters.deleted_buffers < u64_mod
      → ((destruct q).total_buffers ≡ 0)
        × ((destruct q).counters.deleted_buffers
            ≡ (q.counters.deleted_buffers + (1 + length q.ready_list + length q.free_list))
              % u64_mod)
  unfolding destruct
  destruct-deletes q v h k l =
      let first = close_buffer-Deleted q.current q h (omega (arith, v.total)) in
      let free =
        close_all-Deleted q.free_list (close_buffer q.current q) first.cache first.small
          (omega (arith, first.deleted)) in
      let closed = close_all q.free_list (close_buffer q.current q) in
      let emptied : Queue C = record closed { free_list = [] } in
      let ready =
        close_all-Deleted closed.ready_list emptied free.cache free.small
          (omega (arith, free.deleted)) in
      let same = ap length (free.ready_list ∙ first.ready_list) in
      (
        omega (arith, ready.total, free.total, first.total, same, v.total, k),
        omega (arith, ready.deleted, free.deleted, first.deleted, same),
      )
