-- ===== src/Buffer/Queue/Invariant/Frames.antt =====
-- What the changes of the pool leave alone.
use logme.Prelude.{
  ℕ, zero, suc, ◌+◌, ◌%◌, ◌≡◌, refl, ◌∙◌, Bool, true, false, Option, none, some, List, [], ◌∷◌, All,
  length, ltb, u64_mod, arith, min, max, Bool-cases, inl, inr, sub64,
}
use logme.Buffer.Data.{DataBuffer, Fits}
use logme.Buffer.Queue.State.{Queue, count_deleted}
use logme.Buffer.Queue.Pool.{
  return_cached, try_return_cached_buffer, counted_if_deleted, discard, shrink_limit, drop_excess,
  decay_free_locked,
}

-- All but the free list, the total, the limit on the free list, the cache and the counters.
pub record Kept {C : Type 0} (q r : Queue C) : Type 0 where
  pub options : r.options ≡ q.options
  pub ready_list : r.ready_list ≡ q.ready_list
  pub current : r.current ≡ q.current
  pub flag : r.has_current_data_flag ≡ q.has_current_data_flag
  pub time : r.current_first_write_time ≡ q.current_first_write_time
  pub used : r.used_buffers_count ≡ q.used_buffers_count
  pub signaled : r.signaled ≡ q.signaled

module _ {C : Type 0} where
  pub Kept-refl : (q : Queue C) → Kept q q
  Kept-refl q = ground arith

  pub Kept-trans : (q r s : Queue C) → Kept q r → Kept r s → Kept q s
  Kept-trans q r s h k = record {
    options = k.options ∙ h.options;
    ready_list = k.ready_list ∙ h.ready_list;
    current = k.current ∙ h.current;
    flag = k.flag ∙ h.flag;
    time = k.time ∙ h.time;
    used = k.used ∙ h.used;
    signaled = k.signaled ∙ h.signaled;
  }

  return_cached-Kept :
      (o : Option (C → DataBuffer → Bool × C)) (b : DataBuffer) (q : Queue C)
      → Kept q (return_cached o b q).1
        × ((return_cached o b q).1.free_list ≡ q.free_list)
        × ((return_cached o b q).1.total_buffers ≡ q.total_buffers)
        × ((return_cached o b q).1.adaptive_free_limit ≡ q.adaptive_free_limit)
  unfolding return_cached
  return_cached-Kept none b q = ground arith
  return_cached-Kept (some give) b q = ground arith

  counted_if_deleted-Kept :
      (taken : Bool) (q : Queue C)
      → Kept q (counted_if_deleted (taken, q))
        × ((counted_if_deleted (taken, q)).free_list ≡ q.free_list)
        × ((counted_if_deleted (taken, q)).total_buffers ≡ q.total_buffers)
        × ((counted_if_deleted (taken, q)).adaptive_free_limit ≡ q.adaptive_free_limit)
  unfolding counted_if_deleted count_deleted
  counted_if_deleted-Kept true q = ground arith
  counted_if_deleted-Kept false q = ground arith

  -- Destroying a buffer, or giving it back to the cache, touches the cache and the counters only.
  pub discard-Kept :
      (b : DataBuffer) (q : Queue C)
      → Kept q (discard b q)
        × ((discard b q).free_list ≡ q.free_list)
        × ((discard b q).total_buffers ≡ q.total_buffers)
        × ((discard b q).adaptive_free_limit ≡ q.adaptive_free_limit)
  unfolding discard try_return_cached_buffer
  discard-Kept b q =
      let r = return_cached q.options.return_cached_buffer b q in
      let (k, f, t, a) = return_cached-Kept q.options.return_cached_buffer b q in
      let (k', f', t', a') = counted_if_deleted-Kept r.0 r.1 in
      (Kept-trans q r.1 _ k k', f' ∙ f, t' ∙ t, a' ∙ a)

  -- What the second loop of `DecayFreeLocked` achieves from a queue whose free list is `bs`.
  pub record Trimmed (bs : List DataBuffer) (q r : Queue C) : Type 0 where
    pub kept : Kept q r
    pub limit : r.adaptive_free_limit ≡ q.adaptive_free_limit
    pub exact : length r.free_list ≡ min (length bs) q.adaptive_free_limit
    pub total :
        (n : ℕ)
        → q.total_buffers ≡ (n + length bs) % u64_mod
        → r.total_buffers ≡ (n + length r.free_list) % u64_mod
    pub all_fit : All Fits bs → All Fits r.free_list

  drop_excess-Trimmed :
      (bs : List DataBuffer) (q : Queue C) → q.free_list ≡ bs → Trimmed bs q (drop_excess bs q)
  unfolding drop_excess
  drop_excess-Trimmed [] q e = record {
    kept = Kept-refl q;
    limit = refl;
    exact = rw e (omega arith);
    total = λ n h. rw e h;
    all_fit = λ h. rw e h;
  }
  drop_excess-Trimmed (b ∷ bs) q e =
      let popped : Queue C = record q { free_list = bs; total_buffers = sub64 q.total_buffers 1 } in
      let (k, f, t, a) = discard-Kept b popped in
      let ih = drop_excess-Trimmed bs (discard b popped) f in
      elim (Bool-cases (ltb q.adaptive_free_limit (length (b ∷ bs)))) [
        | inl over ↦ rw over (record {
          kept = Kept-trans q (discard b popped) _ (ground (arith, k)) ih.kept;
          limit = ih.limit ∙ a;
          exact = ground (arith, ih.exact);
          total = λ n h. ih.total n (t ∙ ground arith);
          all_fit = λ h. ih.all_fit h.1;
        })
        | inr within ↦ rw within (record {
          kept = Kept-refl q;
          limit = refl;
          exact = rw e (ground arith);
          total = λ n h. rw e h;
          all_fit = λ h. rw e h;
        })
      ]

shrink_limit_closed : (base n limit : ℕ) → shrink_limit base n limit ≡ min limit (max base n)
unfolding shrink_limit
shrink_limit_closed base n zero = omega arith
shrink_limit_closed base n (suc limit) = ground (arith, shrink_limit_closed base n limit)

module _ {C : Type 0} where
  -- What a decay of the free list leaves.
  pub record Decayed (q r : Queue C) : Type 0 where
    pub kept : Kept q r
    pub limit :
        r.adaptive_free_limit
        ≡ min q.adaptive_free_limit (max q.options.base_free_limit (length q.free_list))
    pub exact : length r.free_list ≡ min (length q.free_list) q.adaptive_free_limit
    pub total :
        (n : ℕ)
        → q.total_buffers ≡ (n + length q.free_list) % u64_mod
        → r.total_buffers ≡ (n + length r.free_list) % u64_mod
    pub all_fit : All Fits q.free_list → All Fits r.free_list

  -- `DecayFreeLocked` lowers the limit to the number of free buffers, but not below its base, and
  -- keeps as many free buffers as the old limit allows; the count of all buffers follows, and the
  -- rest of the queue stays.
  pub decay-Decayed : (q : Queue C) → Decayed q (decay_free_locked q)
  unfolding decay_free_locked
  decay-Decayed q =
      let limit =
        shrink_limit q.options.base_free_limit (length q.free_list) q.adaptive_free_limit in
      let lowered : Queue C = record q { adaptive_free_limit = limit } in
      let t = drop_excess-Trimmed q.free_list lowered refl in
      let closed =
        shrink_limit_closed q.options.base_free_limit (length q.free_list) q.adaptive_free_limit in
      record {
        kept = Kept-trans q lowered _ (ground arith) t.kept;
        limit = t.limit ∙ closed;
        exact = omega (arith, t.exact, closed);
        total = t.total;
        all_fit = t.all_fit;
      }

-- What an append or a publication reads of the queue, which the search for a replacement keeps.
pub record Front {C : Type 0} (q r : Queue C) : Type 0 where
  pub options : r.options ≡ q.options
  pub ready_list : r.ready_list ≡ q.ready_list
  pub current : r.current ≡ q.current
  pub signaled : r.signaled ≡ q.signaled

module _ {C : Type 0} where
  pub Front-refl : (q : Queue C) → Front q q
  Front-refl q = ground arith

  pub Front-trans : (q r s : Queue C) → Front q r → Front r s → Front q s
  Front-trans q r s h k = record {
    options = k.options ∙ h.options;
    ready_list = k.ready_list ∙ h.ready_list;
    current = k.current ∙ h.current;
    signaled = k.signaled ∙ h.signaled;
  }

  pub Kept-Front : (q r : Queue C) → Kept q r → Front q r
  Kept-Front q r k = record {
    options = k.options;
    ready_list = k.ready_list;
    current = k.current;
    signaled = k.signaled;
  }
