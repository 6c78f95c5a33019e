-- ===== src/Buffer/Queue/SoftFlush.antt =====
-- The two passes of a soft flush, and the age of the oldest bytes.
use logme.Prelude.{
  ℕ, ◌≤◌, ◌≡◌, ◌≢◌, sym, ap, subst, ◌∙◌, Bool, true, ◌==◌, Option, none, some, List, length, ◌⊎◌,
  arith, if◌then◌else◌, ◌&&◌, ◌↔◌,
}
use logme.Buffer.Data.{
  DataBuffer, can_append, append, set_first_write_time, set_seen_on_soft_flush, Fits,
}
use logme.Buffer.Queue.State.{Queue, SoftFlushState, count_appended}
use logme.Buffer.Queue.Ops.{
  append_queue, put_current, acquire, publish_with, finish_publish, has_bytes,
  publish_current_if_matches, prepare_soft_flush_current, get_oldest_data_time, oldest_ready,
}
use logme.Buffer.Queue.Invariant.{Inv, Sound}
use logme.Buffer.Queue.Invariant.Moves.{Acquired, acquire-Acquired}
use logme.Buffer.Queue.Invariant.Put.{size-append}

put-mark :
    {C : Type 0} (p : List ℕ) (now : ℕ) (q : Queue C)
    → ((put_current p now q).current.seen_on_soft_flush ≡ q.current.seen_on_soft_flush)
      × ((put_current p now q).current.address ≡ q.current.address)
unfolding put_current append set_first_write_time
put-mark p now q = ground arith

put-size :
    {C : Type 0} (p : List ℕ) (now : ℕ) (q : Queue C)
    → Fits q.current
    → can_append q.current (length p) ≡ true
    → q.current.size ≢ 0
    → (put_current p now q).current.size ≢ 0
unfolding put_current
put-size p now q f room h = ground (arith, size-append q.current p f room)

same_room :
    (b c : DataBuffer) (n : ℕ)
    → c.size ≡ b.size
    → c.capacity ≡ b.capacity
    → can_append b n ≡ true
    → can_append c n ≡ true
unfolding can_append
same_room b c n h k r = rw (h, k) r

module _ {C : Type 0} where
  -- The mark and the identity of a buffer that bytes are added to.
  record Marked (m r : Queue C) : Type 0 where
    mark : r.current.seen_on_soft_flush ≡ m.current.seen_on_soft_flush
    address : r.current.address ≡ m.current.address
    filled : r.current.size ≢ 0

  append-Marked :
      (p : List ℕ) (now : ℕ) (m : Queue C)
      → Fits m.current
      → can_append m.current (length p) ≡ true
      → m.current.size ≢ 0
      → Marked m (append_queue p now m).queue
  unfolding append_queue count_appended
  append-Marked p now m f room h = ground (arith, put-mark p now m, put-size p now m f room h)

  prepare_first :
      (q : Queue C)
      → Fits q.current
      → q.current.size ≢ 0
      → Fits (prepare_soft_flush_current q).2.current
        × ((prepare_soft_flush_current q).2.current.size ≡ q.current.size)
        × ((prepare_soft_flush_current q).2.current.capacity ≡ q.current.capacity)
        × ((prepare_soft_flush_current q).2.current.seen_on_soft_flush ≡ true)
        × ((prepare_soft_flush_current q).2.current.address ≡ q.current.address)
  unfolding prepare_soft_flush_current set_seen_on_soft_flush
  prepare_first q f h = ground arith

  prepare_marked :
      (r : Queue C)
      → r.current.size ≢ 0
      → r.current.seen_on_soft_flush ≡ true
      → prepare_soft_flush_current r ≡ (SoftFlushState.publish, some r.current.address, r)
  unfolding prepare_soft_flush_current
  prepare_marked r h m = ground arith

  -- A second pass finds the buffer that the first one marked, whatever was appended in between, if
  -- it fitted in that buffer.
  pub prepare-prepare :
      (n : ℕ) (p : List ℕ) (now : ℕ) (q : Queue C)
      → Inv n q
      → q.current.size ≢ 0
      → can_append q.current (length p) ≡ true
      → prepare_soft_flush_current (append_queue p now (prepare_soft_flush_current q).2).queue ≡ (
        SoftFlushState.publish,
        some q.current.address,
        (append_queue p now (prepare_soft_flush_current q).2).queue,
      )
  prepare-prepare n p now q v h room =
      let m = (prepare_soft_flush_current q).2 in
      let (f, size, cap, mark, address) = prepare_first q v.current_fits h in
      let k =
        append-Marked p now m f (same_room q.current m.current (length p) size cap room)
          (λ e. h (sym size ∙ e)) in
      prepare_marked _ k.filled (k.mark ∙ mark)
      ∙ ap
          (λ a. (
            SoftFlushState.publish,
            some a,
            (append_queue p now (prepare_soft_flush_current q).2).queue,
          ))
          (k.address ∙ address)

  wanted-current :
      (n : ℕ) (a : ℕ) (q : Queue C) (t : Option DataBuffer × Bool × Queue C)
      → Acquired n q t
      → (publish_with (λ r. r.current.address == a && has_bytes r) t).ok ≡ true
      → (q.current.address ≡ a) × (q.current.size ≢ 0)
  unfolding publish_with finish_publish
  wanted-current n a q (none, fresh, r) f h = cc
  wanted-current n a q (some b, fresh, r) (f, _, _) h =
      let same : (r.current.address ≡ a) × (r.current.size ≢ 0) = ground arith in
      subst (λ (x : DataBuffer). (x.address ≡ a) × (x.size ≢ 0)) f.current same

  -- A publication by pointer succeeds only for the buffer that is current, and not empty.
  pub publish_if_matches-current :
      (n : ℕ) (expected : Option ℕ) (q : Queue C)
      → Sound q.options
      → Inv n q
      → (publish_current_if_matches expected q).ok ≡ true
      → (expected ≡ some q.current.address) × (q.current.size ≢ 0)
  unfolding publish_current_if_matches
  publish_if_matches-current n none q s v h = cc
  publish_if_matches-current n (some a) q s v h =
      let (same, filled) = wanted-current n a q (acquire q) (acquire-Acquired n q s v) h in
      (ap some (sym same), filled)

  abbrev pub current_time : Queue C → ℕ
  current_time q = if has_bytes q then q.current.first_write_time else 0

  -- The age of a queue is that of the older of the front of the ready list and the current buffer;
  -- a time of 0 counts for none.
  pub oldest_data_time_lem :
      (q : Queue C)
      → ((get_oldest_data_time q ≡ 0) ↔ ((oldest_ready q.ready_list ≡ 0) × (current_time q ≡ 0)))
        × (oldest_ready q.ready_list ≢ 0 → get_oldest_data_time q ≤ oldest_ready q.ready_list)
        × (current_time q ≢ 0 → get_oldest_data_time q ≤ current_time q)
        × ((get_oldest_data_time q ≡ oldest_ready q.ready_list)
            ⊎ (get_oldest_data_time q ≡ current_time q))
  unfolding get_oldest_data_time
  oldest_data_time_lem q = ground arith
