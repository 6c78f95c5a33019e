-- ===== src/Buffer/Queue/Overtaking.antt =====
-- `PublishCurrent` lets go of the owner's data lock before it puts the old buffer in the ready
-- list. What happens to writes that get in between.
use mathlib.Core.List.{append_cancel_right}
use logme.Prelude.{ℕ, suc, ◌≡◌, sym, ap, subst, ◌∙◌, Bool, true, List, [], ◌++◌}
use logme.Buffer.Data.{DataBuffer, Fits, contents}
use logme.Buffer.Data.Laws.{contents_of_empty}
use logme.Buffer.Queue.State.{Queue}
use logme.Buffer.Queue.Pool.{maybe_grow_adaptive}
use logme.Buffer.Queue.Ops.{append_queue, swap_out, finish_publish, prepared}
use logme.Buffer.Queue.Stream.{bytes_of, stream}
use logme.Buffer.Queue.Invariant.{Inv, Sound}
use logme.Buffer.Queue.Invariant.Moves.{grow-Inv, grow-Front, enqueue-Enqueued}
use logme.Buffer.Queue.Invariant.AppendKeeps.{append-Spec}
use logme.Buffer.Queue.Invariant.PublishKeeps.{prepared_fields, swap-Inv}

module _ {C : Type 0} where
  swap-Sound : (b : DataBuffer) (q : Queue C) → Sound q.options → Sound (swap_out b q).options
  unfolding swap_out
  swap-Sound b q s = s

  swapped_stream : (b : DataBuffer) (q : Queue C) → q.ready_list ≡ [] → stream (swap_out b q) ≡ []
  unfolding swap_out
  swapped_stream b q e = rw e (contents_of_empty (prepared b) (prepared_fields b).0)

  -- A publication has taken the current buffer of `q`, with the replacement `b`, and has not yet
  -- put it in the ready list. Two writes get in, the second of which starts a buffer of its own.
  -- Then the older bytes are queued behind the first of the two writes.
  pub finish_publish-overtaken :
      (n : ℕ) (b : DataBuffer) (fresh : Bool) (p r : List ℕ) (now later : ℕ) (q : Queue C)
      → Sound q.options
      → Inv (suc n) q
      → Fits b
      → q.ready_list ≡ []
      → let first = append_queue p now (swap_out b q) in
        let second = append_queue r later first.queue in
        first.ok ≡ true
        → second.ok ≡ true
        → second.first_data ≡ true
        → let after = (finish_publish q.current fresh second.queue).queue in
          (bytes_of after.ready_list ≡ p ++ contents q.current) × (contents after.current ≡ r)
  unfolding finish_publish
  finish_publish-overtaken n b fresh p r now later q s v f e okp okr start =
      let swapped = swap_out b q in
      let first = append_queue p now swapped in
      let second = append_queue r later first.queue in
      let a = append-Spec (suc n) p now swapped (swap-Sound b q s) (swap-Inv (suc n) b q f v) in
      let c =
        append-Spec (suc n) r later first.queue (subst Sound (sym a.options) (swap-Sound b q s))
          a.inv in
      let only = (c.first start).0 in
      let whole : stream second.queue ≡ p ++ r =
        c.written ∙ rw okr (rw a.written (rw okp (rw (swapped_stream b q e)))) in
      let older : bytes_of second.queue.ready_list ≡ p =
        append_cancel_right (bytes_of second.queue.ready_list) p r
          (sym (ap (◌++◌ (bytes_of second.queue.ready_list)) only) ∙ whole) in
      let g = grow-Front fresh second.queue in
      let w =
        enqueue-Enqueued n q.current (maybe_grow_adaptive fresh second.queue) v.current_fits
          (grow-Inv (suc n) fresh second.queue c.inv) in
      (
        w.queued ∙ ap (λ (l : List ℕ). l ++ contents q.current) (ap bytes_of g.ready_list ∙ older),
        ap contents (w.current ∙ g.current) ∙ only,
      )
