-- ===== src/Buffer/Queue/Invariant/PublishKeeps.antt =====
-- `PublishCurrent` and `PublishCurrentIfMatches`.
use logme.Prelude.{
  ℕ, suc, ◌≡◌, refl, ap, subst, ◌∙◌, Bool, true, false, not, ◌==◌, ◌&&◌, Option, none, some, List,
  [], ◌++◌, arith, Bool-cases, inl, inr, append-nil,
}
use logme.Buffer.Data.{DataBuffer, Fits, contents, reset, set_seen_on_soft_flush}
use logme.Buffer.Data.Laws.{contents_of_empty}
use logme.Buffer.Queue.State.{Queue}
use logme.Buffer.Queue.Pool.{maybe_grow_adaptive}
use logme.Buffer.Queue.Ops.{
  Published, acquire, prepared, enqueue_ready, has_bytes, swap_out, finish_publish, publish_with,
  publish_current, publish_current_if_matches,
}
use logme.Buffer.Queue.Stream.{bytes_of, stream}
use logme.Buffer.Queue.Invariant.PoolKeeps.{release-Inv}
use logme.Buffer.Queue.Invariant.Moves.{
  Acquired, acquire-Acquired, grow-Inv, grow-Front, release-Front, enqueue-Enqueued,
}
use logme.Buffer.Queue.Invariant.Put.{prepared-Fits, replace_current-Inv}
use logme.Buffer.Queue.Invariant.{Inv, Sound, is_nonempty}

pub prepared_fields :
    (b : DataBuffer) → ((prepared b).size ≡ 0) × ((prepared b).first_write_time ≡ 0)
unfolding set_seen_on_soft_flush reset
prepared_fields b = (refl, refl)

module _ {C : Type 0} where
  -- What a publication promises: no byte is lost or moved. Where it succeeds, all of them are in
  -- the ready list and none is in the current buffer.
  pub record PublishSpec (n : ℕ) (q : Queue C) (r : Published C) : Type 0 where
    pub inv : Inv n r.queue
    pub options : r.queue.options ≡ q.options
    pub kept : stream r.queue ≡ stream q
    pub need : r.need_signal ≡ (not (is_nonempty q.ready_list) && is_nonempty r.queue.ready_list)
    pub published :
        r.ok ≡ true → (r.queue.current.size ≡ 0) × (bytes_of r.queue.ready_list ≡ stream q)
    pub refused : r.ok ≡ false → (r.queue.current ≡ q.current) × (r.queue.ready_list ≡ q.ready_list)

  pub swap-Inv : (n : ℕ) (b : DataBuffer) (q : Queue C) → Fits b → Inv n q → Inv n (swap_out b q)
  unfolding swap_out
  swap-Inv n b q f v =
      let (empty, time) = prepared_fields b in
      subst
        (λ (t : ℕ). Inv n (record q {
          current = prepared b;
          current_first_write_time = t;
          has_current_data_flag = false;
        }))
        time (replace_current-Inv n q (prepared b) false (prepared-Fits b f) (ground arith) v)

  pub publish_with-Spec :
      (n : ℕ) (wanted : Queue C → Bool) (q : Queue C) (t : Option DataBuffer × Bool × Queue C)
      → Acquired n q t
      → PublishSpec n q (publish_with wanted t)
  unfolding publish_with finish_publish swap_out
  publish_with-Spec n wanted q (none, fresh, r) (f, v) = record {
    inv = v;
    options = f.options;
    kept = rw (f.ready_list, f.current);
    need = ground (arith, ap is_nonempty f.ready_list);
    published = λ h. cc;
    refused = λ _. (f.current, f.ready_list);
  }
  publish_with-Spec n wanted q (some b, fresh, r) (f, v, fits) = elim (Bool-cases (wanted r)) [
    | inl go ↦
        let g = grow-Front fresh (swap_out b r) in
        let e =
          enqueue-Enqueued n r.current (maybe_grow_adaptive fresh (swap_out b r)) v.current_fits
            (grow-Inv (suc n) fresh (swap_out b r) (swap-Inv (suc n) b r fits v)) in
        let empty : contents (prepared b) ≡ [] =
          contents_of_empty (prepared b) (prepared_fields b).0 in
        let all =
          e.queued
          ∙ ap (λ (l : List DataBuffer). bytes_of l ++ contents r.current)
              (g.ready_list ∙ f.ready_list)
          ∙ ap (λ (x : DataBuffer). bytes_of q.ready_list ++ contents x) f.current in
        rw go (record {
          inv = e.inv;
          options = e.options ∙ g.options ∙ f.options;
          kept = rw (ap contents (e.current ∙ g.current) ∙ empty) (
              append-nil (
                bytes_of
                  (enqueue_ready r.current (maybe_grow_adaptive fresh (swap_out b r))).1.ready_list)
              ∙ all);
          need = e.need ∙ rw (g.ready_list, f.ready_list);
          published = λ _. (
            ap (λ (x : DataBuffer). x.size) (e.current ∙ g.current) ∙ (prepared_fields b).0,
            all,
          );
          refused = λ h. cc;
        })
    | inr stay ↦
        let k = release-Front b r in
        rw stay (record {
          inv = release-Inv n b r fits v;
          options = k.options ∙ f.options;
          kept = rw (k.ready_list, k.current, f.ready_list, f.current);
          need = ground (arith, ap is_nonempty (k.ready_list ∙ f.ready_list));
          published = λ h. cc;
          refused = λ _. (k.current ∙ f.current, k.ready_list ∙ f.ready_list);
        })
  ]

  -- `PublishCurrent` keeps the queue well-formed and its stream of bytes as it is, whether a buffer
  -- can be had or not. Where it returns true, the current buffer is empty and the ready list holds
  -- the whole stream; where it returns false, the current buffer and the ready list are untouched.
  -- It asks for the writer to be woken exactly where the ready list stops being empty.
  pub publish_current-Spec :
      (n : ℕ) (q : Queue C) → Sound q.options → Inv n q → PublishSpec n q (publish_current q)
  unfolding publish_current
  publish_current-Spec n q s v =
      publish_with-Spec n has_bytes q (acquire q) (acquire-Acquired n q s v)

  -- `PublishCurrentIfMatches` promises the same, for any pointer that it is given.
  pub publish_if_matches-Spec :
      (n : ℕ) (expected : Option ℕ) (q : Queue C)
      → Sound q.options
      → Inv n q
      → PublishSpec n q (publish_current_if_matches expected q)
  unfolding publish_current_if_matches
  publish_if_matches-Spec n none q s v = record {
    inv = v;
    options = refl;
    kept = refl;
    need = ground arith;
    published = λ h. cc;
    refused = λ _. (refl, refl);
  }
  publish_if_matches-Spec n (some a) q s v =
      publish_with-Spec n (λ r. r.current.address == a && has_bytes r) q (acquire q)
        (acquire-Acquired n q s v)
