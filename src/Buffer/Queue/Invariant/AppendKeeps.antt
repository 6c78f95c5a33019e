-- ===== src/Buffer/Queue/Invariant/AppendKeeps.antt =====
-- `Append`: the well-formedness, the bytes of the stream, and the three results.
use logme.Prelude.{
  ℕ, suc, ◌≡◌, ◌≢◌, refl, sym, ap, ◌∙◌, Bool, true, false, not, ◌==◌, ◌&&◌, ==_iff, Option, none,
  some, List, [], ◌∷◌, ◌++◌, length, arith, if◌then◌else◌, Bool-cases, inl, inr, append-nil,
}
use logme.Buffer.Data.{
  DataBuffer, Fits, contents, can_append, append, reset, set_first_write_time,
  set_seen_on_soft_flush,
}
use logme.Buffer.Data.Laws.{contents-append, contents_of_empty}
use logme.Buffer.Queue.State.{Queue, count_appended, count_dropped}
use logme.Buffer.Queue.Pool.{release_buffer, maybe_grow_adaptive}
use logme.Buffer.Queue.Ops.{
  Appended, acquire, prepared, put_current, dropped, roll_over, append_with, append_queue,
}
use logme.Buffer.Queue.Stream.{stream}
use logme.Buffer.Queue.Invariant.Frames.{Front, Front-refl}
use logme.Buffer.Queue.Invariant.PoolKeeps.{release-Inv}
use logme.Buffer.Queue.Invariant.Moves.{
  Acquired, acquire-Acquired, grow-Inv, grow-Front, release-Front, enqueue-Enqueued,
}
use logme.Buffer.Queue.Invariant.{Inv, Sound, is_nonempty}
use logme.Buffer.Queue.Invariant.Put.{
  set_time-Fits, prepared-Fits, can_append-set_time, filled-Inv, put-Inv, put-stream, put-first,
  put-Front,
}

rolled_time :
    (t : ℕ) (b : DataBuffer) (p : List ℕ)
    → t ≡ (append (set_first_write_time t (prepared b)) p).first_write_time
unfolding append set_first_write_time
rolled_time t b p = refl

start_empty : (t : ℕ) (b : DataBuffer) → (set_first_write_time t (prepared b)).size ≡ 0
unfolding set_first_write_time set_seen_on_soft_flush reset
start_empty t b = refl

nil_of_length : (p : List ℕ) → length p ≡ 0 → p ≡ []
nil_of_length [] h = refl
nil_of_length (x ∷ p) h = absurd (omega arith)

module _ {C : Type 0} where
  -- What `Append` promises for the bytes `p` at time `now`.
  pub record AppendSpec (n : ℕ) (p : List ℕ) (now : ℕ) (q : Queue C) (a : Appended C) : Type 0 where
    pub inv : Inv n a.queue
    pub options : a.queue.options ≡ q.options
    pub written : stream a.queue ≡ stream q ++ (if a.ok then p else [])
    pub need : a.need_signal ≡ (not (is_nonempty q.ready_list) && is_nonempty a.queue.ready_list)
    pub first :
        a.first_data ≡ true
        → (contents a.queue.current ≡ p) × (a.queue.current.first_write_time ≡ now)

  counted-Inv : (n cb : ℕ) (q : Queue C) → Inv n q → Inv n (count_appended cb q)
  unfolding count_appended
  counted-Inv n cb q v = ground arith

  dropped-Spec :
      (n : ℕ) (p : List ℕ) (now : ℕ) (q r : Queue C)
      → Front q r
      → Inv n r
      → AppendSpec n p now q (dropped (length p) r)
  unfolding count_dropped
  dropped-Spec n p now q r f v = record {
    inv = ground arith;
    options = f.options;
    written = rw (f.ready_list, f.current) (sym (append-nil (stream q)));
    need = ground (arith, ap is_nonempty f.ready_list);
    first = λ h. cc;
  }

  -- The branches that put the bytes in the current buffer, whatever became of a replacement.
  kept-Spec :
      (m n : ℕ) (p : List ℕ) (now : ℕ) (q r : Queue C)
      → can_append q.current (length p) ≡ true
      → Inv m q
      → Front (put_current p now q) r
      → Inv n r
      → AppendSpec n p now q (record {
        ok = true;
        need_signal = false;
        first_data = q.current.size == 0;
        queue = count_appended (length p) r;
      })
  unfolding count_appended
  kept-Spec m n p now q r room u f v =
      let front = put-Front p now q in
      record {
        inv = ground (arith, counted-Inv n (length p) r v);
        options = f.options ∙ front.1;
        written = rw (f.ready_list, f.current) (put-stream m p now q room u);
        need = ground (arith, ap is_nonempty (f.ready_list ∙ front.0));
        first = λ h. rw f.current (put-first m p now q room u h);
      }

  roll_over-Spec :
      (n : ℕ) (p : List ℕ) (now : ℕ) (b : DataBuffer) (fresh : Bool) (q : Queue C)
      → Fits b
      → can_append (prepared b) (length p) ≡ true
      → length p ≢ 0
      → Inv (suc n) q
      → AppendSpec n p now q (roll_over p now b fresh q)
  unfolding roll_over count_appended
  roll_over-Spec n p now b fresh q f room h v =
      let start = set_first_write_time now (prepared b) in
      let start_fits = set_time-Fits now (prepared b) (prepared-Fits b f) in
      let start_room = can_append-set_time now (prepared b) (length p) room in
      let q1 : Queue C = record q {
        current = append start p;
        current_first_write_time = now;
        has_current_data_flag = true;
      } in
      let v1 = filled-Inv (suc n) p start q now start_fits start_room h (rolled_time now b p) v in
      let g = grow-Front fresh q1 in
      let e =
        enqueue-Enqueued n q.current (maybe_grow_adaptive fresh q1) v.current_fits
          (grow-Inv (suc n) fresh q1 v1) in
      let only : contents (append start p) ≡ p =
        contents-append start p start_fits start_room
        ∙ ap (λ (l : List ℕ). l ++ p) (contents_of_empty start (start_empty now b)) in
      record {
        inv = counted-Inv n (length p) _ e.inv;
        options = e.options ∙ g.options;
        written = rw (e.queued, e.current, g.ready_list, g.current, only);
        need = e.need ∙ rw g.ready_list;
        first = λ _. (
          ap contents (e.current ∙ g.current) ∙ only,
          ap (λ (x : DataBuffer). x.first_write_time) (e.current ∙ g.current)
              ∙ sym (rolled_time now b p),
        );
      }

  AppendSpec-Front :
      (n : ℕ) (p : List ℕ) (now : ℕ) (q r : Queue C) (a : Appended C)
      → Front q r
      → AppendSpec n p now r a
      → AppendSpec n p now q a
  AppendSpec-Front n p now q r a f s = record {
    inv = s.inv;
    options = s.options ∙ f.options;
    written = s.written ∙ rw (f.ready_list, f.current);
    need = s.need ∙ rw f.ready_list;
    first = s.first;
  }

  append_with-Spec :
      (n : ℕ) (p : List ℕ) (now : ℕ) (q : Queue C) (t : Option DataBuffer × Bool × Queue C)
      → length p ≢ 0
      → Acquired n q t
      → AppendSpec n p now q (append_with p now t)
  unfolding append_with
  append_with-Spec n p now q (none, fresh, r) h (f, v) = dropped-Spec n p now q r f v
  append_with-Spec n p now q (some b, fresh, r) h (f, v, fits) =
      AppendSpec-Front n p now q r _ f (elim (Bool-cases (can_append r.current (length p))) [
        | inl here ↦ rw here (
            kept-Spec (suc n) n p now r (release_buffer b (put_current p now r)) here v
              (release-Front b (put_current p now r))
              (release-Inv n b (put_current p now r) fits (put-Inv (suc n) p now r here h v)))
        | inr over ↦ rw over (elim (Bool-cases (can_append (prepared b) (length p))) [
          | inl room ↦ rw room (roll_over-Spec n p now b fresh r fits room h v)
          | inr small ↦ rw small (
              dropped-Spec n p now r (release_buffer (prepared b) r) (release-Front (prepared b) r)
                (release-Inv n (prepared b) r (prepared-Fits b fits) v))
        ])
      ])

  -- `Append` keeps the queue well-formed. It returns true exactly where the bytes are added, all of
  -- them and at the end of the stream; else the stream is as it was. It asks for the writer to be
  -- woken exactly where the ready list stops being empty, and reports first data only where the
  -- current buffer then holds these bytes alone, with the time of this write.
  pub append-Spec :
      (n : ℕ) (p : List ℕ) (now : ℕ) (q : Queue C)
      → Sound q.options
      → Inv n q
      → AppendSpec n p now q (append_queue p now q)
  unfolding append_queue
  append-Spec n p now q s v = elim (Bool-cases (length p == 0)) [
    | inl nothing ↦ rw nothing (record {
      inv = v;
      options = refl;
      written = rw (nil_of_length p ((==_iff _ _).0 nothing)) (sym (append-nil (stream q)));
      need = ground arith;
      first = λ h. cc;
    })
    | inr bytes ↦ rw bytes (elim (Bool-cases (can_append q.current (length p))) [
      | inl here ↦ rw here (
          kept-Spec n n p now q (put_current p now q) here v (Front-refl (put_current p now q))
            (put-Inv n p now q here (λ e. ground arith) v))
      | inr over ↦
          rw over
            (append_with-Spec n p now q (acquire q) (λ e. ground arith) (acquire-Acquired n q s v))
    ])
  ]
