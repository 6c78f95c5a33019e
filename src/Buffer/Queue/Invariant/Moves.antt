-- ===== src/Buffer/Queue/Invariant/Moves.antt =====
-- Acquiring a replacement, and handing a full buffer to the ready list.
use logme.Prelude.{
  ℕ, suc, ◌≡◌, ◌≢◌, refl, sym, ap, subst, ◌∙◌, Bool, true, false, not, ◌==◌, ◌&&◌, ==_iff, Option,
  none, some, List, [], ◌∷◌, ◌++◌, All-append, length-append, arith, Bool-cases, inl, inr,
  append-nil,
}
use logme.Buffer.Data.{DataBuffer, Fits, contents}
use logme.Buffer.Data.Laws.{contents_of_empty}
use logme.Buffer.Queue.State.{Queue, count_enqueued, count_signal}
use logme.Buffer.Queue.Pool.{
  try_take_free_buffer, try_create_buffer, release_buffer, maybe_grow_adaptive,
}
use logme.Buffer.Queue.Ops.{after_create, after_free, acquire, signal, enqueue_ready}
use logme.Buffer.Queue.Stream.{bytes_of, bytes_of-snoc}
use logme.Buffer.Queue.Invariant.Frames.{Front, Front-trans, Kept-Front, decay-Decayed}
use logme.Buffer.Queue.Invariant.PoolKeeps.{
  Took, try_take_free-Took, try_create-Took, Took-Front, release-Inv,
}
use logme.Buffer.Queue.Invariant.{Inv, Sound, is_nonempty}

snoc-nonempty : (bs : List DataBuffer) (b : DataBuffer) → is_nonempty (bs ++ b ∷ []) ≡ true
snoc-nonempty [] b = refl
snoc-nonempty (x ∷ bs) b = refl

module _ {C : Type 0} where
  abbrev pub Acquired : ℕ → Queue C → Option DataBuffer × Bool × Queue C → Type 0
  Acquired n q (o, fresh, r) = Took n q (o, r)

  after_create-Acquired :
      (n : ℕ) (q : Queue C) (t : Option DataBuffer × Queue C)
      → Took n q t
      → Acquired n q (after_create t)
  unfolding after_create
  after_create-Acquired n q (none, r) t = t
  after_create-Acquired n q (some b, r) t = t

  after_free-Acquired :
      (n : ℕ) (q : Queue C) (t : Option DataBuffer × Queue C)
      → Sound q.options
      → Took n q t
      → Acquired n q (after_free t)
  unfolding after_free
  after_free-Acquired n q (some b, r) s t = t
  after_free-Acquired n q (none, r) s (f, v) =
      let made =
        after_create-Acquired n r (try_create_buffer r)
          (try_create-Took n r (subst Sound (sym f.options) s) v) in
      Took-Front n q r _ f made

  pub acquire-Acquired :
      (n : ℕ) (q : Queue C) → Sound q.options → Inv n q → Acquired n q (acquire q)
  unfolding acquire
  acquire-Acquired n q s v =
      after_free-Acquired n q (try_take_free_buffer q) s (try_take_free-Took n q v)

  pub grow-Inv :
      (n : ℕ) (fresh : Bool) (q : Queue C) → Inv n q → Inv n (maybe_grow_adaptive fresh q)
  unfolding maybe_grow_adaptive
  grow-Inv n false q v = v
  grow-Inv n true q v = ground arith

  pub grow-Front : (fresh : Bool) (q : Queue C) → Front q (maybe_grow_adaptive fresh q)
  unfolding maybe_grow_adaptive
  grow-Front false q = ground arith
  grow-Front true q = ground arith

  pub release-Front : (b : DataBuffer) (q : Queue C) → Front q (release_buffer b q)
  unfolding release_buffer
  release-Front b q = Front-trans q _ _ (ground arith) (Kept-Front _ _ (decay-Decayed _).kept)

  -- A held buffer goes to the end of the ready list. The writer is to be woken where that list was
  -- empty before.
  pub record Enqueued (n : ℕ) (b : DataBuffer) (q : Queue C) (t : Bool × Queue C) : Type 0 where
    pub inv : Inv n t.1
    pub options : t.1.options ≡ q.options
    pub current : t.1.current ≡ q.current
    pub queued : bytes_of t.1.ready_list ≡ bytes_of q.ready_list ++ contents b
    pub need : t.0 ≡ (not (is_nonempty q.ready_list) && is_nonempty t.1.ready_list)

  push-Inv :
      (n : ℕ) (b : DataBuffer) (q : Queue C)
      → Fits b
      → b.size ≢ 0
      → Inv (suc n) q
      → Inv n (count_enqueued (record q { ready_list = q.ready_list ++ b ∷ []; signaled = true }))
  unfolding count_enqueued
  push-Inv n b q f h v = record {
    used = v.used ∙ omega (arith, length-append q.ready_list (b ∷ []));
    total = v.total ∙ omega (arith, length-append q.ready_list (b ∷ []));
    capped = λ k. omega (arith, v.capped k, length-append q.ready_list (b ∷ []));
    current_fits = v.current_fits;
    free_fits = v.free_fits;
    ready_fits = All-append Fits q.ready_list (b ∷ []) v.ready_fits (f, tt);
    ready_filled =
        All-append (λ (x : DataBuffer). x.size ≢ 0) q.ready_list (b ∷ []) v.ready_filled (h, tt);
    flag = v.flag;
    time = v.time;
    signal = sym (snoc-nonempty q.ready_list b);
  }

  signal-Enqueued :
      (n : ℕ) (b : DataBuffer) (q : Queue C)
      → Fits b
      → b.size ≢ 0
      → Inv (suc n) q
      → Enqueued n b q (signal (count_enqueued (record q { ready_list = q.ready_list ++ b ∷ [] })))
  unfolding signal count_enqueued count_signal
  signal-Enqueued n b q f h v = elim (Bool-cases q.signaled) [
    | inl up ↦ rw up (record {
      inv = ground (arith, push-Inv n b q f h v);
      options = refl;
      current = refl;
      queued = bytes_of-snoc q.ready_list b;
      need = ground (arith, v.signal, snoc-nonempty q.ready_list b);
    })
    | inr down ↦ rw down (record {
      inv = ground (arith, push-Inv n b q f h v);
      options = refl;
      current = refl;
      queued = bytes_of-snoc q.ready_list b;
      need = ground (arith, v.signal, snoc-nonempty q.ready_list b);
    })
  ]

  pub enqueue-Enqueued :
      (n : ℕ) (b : DataBuffer) (q : Queue C)
      → Fits b
      → Inv (suc n) q
      → Enqueued n b q (enqueue_ready b q)
  unfolding enqueue_ready
  enqueue-Enqueued n b q f v = elim (Bool-cases (b.size == 0)) [
    | inl zero_size ↦
        let k = release-Front b q in
        rw zero_size (record {
          inv = release-Inv n b q f v;
          options = k.options;
          current = k.current;
          queued =
              ap bytes_of k.ready_list
              ∙ sym (
                  ap (◌++◌ (bytes_of q.ready_list)) (contents_of_empty b ((==_iff _ _).0 zero_size))
                  ∙ append-nil (bytes_of q.ready_list));
          need = rw k.ready_list (ground arith);
        })
    | inr filled ↦ rw filled (signal-Enqueued n b q f (λ e. ground arith) v)
  ]
