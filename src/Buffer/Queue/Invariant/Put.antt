-- ===== src/Buffer/Queue/Invariant/Put.antt =====
-- The branch of `Append` for data that fits in the current buffer.
use logme.Prelude.{
  ℕ, ◌+◌, ◌≤◌, ◌≡◌, ◌≢◌, refl, sym, ap, subst, ◌∙◌, Bool, true, not, ◌==◌, ==_iff, List, ◌++◌,
  length, arith, Bool-cases, inl, inr, append_assoc, leb→le,
}
use logme.Buffer.Data.{
  DataBuffer, Fits, contents, can_append, append, set_first_write_time, set_seen_on_soft_flush,
}
use logme.Buffer.Data.Laws.{
  append-Fits, contents-append, contents_of_empty, can_append_iff, reset-Fits,
}
use logme.Buffer.Queue.State.{Queue}
use logme.Buffer.Queue.Ops.{prepared, put_current}
use logme.Buffer.Queue.Stream.{bytes_of, stream}
use logme.Buffer.Queue.Invariant.{Inv}

pub size-append :
    (b : DataBuffer) (p : List ℕ)
    → Fits b
    → can_append b (length p) ≡ true
    → (append b p).size ≡ b.size + length p
unfolding append
size-append b p f h =
    let room : b.size + length p ≤ b.capacity =
      leb→le _ _ (sym (can_append_iff b (length p) f) ∙ h) in
    omega (arith, f.machine)

pub set_time-Fits : (t : ℕ) (b : DataBuffer) → Fits b → Fits (set_first_write_time t b)
unfolding set_first_write_time
set_time-Fits t b f = ground arith

pub contents-set_time : (t : ℕ) (b : DataBuffer) → contents (set_first_write_time t b) ≡ contents b
unfolding contents set_first_write_time
contents-set_time t b = refl

pub can_append-set_time :
    (t : ℕ) (b : DataBuffer) (cb : ℕ)
    → can_append b cb ≡ true
    → can_append (set_first_write_time t b) cb ≡ true
unfolding can_append set_first_write_time
can_append-set_time t b cb h = h

pub prepared-Fits : (b : DataBuffer) → Fits b → Fits (prepared b)
unfolding set_seen_on_soft_flush
prepared-Fits b f = let g = reset-Fits b f in ground arith

module _ {C : Type 0} where
  -- Another buffer takes the place of the current one.
  pub replace_current-Inv :
      (n : ℕ) (q : Queue C) (b : DataBuffer) (flag : Bool)
      → Fits b
      → flag ≡ not (b.size == 0)
      → Inv n q
      → Inv n (record q {
        current = b;
        current_first_write_time = b.first_write_time;
        has_current_data_flag = flag;
      })
  replace_current-Inv n q b flag f h v = record {
    used = v.used;
    total = v.total;
    capped = v.capped;
    current_fits = f;
    free_fits = v.free_fits;
    ready_fits = v.ready_fits;
    ready_filled = v.ready_filled;
    flag = h;
    time = refl;
    signal = v.signal;
  }

  -- The current buffer after an append that fits in it.
  pub filled-Inv :
      (n : ℕ) (p : List ℕ) (b : DataBuffer) (q : Queue C) (now : ℕ)
      → Fits b
      → can_append b (length p) ≡ true
      → length p ≢ 0
      → now ≡ (append b p).first_write_time
      → Inv n q
      → Inv n (record q {
        current = append b p;
        current_first_write_time = now;
        has_current_data_flag = true;
      })
  filled-Inv n p b q now f room h e v =
      let sized = size-append b p f room in
      subst
        (λ (t : ℕ). Inv n (record q {
          current = append b p;
          current_first_write_time = t;
          has_current_data_flag = true;
        }))
        (sym e)
        (replace_current-Inv n q (append b p) true (append-Fits b p f room)
          (rw sized (ground arith)) v)

  pub put-Inv :
      (n : ℕ) (p : List ℕ) (now : ℕ) (q : Queue C)
      → can_append q.current (length p) ≡ true
      → length p ≢ 0
      → Inv n q
      → Inv n (put_current p now q)
  unfolding put_current append set_first_write_time can_append
  put-Inv n p now q room h v = elim (Bool-cases (q.current.size == 0)) [
    | inl start ↦ rw start (
        filled-Inv n p (set_first_write_time now q.current) q now
          (set_time-Fits now q.current v.current_fits) (unfold_room room) h (started now q.current)
          v)
    | inr more ↦ rw more (
        subst
          (λ (f : Bool).
            Inv n (record q { current = append q.current p; has_current_data_flag = f }))
          (sym (v.flag ∙ ground arith))
          (filled-Inv n p q.current q q.current_first_write_time v.current_fits room h
            (v.time ∙ kept q.current) v))
  ]
    where
      unfold_room :
          can_append q.current (length p) ≡ true
          → can_append (set_first_write_time now q.current) (length p) ≡ true
      unfold_room r = r

      started :
          (t : ℕ) (b : DataBuffer) → t ≡ (append (set_first_write_time t b) p).first_write_time
      started t b = refl

      kept : (b : DataBuffer) → b.first_write_time ≡ (append b p).first_write_time
      kept b = refl

  put-contents :
      (n : ℕ) (p : List ℕ) (now : ℕ) (q : Queue C)
      → can_append q.current (length p) ≡ true
      → Inv n q
      → contents (put_current p now q).current ≡ contents q.current ++ p
  unfolding put_current
  put-contents n p now q room v = elim (Bool-cases (q.current.size == 0)) [
    | inl start ↦
        let b = set_first_write_time now q.current in
        rw start (
          contents-append b p (set_time-Fits now q.current v.current_fits)
            (can_append-set_time now q.current (length p) room)
          ∙ ap (λ (l : List ℕ). l ++ p) (contents-set_time now q.current))
    | inr more ↦ rw more (contents-append q.current p v.current_fits room)
  ]

  put-time :
      (p : List ℕ) (now : ℕ) (q : Queue C)
      → q.current.size ≡ 0
      → (put_current p now q).current.first_write_time ≡ now
  unfolding put_current append set_first_write_time
  put-time p now q h = ground arith

  pub put-Front :
      (p : List ℕ) (now : ℕ) (q : Queue C)
      → ((put_current p now q).ready_list ≡ q.ready_list)
        × ((put_current p now q).options ≡ q.options)
  unfolding put_current
  put-Front p now q = ground arith

  pub put-first :
      (n : ℕ) (p : List ℕ) (now : ℕ) (q : Queue C)
      → can_append q.current (length p) ≡ true
      → Inv n q
      → (q.current.size == 0) ≡ true
      → (contents (put_current p now q).current ≡ p)
        × ((put_current p now q).current.first_write_time ≡ now)
  put-first n p now q room v h =
      let h' : q.current.size ≡ 0 = (==_iff _ _).0 h in
      (
        put-contents n p now q room v
            ∙ ap (λ (l : List ℕ). l ++ p) (contents_of_empty q.current h'),
        put-time p now q h',
      )

  pub put-stream :
      (n : ℕ) (p : List ℕ) (now : ℕ) (q : Queue C)
      → can_append q.current (length p) ≡ true
      → Inv n q
      → stream (put_current p now q) ≡ stream q ++ p
  put-stream n p now q room v =
      rw ((put-Front p now q).0, put-contents n p now q room v)
        (sym (append_assoc (bytes_of q.ready_list) (contents q.current) p))
