-- ===== src/Buffer/Queue/Supply.antt =====
-- When `Append` cannot fail.
use mathlib.Core.Option
use logme.Prelude.{
  ℕ, suc, ◌≤◌, ◌≡◌, refl, sym, ap, subst, ◌∙◌, Bool, true, false, Option, none, some, List, [], ◌∷◌,
  All, length, arith,
}
use logme.Buffer.Data.{DataBuffer, Fits, can_append, reset, new_buffer, set_seen_on_soft_flush}
use logme.Buffer.Queue.State.{Queue, Options}
use logme.Buffer.Queue.Pool.{
  take_front, try_take_free_buffer, take_cached, try_take_cached_buffer, is_full, allocate, admit,
  create_from, try_create_buffer,
}
use logme.Buffer.Queue.Ops.{
  after_create, after_free, acquire, prepared, append_with, append_queue, roll_over,
}
use logme.Buffer.Queue.Invariant.{Inv, Sound}
use logme.Buffer.Queue.Invariant.Moves.{Acquired, acquire-Acquired}

map-reset-capacity :
    (o : Option DataBuffer) (n : ℕ) (b : DataBuffer)
    → ((x : DataBuffer) → o ≡ some x → x.capacity ≡ n)
    → Option.map reset o ≡ some b
    → b.capacity ≡ n
unfolding reset
map-reset-capacity none n b h e = cc
map-reset-capacity (some x) n b h e = ground (arith, h x refl)

prepared-room :
    (b : DataBuffer) (cb : ℕ) → Fits b → cb ≤ b.capacity → can_append (prepared b) cb ≡ true
unfolding can_append reset set_seen_on_soft_flush
prepared-room b cb f h = ground arith

module _ {C : Type 0} where
  -- The cache hands over buffers of the size that it is asked for.
  abbrev pub SizedCache : Options C → Type 0
  SizedCache o =
      (take : C → ℕ → Option DataBuffer × C)
      → o.take_cached_buffer ≡ some take
      → (c : C) (n : ℕ) (b : DataBuffer) → (take c n).0 ≡ some b
      → b.capacity ≡ n

  -- A replacement was found, of the size of the queue's buffers.
  abbrev Found : ℕ → Option DataBuffer × Bool × Queue C → Type 0
  Found n t = (b : DataBuffer) × (t.0 ≡ some b) × (b.capacity ≡ n)

  not_full : (q : Queue C) → q.options.max_total_buffers ≡ 0 → is_full q ≡ false
  unfolding is_full
  not_full q m = ground arith

  create_from-Found :
      (n : ℕ) (o : Option DataBuffer) (q : Queue C)
      → q.options.max_total_buffers ≡ 0
      → q.options.buffer_size ≡ n
      → ((b : DataBuffer) → o ≡ some b → b.capacity ≡ n)
      → Found n (after_create (create_from (o, q)))
  unfolding create_from admit allocate after_create new_buffer
  create_from-Found n (some b) q m z h = rw (not_full q m) (b, refl, h b refl)
  create_from-Found n none q m z h =
      rw (not_full (record q { next_address = suc q.next_address }) m)
        (new_buffer q.next_address q.options.buffer_size q.tracker, refl, z)

  try_create-Found :
      (q : Queue C)
      → q.options.max_total_buffers ≡ 0
      → SizedCache q.options
      → Found q.options.buffer_size (after_create (try_create_buffer q))
  unfolding try_create_buffer try_take_cached_buffer
  try_create-Found q m x = rw (not_full q m) (
      create_from-Found q.options.buffer_size
        (take_cached q.options.take_cached_buffer q.options.buffer_size q.cache).0 _ m refl
        (cached-SizedCache q.options.take_cached_buffer q.options.buffer_size q.cache x))
    where
      cached-SizedCache :
          (o : Option (C → ℕ → Option DataBuffer × C)) (n : ℕ) (c : C)
          → ((take : C → ℕ → Option DataBuffer × C)
              → o ≡ some take
              → (c : C) (n : ℕ) (b : DataBuffer) → (take c n).0 ≡ some b
              → b.capacity ≡ n)
          → (b : DataBuffer) → (take_cached o n c).0 ≡ some b
          → b.capacity ≡ n
      cached-SizedCache none n c h b e = cc
      cached-SizedCache (some take) n c h b e =
          map-reset-capacity (take c n).0 n b (h take refl c n) e

  take_front-Found :
      (q : Queue C) (bs : List DataBuffer)
      → q.options.max_total_buffers ≡ 0
      → SizedCache q.options
      → All (λ (b : DataBuffer). b.capacity ≡ q.options.buffer_size) bs
      → Found q.options.buffer_size (after_free (take_front q bs))
  unfolding take_front after_free
  take_front-Found q [] m x h = try_create-Found q m x
  take_front-Found q (b ∷ bs) m x h = (b, refl, h.0)

  acquire-Found :
      (q : Queue C)
      → q.options.max_total_buffers ≡ 0
      → SizedCache q.options
      → All (λ (b : DataBuffer). b.capacity ≡ q.options.buffer_size) q.free_list
      → Found q.options.buffer_size (acquire q)
  unfolding acquire try_take_free_buffer
  acquire-Found q m x h = take_front-Found q q.free_list m x h

  append_with-Found :
      (n : ℕ) (p : List ℕ) (now : ℕ) (q : Queue C) (size : ℕ)
      (t : Option DataBuffer × Bool × Queue C)
      → Acquired n q t
      → Found size t
      → length p ≤ size
      → (append_with p now t).ok ≡ true
  unfolding append_with roll_over
  append_with-Found n p now q size (none, fresh, r) a (b, e, _) h = cc
  append_with-Found n p now q size (some b, fresh, r) (f, v, fits) (c, e, same) h =
      let same_b : b.capacity ≡ size =
        ap (λ (x : DataBuffer). x.capacity) (Option.some-injective b c e) ∙ same in
      let room = prepared-room b (length p) fits (subst (λ k. length p ≤ k) (sym same_b) h) in
      ground arith

  -- A queue without a limit on its buffers accepts any write of at most the size of a buffer.
  pub append-accepts :
      (n : ℕ) (p : List ℕ) (now : ℕ) (q : Queue C)
      → Sound q.options
      → Inv n q
      → q.options.max_total_buffers ≡ 0
      → SizedCache q.options
      → All (λ (b : DataBuffer). b.capacity ≡ q.options.buffer_size) q.free_list
      → length p ≤ q.options.buffer_size
      → (append_queue p now q).ok ≡ true
  unfolding append_queue
  append-accepts n p now q s v m x h k =
      let w =
        append_with-Found n p now q q.options.buffer_size (acquire q) (acquire-Acquired n q s v)
          (acquire-Found q m x h) k in
      ground arith
