-- ===== src/Buffer/Queue/Invariant/PoolKeeps.antt =====
-- Taking, creating and releasing a buffer keep the well-formedness of the queue.
use mathlib.Core.Option
use logme.Prelude.{
  ℕ, suc, ◌+◌, ◌%◌, ◌≤◌, ◌≡◌, refl, sym, ap, subst, ◌∙◌, Bool, true, false, Option, none, some,
  List, [], ◌∷◌, All, All-append, length, length-append, u64_mod, arith, if◌then◌else◌, Bool-cases,
  inl, inr,
}
use logme.Buffer.Data.{DataBuffer, Fits, reset}
use logme.Buffer.Data.Laws.{reset-Fits, new_buffer-Fits}
use logme.Buffer.Queue.State.{Queue, count_allocated}
use logme.Buffer.Queue.Pool.{
  take_front, try_take_free_buffer, take_cached, try_take_cached_buffer, is_full, grown, allocate,
  admit, create_from, try_create_buffer, release_buffer, decay_free_locked,
}
use logme.Buffer.Queue.Invariant.Frames.{Kept, Front, Front-trans, decay-Decayed}
use logme.Buffer.Queue.Invariant.{Inv, Sound}

map-reset-Fits :
    (o : Option DataBuffer) (b : DataBuffer)
    → ((x : DataBuffer) → o ≡ some x → Fits x)
    → Option.map reset o ≡ some b
    → Fits b
map-reset-Fits none b h e = cc
map-reset-Fits (some x) b h e =
    subst Fits (Option.some-injective (reset x) b e) (reset-Fits x (h x refl))

module _ {C : Type 0} where
  -- Enough of a queue is unchanged for its invariant, the free list and the totals apart.
  pub Kept-Inv :
      (n : ℕ) (q r : Queue C)
      → Kept q r
      → Inv n q
      → r.total_buffers ≡ (1 + length r.ready_list + n + length r.free_list) % u64_mod
      → length r.free_list ≤ length q.free_list
      → All Fits r.free_list
      → Inv n r
  Kept-Inv n q r k v t l f = ground arith

  pub decay-Inv : (n : ℕ) (q : Queue C) → Inv n q → Inv n (decay_free_locked q)
  decay-Inv n q v =
      let d = decay-Decayed q in
      Kept-Inv n q (decay_free_locked q) d.kept v
        (d.total (1 + length (decay_free_locked q).ready_list + n)
          (v.total ∙ ground (arith, d.kept.ready_list)))
        (omega (arith, d.exact)) (d.all_fit v.free_fits)

  pub release-Inv :
      (n : ℕ) (b : DataBuffer) (q : Queue C) → Fits b → Inv (suc n) q → Inv n (release_buffer b q)
  unfolding release_buffer
  release-Inv n b q f v = decay-Inv n _ (record {
    used = omega (arith, v.used);
    total = omega (arith, v.total, length-append q.free_list (reset b ∷ []));
    capped = λ h. omega (arith, v.capped h, length-append q.free_list (reset b ∷ []));
    current_fits = v.current_fits;
    free_fits = All-append Fits q.free_list _ v.free_fits (reset-Fits b f, tt);
    ready_fits = v.ready_fits;
    ready_filled = v.ready_filled;
    flag = v.flag;
    time = v.time;
    signal = v.signal;
  })

  -- A buffer that is taken is held by the operation that asked for it.
  abbrev pub Took : ℕ → Queue C → Option DataBuffer × Queue C → Type 0
  Took n q (none, r) = Front q r × Inv n r
  Took n q (some b, r) = Front q r × Inv (suc n) r × Fits b

  take_front-Took :
      (n : ℕ) (q : Queue C) (bs : List DataBuffer)
      → q.free_list ≡ bs
      → Inv n q
      → Took n q (take_front q bs)
  unfolding take_front
  take_front-Took n q [] e v = (ground arith, v)
  take_front-Took n q (b ∷ bs) e v =
      let e' : length q.free_list ≡ suc (length bs) = ap length e in
      let fits : All Fits (b ∷ bs) = subst (All Fits) e v.free_fits in
      (
        ground arith,
        record {
          used = omega (arith, v.used);
          total = v.total ∙ omega (arith, e');
          capped = λ h. omega (arith, v.capped h);
          current_fits = v.current_fits;
          free_fits = fits.1;
          ready_fits = v.ready_fits;
          ready_filled = v.ready_filled;
          flag = v.flag;
          time = v.time;
          signal = v.signal;
        },
        fits.0,
      )

  pub try_take_free-Took : (n : ℕ) (q : Queue C) → Inv n q → Took n q (try_take_free_buffer q)
  unfolding try_take_free_buffer
  try_take_free-Took n q v = take_front-Took n q q.free_list refl v

  -- The cache changes nothing but itself.
  abbrev Handed : Queue C → Option DataBuffer × Queue C → Type 0
  Handed q (o, r) =
      ((c : C) × (r ≡ record q { cache = c })) × ((b : DataBuffer) → o ≡ some b → Fits b)

  pub take_cached-Fits :
      (o : Option (C → ℕ → Option DataBuffer × C)) (n : ℕ) (c : C) (b : DataBuffer)
      → ((take : C → ℕ → Option DataBuffer × C)
          → o ≡ some take
          → (c : C) (n : ℕ) (b : DataBuffer) → (take c n).0 ≡ some b
          → Fits b)
      → (take_cached o n c).0 ≡ some b
      → Fits b
  unfolding take_cached
  take_cached-Fits none n c b s h = cc
  take_cached-Fits (some take) n c b s h = map-reset-Fits (take c n).0 b (λ x. s take refl c n x) h

  try_take_cached-Handed : (q : Queue C) → Sound q.options → Handed q (try_take_cached_buffer q)
  unfolding try_take_cached_buffer
  try_take_cached-Handed q s = (
    ((take_cached q.options.take_cached_buffer q.options.buffer_size q.cache).1, refl),
    λ b. take_cached-Fits q.options.take_cached_buffer q.options.buffer_size q.cache b s.whole,
  )

  grown-Inv :
      (n : ℕ) (allocated : Bool) (q : Queue C)
      → Sound q.options
      → Inv n q
      → is_full q ≡ false
      → Inv (suc n) (if allocated then count_allocated (grown q) else grown q)
  unfolding is_full count_allocated
  grown-Inv n allocated q s v h = ground (arith, s.max_total)

  admit-Took :
      (n : ℕ) (allocated : Bool) (b : DataBuffer) (q : Queue C)
      → Sound q.options
      → Fits b
      → Inv n q
      → Took n q (admit allocated b q)
  unfolding admit count_allocated
  admit-Took n allocated b q s f v = elim (Bool-cases (is_full q)) [
    | inl full ↦ rw full (ground arith, v)
    | inr room ↦ rw room (ground arith, grown-Inv n allocated q s v room, f)
  ]

  pub Took-Front :
      (n : ℕ) (q r : Queue C) (t : Option DataBuffer × Queue C)
      → Front q r
      → Took n r t
      → Took n q t
  Took-Front n q r (none, s) h t = (Front-trans q r s h t.0, t.1)
  Took-Front n q r (some b, s) h t = (Front-trans q r s h t.0, t.1, t.2)

  -- From here on the cache of `r` may differ from that of `q`.
  cached-Inv : (n : ℕ) (q : Queue C) (c : C) → Inv n q → Inv n (record q { cache = c })
  cached-Inv n q c v = ground arith

  create_from-Took :
      (n : ℕ) (q : Queue C) (o : Option DataBuffer) (c : C)
      → Sound q.options
      → ((b : DataBuffer) → o ≡ some b → Fits b)
      → Inv n q
      → Took n q (create_from (o, record q { cache = c }))
  unfolding create_from allocate
  create_from-Took n q (some b) c s f v =
      Took-Front n q (record q { cache = c }) _ (ground arith)
        (admit-Took n false b (record q { cache = c }) s (f b refl) (cached-Inv n q c v))
  create_from-Took n q none c s f v =
      let r : Queue C = record q { cache = c; next_address = suc q.next_address } in
      Took-Front n q r _ (ground arith) (
        admit-Took n true _ r s
          (new_buffer-Fits q.next_address q.options.buffer_size q.tracker s.buffer_size)
          (ground arith))

  create_after-Took :
      (n : ℕ) (q : Queue C) (t : Option DataBuffer × Queue C)
      → Sound q.options
      → Handed q t
      → Inv n q
      → Took n q (create_from t)
  create_after-Took n q (o, r) s k v =
      subst (λ (x : Queue C). Took n q (create_from (o, x))) (sym k.0.1)
        (create_from-Took n q o k.0.0 s k.1 v)

  pub try_create-Took :
      (n : ℕ) (q : Queue C) → Sound q.options → Inv n q → Took n q (try_create_buffer q)
  unfolding try_create_buffer
  try_create-Took n q s v = elim (Bool-cases (is_full q)) [
    | inl full ↦ rw full (ground arith, v)
    | inr room ↦
        rw room (create_after-Took n q (try_take_cached_buffer q) s (try_take_cached-Handed q s) v)
  ]
