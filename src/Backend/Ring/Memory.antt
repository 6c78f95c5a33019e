-- ===== src/Backend/Ring/Memory.antt =====
-- The memory that a ring charges to its tracker.
use logme.Prelude.{
  ℕ, ◌+◌, ◌%◌, ◌<◌, ◌≡◌, ◌==◌, Option, List, [], ◌∷◌, ◌++◌, length, ltb, add64, sub64, u64_mod,
  Bool-cases, inl, inr, arith,
}
use logme.Backend.Ring.{
  RingBufferBackend, given_bytes, pop_excess, push_item, append_ring, release_all, clear_ring,
  apply_config,
}

module _ (capacity : List ℕ → ℕ) (small : (s : List ℕ) → capacity s < u64_mod) where
  abbrev pub total_capacity : List (List ℕ) → ℕ
  total_capacity [] = 0
  total_capacity (s ∷ ring) = capacity s + total_capacity ring

  -- The tracker shows the capacities of the strings in the ring, mod 2 ^ 64.
  abbrev pub Tracked : RingBufferBackend → Type 0
  Tracked b = b.memory_usage ≡ total_capacity b.ring % u64_mod

  total_capacity-append :
      (xs ys : List (List ℕ)) → total_capacity (xs ++ ys) ≡ total_capacity xs + total_capacity ys
  total_capacity-append [] ys = omega arith
  total_capacity-append (x ∷ xs) ys = omega (arith, total_capacity-append xs ys)

  pop_excess-total :
      (n : ℕ) (ring : List (List ℕ)) (usage : ℕ)
      → usage ≡ total_capacity ring % u64_mod
      → (pop_excess capacity n ring usage).1
        ≡ total_capacity (pop_excess capacity n ring usage).0 % u64_mod
  unfolding pop_excess
  pop_excess-total n [] usage h = h
  pop_excess-total n (s ∷ ring) usage h = elim (Bool-cases (ltb n (length (s ∷ ring)))) [
    | inl over ↦
        rw over (pop_excess-total n ring (sub64 usage (capacity s)) (omega (arith, h, small s)))
    | inr fits ↦ rw fits h
  ]

  push_item-Tracked :
      (s : List ℕ) (b : RingBufferBackend) → Tracked b → Tracked (push_item capacity s b)
  unfolding push_item
  push_item-Tracked s b h =
      pop_excess-total b.max_items (b.ring ++ s ∷ []) (add64 b.memory_usage (capacity s))
        (omega (arith, h, total_capacity-append b.ring (s ∷ [])))

  append_ring-Tracked :
      (str : List ℕ) (nc : Option ℕ) (b : RingBufferBackend)
      → Tracked b
      → Tracked (append_ring capacity str nc b)
  unfolding append_ring
  append_ring-Tracked str nc b h = elim (Bool-cases (length (given_bytes str nc) == 0)) [
    | inl nothing ↦ rw (append_ring, nothing) h
    | inr some_text ↦ rw (append_ring, some_text) (push_item-Tracked (given_bytes str nc) b h)
  ]

  release_all-total :
      (ring : List (List ℕ)) (usage : ℕ)
      → usage ≡ total_capacity ring % u64_mod
      → release_all capacity ring usage ≡ 0
  unfolding release_all
  release_all-total [] usage h = h
  release_all-total (s ∷ ring) usage h =
      release_all-total ring (sub64 usage (capacity s)) (omega (arith, h, small s))

  clear_ring-Tracked : (b : RingBufferBackend) → Tracked b → Tracked (clear_ring capacity b)
  unfolding clear_ring
  clear_ring-Tracked b h = release_all-total b.ring b.memory_usage h

  -- The operations of a ring, and any sequence of them.
  pub data Change : RingBufferBackend → RingBufferBackend → Type 0 where
    append_call :
        (str : List ℕ) (nc : Option ℕ) (b : RingBufferBackend)
        → Change b (append_ring capacity str nc b)
    clear_all : (b : RingBufferBackend) → Change b (clear_ring capacity b)
    configure : (n : ℕ) (b : RingBufferBackend) → Change b (apply_config n b)

  pub data Changes (b : RingBufferBackend) : RingBufferBackend → Type 0 where
    unchanged : Changes b b
    followed_by : {c d : RingBufferBackend} → Changes b c → Change c d → Changes b d

  Change-Tracked : {b c : RingBufferBackend} → Change b c → Tracked b → Tracked c
  unfolding apply_config
  Change-Tracked (append_call str nc b) h = append_ring-Tracked str nc b h
  Change-Tracked (clear_all b) h = clear_ring-Tracked b h
  Change-Tracked (configure n b) h = h

  -- After any sequence of appends, clears and changes of the configuration the tracker of a ring
  -- shows the capacities of the strings that are in it, mod 2 ^ 64, if it did before.
  pub Changes-Tracked : {b c : RingBufferBackend} → Changes b c → Tracked b → Tracked c
  Changes-Tracked unchanged h = h
  Changes-Tracked (followed_by s c) h = Change-Tracked c (Changes-Tracked s h)
