-- ===== src/Backend/Growing/Appending.antt =====
-- What an append does to the text of a BufferBackend, and to its memory.
use logme.Prelude.{
  ℕ, suc, ◌+◌, ◌-◌, ◌*◌, ◌/◌, ◌%◌, ◌≤◌, ◌<◌, ◌≡◌, refl, sym, ap, ◌∙◌, ◌⊎◌, inl, inr, Bool, true,
  false, not, ◌&&◌, ◌==◌, List, [], ◌∷◌, ◌++◌, take, length, length-append, length-take, append-nil,
  append_assoc, ltb, add64, sub64, u64_mod, Bool-cases, arith,
}
use logme.Backend.Growing.{
  BufferBackend, BufferBackendPolicy, end_of, needed, make_room, store_text, is_limited,
  append_bounded, ensure_capacity, append_text,
}
use logme.Backend.Growing.Cutting.{Cut}
use logme.Backend.Growing.Trimming.{Ended, text_of, text_of_ended, make_room-Roomy}

append-empty : (t s : List ℕ) → length s ≡ 0 → t ++ s ≡ t
append-empty t [] h = append-nil t
append-empty t (c ∷ s) h = absurd (omega arith)

module _ (reserved : ℕ → ℕ) (enough : (n : ℕ) → n ≤ reserved n) where
  -- The vector ends in a zero, within its capacity and the configured size, and the tracker shows the
  -- capacity, mod 2 ^ 64.
  pub record Kept (b : BufferBackend) : Type 0 where
    pub ended : Ended b.buffer
    pub within : length b.buffer ≤ b.capacity
    pub tracked : b.memory_usage ≡ b.capacity % u64_mod
    pub bounded : is_limited reserved b ≡ true → length b.buffer ≤ b.max_size

  -- Neither the new size nor the capacity for it leaves a machine word.
  abbrev pub Sized : List ℕ → BufferBackend → Type 0
  Sized s b = length b.buffer + length s + 4097 < u64_mod

  stored-length :
      (s buffer : List ℕ)
      → length (take (end_of buffer) buffer ++ (s ++ 0 ∷ [])) ≡ (length buffer - 1) + length s + 1
  stored-length s buffer = omega (
    arith,
    length-append (take (end_of buffer) buffer) (s ++ 0 ∷ []),
    length-append s (0 ∷ []),
    length-take (end_of buffer) buffer,
  )

  record Ensured (size : ℕ) (b r : BufferBackend) : Type 0 where
    room : size ≤ r.capacity
    tracked : b.memory_usage ≡ b.capacity % u64_mod → r.memory_usage ≡ r.capacity % u64_mod
    max_size : r.max_size ≡ b.max_size

  ensure_capacity-Ensured :
      (size : ℕ) (b : BufferBackend)
      → size + 4096 < u64_mod
      → Ensured size b (ensure_capacity reserved size b)
  unfolding ensure_capacity
  ensure_capacity-Ensured size b h =
      let enough_now = enough (sub64 (add64 size 4096) 1 / 4096 * 4096) in
      elim (Bool-cases (ltb b.capacity size)) [
        | inl small ↦
            rw (ensure_capacity, small)
              (record {
                room = omega (arith, enough_now, h);
                tracked = λ t. ground (arith, enough_now);
                max_size = refl;
              })
        | inr large ↦
            rw (ensure_capacity, large)
              (record { room = ground arith; tracked = λ t. t; max_size = refl })
      ]

  stored-Ended :
      (s buffer : List ℕ)
      → take (end_of buffer) buffer ++ (s ++ 0 ∷ []) ≡ (text_of buffer ++ s) ++ 0 ∷ []
  stored-Ended s buffer = sym (append_assoc (text_of buffer) s (0 ∷ []))

  store_text-Kept :
      (s : List ℕ) (b : BufferBackend)
      → Sized s b
      → b.memory_usage ≡ b.capacity % u64_mod
      → (is_limited reserved b ≡ true → needed b.buffer s ≤ b.max_size)
      → Kept (store_text reserved s b)
  unfolding store_text
  store_text-Kept s b z t m =
      let size = needed b.buffer s in
      let e = ensure_capacity-Ensured size b (omega (arith, z)) in
      let long = stored-length s b.buffer in
      record {
        ended = inr (text_of b.buffer ++ s, stored-Ended s b.buffer);
        within = omega (arith, z, long, e.room);
        tracked = e.tracked t;
        bounded = λ l.
            omega (
              arith,
              z,
              long,
              e.max_size,
              m (ap (λ n. not (n == u64_mod - 1)) (sym e.max_size) ∙ l),
            );
      }

  store_text-text :
      (s : List ℕ) (b : BufferBackend)
      → text_of (store_text reserved s b).buffer ≡ text_of b.buffer ++ s
  unfolding store_text
  store_text-text s b = ap text_of (stored-Ended s b.buffer) ∙ text_of_ended (text_of b.buffer ++ s)

  -- The text does not fit below the configured size.
  abbrev pub is_over : List ℕ → BufferBackend → Bool
  is_over s b = is_limited reserved b && ltb b.max_size (needed b.buffer s)

  pub record AppendSpec (s : List ℕ) (b r : BufferBackend) : Type 0 where
    pub kept : Kept r
    pub nothing : length s ≡ 0 → r ≡ b
    pub fits : is_over s b ≡ false → text_of r.buffer ≡ text_of b.buffer ++ s
    pub stopped : is_over s b ≡ true → b.policy ≡ BufferBackendPolicy.stop_appending → r ≡ b
    pub too_long : is_over s b ≡ true → b.max_size < length s + 1 → r ≡ b
    pub oldest :
        is_over s b ≡ true
        → b.policy ≡ BufferBackendPolicy.delete_oldest
        → 0 < length s
        → length s + 1 ≤ b.max_size
        → (rest : List ℕ) × Cut b.max_size s (text_of b.buffer) rest
          × (text_of r.buffer ≡ rest ++ s)

  same-Spec :
      (s : List ℕ) (b : BufferBackend)
      → Kept b
      → (length s ≡ 0)
        ⊎ ((is_over s b ≡ true)
            × ((b.policy ≡ BufferBackendPolicy.stop_appending) ⊎ (b.max_size < length s + 1)))
      → AppendSpec s b b
  same-Spec s b k (inl none_given) = record {
    kept = k;
    nothing = λ _. refl;
    fits = λ _. sym (append-empty (text_of b.buffer) s none_given);
    stopped = λ _ _. refl;
    too_long = λ _ _. refl;
    oldest = λ _ _ given. absurd (omega (arith, none_given, given));
  }
  same-Spec s b k (inr (o, inl stop)) = record {
    kept = k;
    nothing = λ _. refl;
    fits = λ f. cc;
    stopped = λ _ _. refl;
    too_long = λ _ _. refl;
    oldest = λ _ f _ _. let clash = sym stop ∙ f in cc;
  }
  same-Spec s b k (inr (o, inr long)) = record {
    kept = k;
    nothing = λ _. refl;
    fits = λ f. cc;
    stopped = λ _ _. refl;
    too_long = λ _ _. refl;
    oldest = λ _ _ _ f. absurd (omega (arith, long, f));
  }

  bounded-Spec :
      (p : BufferBackendPolicy) (s : List ℕ) (b : BufferBackend)
      → b.policy ≡ p
      → Kept b
      → Sized s b
      → is_over s b ≡ true
      → 0 < length s
      → AppendSpec s b (append_bounded reserved p s b)
  unfolding append_bounded
  bounded-Spec BufferBackendPolicy.stop_appending s b e k z o given =
      same-Spec s b k (inr (o, inl e))
  bounded-Spec BufferBackendPolicy.delete_oldest s b e k z o given =
      elim (Bool-cases (ltb b.max_size (add64 (length s) 1))) [
        | inl long ↦ rw (append_bounded, long) (same-Spec s b k (inr (o, inr (ground arith))))
        | inr short ↦
            let r =
              make_room-Roomy (suc (length b.buffer)) b.max_size s b.buffer k.ended (omega arith)
                (ground arith) (omega (arith, z)) in
            let left : BufferBackend = record b {
              buffer = make_room (suc (length b.buffer)) b.max_size s b.buffer;
            } in
            rw (append_bounded, short)
              (record {
                nothing = λ e. absurd (omega (arith, e, given));
                kept = store_text-Kept s left (omega (arith, z, r.shorter)) k.tracked (λ _. r.room);
                fits = λ f. cc;
                stopped = λ _ f. let clash = sym e ∙ f in cc;
                too_long = λ _ f. ground arith;
                oldest = λ _ _ _ _. (text_of left.buffer, r.text, store_text-text s left);
              })
      ]

  -- What `Append` does, for sizes that a machine word holds. The vector stays terminated, within its
  -- capacity and the configured size, and charged to the tracker. An empty text changes nothing. A
  -- text that fits is put behind the old one. Where another one does not fit, STOP_APPENDING leaves
  -- all as it is; DELETE_OLDEST does so where the text alone is too long, and else drops what stands
  -- before a line feed, with it, or everything, no more than is needed, and puts the text behind the
  -- rest.
  pub append_text-Spec :
      (s : List ℕ) (b : BufferBackend)
      → Kept b
      → Sized s b
      → AppendSpec s b (append_text reserved s b)
  unfolding append_text
  append_text-Spec s b k z = elim (Bool-cases (length s == 0)) [
    | inl nothing ↦ rw (append_text, nothing) (same-Spec s b k (inl (ground arith)))
    | inr some_text ↦ elim (Bool-cases (is_over s b)) [
      | inl over ↦
          rw (append_text, some_text, over) (bounded-Spec b.policy s b refl k z over (ground arith))
      | inr fits ↦
          rw (append_text, some_text, fits)
            (record {
              nothing = λ e. absurd (ground arith);
              kept = store_text-Kept s b z k.tracked (λ l. ground arith);
              fits = λ _. store_text-text s b;
              stopped = λ o. cc;
              too_long = λ o. cc;
              oldest = λ o. cc;
            })
    ]
  ]
