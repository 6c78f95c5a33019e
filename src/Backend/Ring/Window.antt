-- ===== src/Backend/Ring/Window.antt =====
-- What a ring holds after any number of appends.
use logme.Prelude.{
  true, false, add64, sub64, ℕ, zero, suc, ◌+◌, ◌-◌, ◌≤◌, ◌≡◌, refl, sym, ap, ◌∙◌, ◌==◌, Option,
  List, [], ◌∷◌, ◌++◌, drop, length, length-append, length-drop, drop_beyond, concat, ltb,
  if◌then◌else◌, Bool-cases, inl, inr, arith, append_assoc, append-nil,
}
use logme.Backend.Ring.{RingBufferBackend, given_bytes, pop_excess, push_item, append_ring, join}

-- The last `n` elements.
abbrev pub last_of {ℓ} : {A : Type ℓ} → ℕ → List A → List A
last_of n xs = drop (length xs - n) xs

drop-append_within {ℓ} :
    {A : Type ℓ} (n : ℕ) (xs ys : List A) → n ≤ length xs → drop n (xs ++ ys) ≡ drop n xs ++ ys
drop-append_within zero xs ys h = refl
drop-append_within (suc n) [] ys h = absurd (omega arith)
drop-append_within (suc n) (x ∷ xs) ys h = drop-append_within n xs ys (omega arith)

drop-drop {ℓ} : {A : Type ℓ} (m n : ℕ) (xs : List A) → drop m (drop n xs) ≡ drop (n + m) xs
drop-drop m zero xs = let e : m ≡ 0 + m = omega arith in ap (λ k. drop k xs) e
drop-drop m (suc n) [] =
    drop_beyond [] m (omega arith) ∙ sym (drop_beyond [] (suc n + m) (omega arith))
drop-drop m (suc n) (x ∷ xs) =
    let e : suc (n + m) ≡ suc n + m = omega arith in drop-drop m n xs ∙ ap (λ k. drop k (x ∷ xs)) e

-- A window that slides over more elements.
pub last_of-append {ℓ} :
    {A : Type ℓ} (n : ℕ) (xs ys : List A) → last_of n (last_of n xs ++ ys) ≡ last_of n (xs ++ ys)
last_of-append n xs ys =
    let k = length xs - n in
    let kept = drop k xs ++ ys in
    let m = length kept - n in
    ap (drop m) (sym (drop-append_within k xs ys (omega arith)))
    ∙ drop-drop m k (xs ++ ys)
    ∙ ap (λ j. drop j (xs ++ ys))
        (omega (arith, length-append (drop k xs) ys, length-drop k xs, length-append xs ys))

last_of-length {ℓ} : {A : Type ℓ} (n : ℕ) (xs : List A) → length (last_of n xs) ≤ n
last_of-length n xs = omega (arith, length-drop (length xs - n) xs)

last_of_few {ℓ} : {A : Type ℓ} (n : ℕ) (xs : List A) → length xs ≤ n → last_of n xs ≡ xs
last_of_few n xs h = let e : length xs - n ≡ 0 = omega (arith, h) in ap (λ k. drop k xs) e

-- What a sequence of appends adds: the texts that are not empty.
abbrev pub added : List (List ℕ × Option ℕ) → List (List ℕ)
added [] = []
added ((str, nc) ∷ calls) =
    if length (given_bytes str nc) == 0 then added calls else given_bytes str nc ∷ added calls

module _ (capacity : List ℕ → ℕ) where
  abbrev pub append_each : List (List ℕ × Option ℕ) → RingBufferBackend → RingBufferBackend
  append_each [] b = b
  append_each ((str, nc) ∷ calls) b = append_each calls (append_ring capacity str nc b)

  pop_excess-ring :
      (n : ℕ) (ring : List (List ℕ)) (usage : ℕ)
      → (pop_excess capacity n ring usage).0 ≡ last_of n ring
  unfolding pop_excess
  pop_excess-ring n [] usage = sym (drop_beyond [] (0 - n) (omega arith))
  pop_excess-ring n (s ∷ ring) usage = elim (Bool-cases (ltb n (length (s ∷ ring)))) [
    | inl over ↦ rw over (
        let e : suc (length ring - n) ≡ suc (length ring) - n = ground arith in
        pop_excess-ring n ring (sub64 usage (capacity s)) ∙ ap (λ k. drop k (s ∷ ring)) e)
    | inr fits ↦
        let e : 0 ≡ suc (length ring) - n = ground arith in rw fits (ap (λ k. drop k (s ∷ ring)) e)
  ]

  append_ring-nothing :
      (str : List ℕ) (nc : Option ℕ) (b : RingBufferBackend)
      → (length (given_bytes str nc) == 0) ≡ true
      → append_ring capacity str nc b ≡ b
  unfolding append_ring
  append_ring-nothing str nc b h = rw h

  append_ring-some :
      (str : List ℕ) (nc : Option ℕ) (b : RingBufferBackend)
      → (length (given_bytes str nc) == 0) ≡ false
      → ((append_ring capacity str nc b).ring
          ≡ last_of b.max_items (b.ring ++ given_bytes str nc ∷ []))
        × ((append_ring capacity str nc b).max_items ≡ b.max_items)
  unfolding append_ring push_item
  append_ring-some str nc b h = (
    rw (append_ring, h)
        (pop_excess-ring b.max_items (b.ring ++ given_bytes str nc ∷ [])
          (add64 b.memory_usage (capacity (given_bytes str nc)))),
    rw (append_ring, h),
  )

  ring_of :
      (calls : List (List ℕ × Option ℕ)) (b : RingBufferBackend)
      → length b.ring ≤ b.max_items
      → (append_each calls b).ring ≡ last_of b.max_items (b.ring ++ added calls)
  ring_of [] b h =
      sym (last_of_few b.max_items b.ring h) ∙ ap (last_of b.max_items) (sym (append-nil b.ring))
  ring_of ((str, nc) ∷ calls) b h = elim (Bool-cases (length (given_bytes str nc) == 0)) [
    | inl nothing ↦ rw nothing (
        ap (λ c. (append_each calls c).ring) (append_ring-nothing str nc b nothing)
        ∙ ring_of calls b h)
    | inr some_text ↦
        let s = given_bytes str nc in
        let next = append_ring capacity str nc b in
        let (e, same) = append_ring-some str nc b some_text in
        let few : length next.ring ≤ next.max_items =
          omega (arith, ap length e, same, last_of-length b.max_items (b.ring ++ s ∷ [])) in
        rw some_text (
          ring_of calls next few
          ∙ ap (λ n. last_of n (next.ring ++ added calls)) same
          ∙ ap (λ r. last_of b.max_items (r ++ added calls)) e
          ∙ last_of-append b.max_items (b.ring ++ s ∷ []) (added calls)
          ∙ ap (last_of b.max_items) (append_assoc b.ring (s ∷ []) (added calls)))
  ]

  -- The text of a ring after any number of appends is that of the last texts that were added to it,
  -- as many as `MaxItems` allows, in their order.
  pub join-append_each :
      (calls : List (List ℕ × Option ℕ)) (b : RingBufferBackend)
      → length b.ring ≤ b.max_items
      → ((append_each calls b).ring ≡ last_of b.max_items (b.ring ++ added calls))
        × (join (append_each calls b) ≡ concat (last_of b.max_items (b.ring ++ added calls)))
  unfolding join
  join-append_each calls b h = let e = ring_of calls b h in (e, ap concat e)
