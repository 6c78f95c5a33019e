-- ===== src/Obfuscation/Involution.antt =====
-- The cipher undoes itself, and keeps the length of its input.
use logme.Prelude.{
  ℕ, zero, suc, ◌*◌, ◌≤◌, ◌≡◌, refl, sym, ap, ◌∙◌, ◌⊎◌, inl, inr, List, [], ◌∷◌, ◌++◌, append-nil,
  take, drop, length, length-append, length-take, length-drop, take-append, drop-append, take_all,
  take-append-drop, drop_beyond, leb, Bool-cases, leb→le, bit_xor_twice, min, arith,
}
use logme.Obfuscation.Bytes.{store_le32}
use logme.Obfuscation.Cipher.{
  add32, initial_state, rounds, store_sums, cha_cha20_block, xor_bytes, xor_blocks, cha_cha20_xor,
}

store_sums-length : (n i : ℕ) (work state : List ℕ) → length (store_sums n i work state) ≡ n * 4
unfolding store_sums store_le32
store_sums-length zero i work state = refl
store_sums-length (suc n) i work state = omega (arith, store_sums-length n (suc i) work state)

block-length :
    (key : List ℕ) (counter : ℕ) (nonce : List ℕ) → length (cha_cha20_block key counter nonce) ≡ 64
unfolding cha_cha20_block
block-length key counter nonce =
    let state = initial_state key counter nonce in store_sums-length 16 0 (rounds 10 state) state

xor_bytes-length :
    (xs block : List ℕ) → length xs ≤ length block → length (xor_bytes xs block) ≡ length xs
unfolding xor_bytes
xor_bytes-length [] block h = refl
xor_bytes-length (x ∷ xs) [] h = absurd (omega arith)
xor_bytes-length (x ∷ xs) (y ∷ block) h = omega (arith, xor_bytes-length xs block (omega arith))

xor_bytes_twice :
    (xs block : List ℕ) → length xs ≤ length block → xor_bytes (xor_bytes xs block) block ≡ xs
unfolding xor_bytes
xor_bytes_twice [] block h = refl
xor_bytes_twice (x ∷ xs) [] h = absurd (omega arith)
xor_bytes_twice (x ∷ xs) (y ∷ block) h =
    ap (λ c. c ∷ xor_bytes (xor_bytes xs block) block) (bit_xor_twice x y)
    ∙ ap (λ s. x ∷ s) (xor_bytes_twice xs block (omega arith))

module _ (key nonce : List ℕ) where
  abbrev first_block : ℕ → List ℕ → List ℕ
  first_block counter input = xor_bytes (take 64 input) (cha_cha20_block key counter nonce)

  xor_blocks-nil : (fuel counter : ℕ) → xor_blocks fuel key nonce counter [] ≡ []
  unfolding xor_blocks
  xor_blocks-nil zero counter = refl
  xor_blocks-nil (suc fuel) counter = refl

  -- One round, on any input.
  xor_blocks-suc :
      (fuel counter : ℕ) (input : List ℕ)
      → xor_blocks (suc fuel) key nonce counter input
        ≡ first_block counter input ++ xor_blocks fuel key nonce (add32 counter 1) (drop 64 input)
  unfolding xor_blocks xor_bytes
  xor_blocks-suc fuel counter [] = sym (xor_blocks-nil fuel (add32 counter 1))
  xor_blocks-suc fuel counter (x ∷ xs) = refl

  block_fits :
      (counter : ℕ) (input : List ℕ)
      → length (take 64 input) ≤ length (cha_cha20_block key counter nonce)
  block_fits counter input = omega (arith, length-take 64 input, block-length key counter nonce)

  first_block-length :
      (counter : ℕ) (input : List ℕ) → length (first_block counter input) ≡ min 64 (length input)
  first_block-length counter input =
      xor_bytes-length (take 64 input) _ (block_fits counter input) ∙ length-take 64 input

  xor_blocks-length :
      (fuel counter : ℕ) (input : List ℕ)
      → length input ≤ fuel
      → length (xor_blocks fuel key nonce counter input) ≡ length input
  xor_blocks-length zero counter [] h = ap length (xor_blocks-nil zero counter)
  xor_blocks-length zero counter (x ∷ xs) h = absurd (omega arith)
  xor_blocks-length (suc fuel) counter input h =
      ap length (xor_blocks-suc fuel counter input)
      ∙ omega (
        arith,
        length-append (first_block counter input)
            (xor_blocks fuel key nonce (add32 counter 1) (drop 64 input)),
        first_block-length counter input,
        xor_blocks-length fuel (add32 counter 1) (drop 64 input)
            (omega (arith, length-drop 64 input)),
        length-drop 64 input,
      )

  -- The first 64 bytes of a text in two parts, the first of which is full or the last.
  split_at_block :
      (xs ys : List ℕ)
      → length xs ≤ 64
      → (length xs ≡ 64) ⊎ (ys ≡ [])
      → (take 64 (xs ++ ys) ≡ xs) × (drop 64 (xs ++ ys) ≡ ys)
  split_at_block xs ys h (inl full) =
      (take-append xs ys 64 (sym full), drop-append xs ys 64 (sym full))
  split_at_block xs ys h (inr last) =
      let whole = ap (λ s. xs ++ s) last ∙ append-nil xs in
      (ap (take 64) whole ∙ take_all xs 64 h, ap (drop 64) whole ∙ drop_beyond xs 64 h ∙ sym last)

  full_or_last :
      (fuel counter : ℕ) (input : List ℕ)
      → (length (first_block counter input) ≡ 64)
        ⊎ (xor_blocks fuel key nonce (add32 counter 1) (drop 64 input) ≡ [])
  full_or_last fuel counter input = elim (Bool-cases (leb 64 (length input))) [
    | inl full ↦ inl (omega (arith, first_block-length counter input, leb→le _ _ full))
    | inr short ↦ inr (
        ap (xor_blocks fuel key nonce (add32 counter 1)) (drop_beyond input 64 (ground arith))
        ∙ xor_blocks-nil fuel (add32 counter 1))
  ]

  xor_blocks_twice :
      (fuel counter : ℕ) (input : List ℕ)
      → length input ≤ fuel
      → xor_blocks fuel key nonce counter (xor_blocks fuel key nonce counter input) ≡ input
  xor_blocks_twice zero counter [] h =
      ap (xor_blocks 0 key nonce counter) (xor_blocks-nil 0 counter) ∙ xor_blocks-nil 0 counter
  xor_blocks_twice zero counter (x ∷ xs) h = absurd (omega arith)
  xor_blocks_twice (suc fuel) counter input h =
      let block = cha_cha20_block key counter nonce in
      let next = xor_blocks fuel key nonce (add32 counter 1) in
      let front = first_block counter input in
      let rest = next (drop 64 input) in
      let (taken, dropped) =
        split_at_block front rest (omega (arith, first_block-length counter input))
          (full_or_last fuel counter input) in
      ap (xor_blocks (suc fuel) key nonce counter) (xor_blocks-suc fuel counter input)
      ∙ xor_blocks-suc fuel counter (front ++ rest)
      ∙ ap (λ s. xor_bytes s block ++ next (drop 64 (front ++ rest))) taken
      ∙ ap (λ s. xor_bytes front block ++ next s) dropped
      ∙ ap (λ s. s ++ next rest) (xor_bytes_twice (take 64 input) block (block_fits counter input))
      ∙ ap (λ s. take 64 input ++ s)
          (xor_blocks_twice fuel (add32 counter 1) (drop 64 input)
            (omega (arith, length-drop 64 input)))
      ∙ take-append-drop 64 input

pub cha_cha20_xor-length :
    (key nonce : List ℕ) (counter : ℕ) (input : List ℕ)
    → length (cha_cha20_xor key nonce counter input) ≡ length input
unfolding cha_cha20_xor
cha_cha20_xor-length key nonce counter input =
    xor_blocks-length key nonce (length input) counter input (omega arith)

-- The cipher, with the same key, nonce and counter, takes its output back to its input.
pub cha_cha20_xor_twice :
    (key nonce : List ℕ) (counter : ℕ) (input : List ℕ)
    → cha_cha20_xor key nonce counter (cha_cha20_xor key nonce counter input) ≡ input
unfolding cha_cha20_xor
cha_cha20_xor_twice key nonce counter input =
    ap (λ n. xor_blocks n key nonce counter (xor_blocks (length input) key nonce counter input))
      (xor_blocks-length key nonce (length input) counter input (omega arith))
    ∙ xor_blocks_twice key nonce (length input) counter input (omega arith)
