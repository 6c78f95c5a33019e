-- ===== src/Obfuscation/Nonce.antt =====
-- No nonce is given twice before the counter wraps around.
use logme.Prelude.{
  ℕ, zero, suc, ◌+◌, ◌*◌, ◌^◌, ◌<◌, ◌≡◌, ◌≢◌, sym, ap, ◌∙◌, List, get_or, u64_mod, arith, drop,
}
use logme.Obfuscation.Bytes.{store_le32, store_le64}
use logme.Obfuscation.Record.{NonceGen, nonce_gen_next}

value_le64 : List ℕ → ℕ
value_le64 p =
    get_or p 0 0
    + get_or p 1 0 * 2 ^ 8
    + get_or p 2 0 * 2 ^ 16
    + get_or p 3 0 * 2 ^ 24
    + get_or p 4 0 * 2 ^ 32
    + get_or p 5 0 * 2 ^ 40
    + get_or p 6 0 * 2 ^ 48
    + get_or p 7 0 * 2 ^ 56

value-store_le64 : (v : ℕ) → v < u64_mod → value_le64 (store_le64 v) ≡ v
unfolding value_le64 store_le64
value-store_le64 v h = omega arith

-- The generator after `n` calls.
abbrev pub advanced : ℕ → NonceGen → NonceGen
advanced zero gen = gen
advanced (suc n) gen = (nonce_gen_next (advanced n gen)).1

advanced-counter :
    (n : ℕ) (gen : NonceGen) → gen.counter ≡ 0 → n < u64_mod → (advanced n gen).counter ≡ n
unfolding nonce_gen_next
advanced-counter zero gen h k = h
advanced-counter (suc n) gen h k = omega (arith, advanced-counter n gen h (omega arith))

nonce-counter :
    (gen : NonceGen)
    → gen.counter < u64_mod
    → value_le64 (drop 4 (nonce_gen_next gen).0) ≡ gen.counter
unfolding nonce_gen_next store_le32
nonce-counter gen h = value-store_le64 gen.counter h

-- The nonces of the first 2 ^ 64 records of one generator are all different.
pub nonce_gen_next-distinct :
    (m n : ℕ) (gen : NonceGen)
    → gen.counter ≡ 0
    → m < u64_mod
    → n < u64_mod
    → m ≢ n
    → (nonce_gen_next (advanced m gen)).0 ≢ (nonce_gen_next (advanced n gen)).0
nonce_gen_next-distinct m n gen h k l other same =
    let a = advanced-counter m gen h k in
    let b = advanced-counter n gen h l in
    let c = nonce-counter (advanced m gen) (omega (arith, a)) in
    let d = nonce-counter (advanced n gen) (omega (arith, b)) in
    other (sym a ∙ sym c ∙ ap (λ p. value_le64 (drop 4 p)) same ∙ d ∙ b)
