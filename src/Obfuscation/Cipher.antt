-- ===== src/Obfuscation/Cipher.antt =====
-- The stream cipher of Obfuscate.cpp, which is ChaCha20.
use logme.Prelude.{
  ℕ, zero, suc, ◌+◌, ◌-◌, ◌*◌, ◌/◌, ◌%◌, ◌^◌, List, [], ◌∷◌, ◌++◌, take, drop, length, get_or, set,
  bit_or, bit_xor,
}
use logme.Obfuscation.Bytes.{load_le32, store_le32}

abbrev pub add32 : ℕ → ℕ → ℕ
add32 a b = (a + b) % 2 ^ 32

unfoldable pub rotl32 : ℕ → ℕ → ℕ
rotl32 v r = bit_or (v * 2 ^ r % 2 ^ 32) (v / 2 ^ (32 - r))

-- The new values of the four words that the pointers go to.
unfoldable pub quarter_round : ℕ → ℕ → ℕ → ℕ → ℕ × ℕ × ℕ × ℕ
unfolding rotl32
quarter_round a0 b0 c0 d0 =
    let a1 = add32 a0 b0 in
    let d1 = rotl32 (bit_xor d0 a1) 16 in
    let c1 = add32 c0 d1 in
    let b1 = rotl32 (bit_xor b0 c1) 12 in
    let a2 = add32 a1 b1 in
    let d2 = rotl32 (bit_xor d1 a2) 8 in
    let c2 = add32 c1 d2 in let b2 = rotl32 (bit_xor b1 c2) 7 in (a2, b2, c2, d2)

-- A call of `QuarterRound` on four different elements of `work`.
unfoldable pub quarter_at : ℕ → ℕ → ℕ → ℕ → List ℕ → List ℕ
unfolding quarter_round
quarter_at i j k l w =
    let (a, b, c, d) = quarter_round (get_or w i 0) (get_or w j 0) (get_or w k 0) (get_or w l 0) in
    set (set (set (set w i a) j b) k c) l d

unfoldable pub double_round : List ℕ → List ℕ
unfolding quarter_at
double_round w0 =
    let w1 = quarter_at 0 4 8 12 w0 in
    let w2 = quarter_at 1 5 9 13 w1 in
    let w3 = quarter_at 2 6 10 14 w2 in
    let w4 = quarter_at 3 7 11 15 w3 in
    let w5 = quarter_at 0 5 10 15 w4 in
    let w6 = quarter_at 1 6 11 12 w5 in let w7 = quarter_at 2 7 8 13 w6 in quarter_at 3 4 9 14 w7

unfoldable pub rounds : ℕ → List ℕ → List ℕ
unfolding double_round
rounds zero w = w
rounds (suc n) w = rounds n (double_round w)

unfoldable pub initial_state : List ℕ → ℕ → List ℕ → List ℕ
unfolding load_le32
initial_state key counter nonce =
    0x61707865
    ∷ 0x3320646e
    ∷ 0x79622d32
    ∷ 0x6b206574
    ∷ load_le32 key
    ∷ load_le32 (drop 4 key)
    ∷ load_le32 (drop 8 key)
    ∷ load_le32 (drop 12 key)
    ∷ load_le32 (drop 16 key)
    ∷ load_le32 (drop 20 key)
    ∷ load_le32 (drop 24 key)
    ∷ load_le32 (drop 28 key)
    ∷ counter
    ∷ load_le32 nonce
    ∷ load_le32 (drop 4 nonce)
    ∷ load_le32 (drop 8 nonce)
    ∷ []

-- The last loop, for `n` words from the one with index `i` on.
unfoldable pub store_sums : ℕ → ℕ → List ℕ → List ℕ → List ℕ
unfolding store_le32
store_sums zero i work state = []
store_sums (suc n) i work state =
    store_le32 (add32 (get_or work i 0) (get_or state i 0)) ++ store_sums n (suc i) work state

unfoldable pub cha_cha20_block : List ℕ → ℕ → List ℕ → List ℕ
unfolding initial_state rounds store_sums
cha_cha20_block key counter nonce =
    let state = initial_state key counter nonce in store_sums 16 0 (rounds 10 state) state

-- The inner loop; the block is at least as long as the input it is given.
unfoldable pub xor_bytes : List ℕ → List ℕ → List ℕ
xor_bytes [] block = []
xor_bytes (x ∷ xs) [] = []
xor_bytes (x ∷ xs) (y ∷ block) = bit_xor x y ∷ xor_bytes xs block

-- The outer loop, which takes at least one byte a round: as many rounds as bytes are enough.
unfoldable pub xor_blocks : ℕ → List ℕ → List ℕ → ℕ → List ℕ → List ℕ
unfolding cha_cha20_block xor_bytes
xor_blocks zero key nonce counter input = []
xor_blocks (suc fuel) key nonce counter [] = []
xor_blocks (suc fuel) key nonce counter (x ∷ xs) =
    xor_bytes (take 64 (x ∷ xs)) (cha_cha20_block key counter nonce)
    ++ xor_blocks fuel key nonce (add32 counter 1) (drop 64 (x ∷ xs))

unfoldable pub cha_cha20_xor : List ℕ → List ℕ → ℕ → List ℕ → List ℕ
unfolding xor_blocks
cha_cha20_xor key nonce counter input = xor_blocks (length input) key nonce counter input
