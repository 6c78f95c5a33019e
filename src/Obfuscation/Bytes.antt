-- ===== src/Obfuscation/Bytes.antt =====
-- Numbers as bytes in Obfuscate.cpp, the lowest byte first.
use logme.Prelude.{
  ℕ, ◌+◌, ◌*◌, ◌/◌, ◌%◌, ◌^◌, ◌<◌, ◌≡◌, ap, ◌∙◌, List, [], ◌∷◌, get_or, bit_or, bit_or-shifted,
  arith,
}

-- A cast to `uint8_t`.
abbrev pub byte : ℕ → ℕ
byte n = n % 256

unfoldable pub store_le16 : ℕ → List ℕ
store_le16 v = byte v ∷ byte (v / 2 ^ 8) ∷ []

unfoldable pub load_le16 : List ℕ → ℕ
load_le16 p = bit_or (get_or p 0 0) (get_or p 1 0 * 2 ^ 8)

unfoldable pub store_le32 : ℕ → List ℕ
store_le32 v = byte v ∷ byte (v / 2 ^ 8) ∷ byte (v / 2 ^ 16) ∷ byte (v / 2 ^ 24) ∷ []

unfoldable pub load_le32 : List ℕ → ℕ
load_le32 p =
    bit_or (bit_or (bit_or (get_or p 0 0) (get_or p 1 0 * 2 ^ 8)) (get_or p 2 0 * 2 ^ 16))
      (get_or p 3 0 * 2 ^ 24)

unfoldable pub store_le64 : ℕ → List ℕ
store_le64 v =
    byte v
    ∷ byte (v / 2 ^ 8)
    ∷ byte (v / 2 ^ 16)
    ∷ byte (v / 2 ^ 24)
    ∷ byte (v / 2 ^ 32)
    ∷ byte (v / 2 ^ 40)
    ∷ byte (v / 2 ^ 48)
    ∷ byte (v / 2 ^ 56)
    ∷ []

-- What `load_le16` reads of two bytes.
pub load_le16-bytes : (a b : ℕ) (rest : List ℕ) → a < 256 → load_le16 (a ∷ b ∷ rest) ≡ a + b * 256
unfolding load_le16
load_le16-bytes a b rest h = bit_or-shifted 8 a b h

-- What `load_le32` reads is what `store_le32` wrote.
pub load-store_le32 : (v : ℕ) → v < 2 ^ 32 → load_le32 (store_le32 v) ≡ v
unfolding load_le32 store_le32
load-store_le32 v h =
    let a = bit_or-shifted 8 (byte v) (byte (v / 2 ^ 8)) (omega arith) in
    let low = byte v + byte (v / 2 ^ 8) * 2 ^ 8 in
    let b = bit_or-shifted 16 low (byte (v / 2 ^ 16)) (omega arith) in
    let mid = low + byte (v / 2 ^ 16) * 2 ^ 16 in
    let c = bit_or-shifted 24 mid (byte (v / 2 ^ 24)) (omega arith) in
    ap (λ x. bit_or (bit_or x (byte (v / 2 ^ 16) * 2 ^ 16)) (byte (v / 2 ^ 24) * 2 ^ 24)) a
    ∙ ap (λ x. bit_or x (byte (v / 2 ^ 24) * 2 ^ 24)) b
    ∙ c
    ∙ omega arith

pub load-store_le16 :
    (v : ℕ) (rest : List ℕ) → v < 2 ^ 16 → load_le16 (byte v ∷ byte (v / 2 ^ 8) ∷ rest) ≡ v
load-store_le16 v rest h =
    load_le16-bytes (byte v) (byte (v / 2 ^ 8)) rest (omega arith) ∙ omega arith
