-- ===== src/Obfuscation/Decoding.antt =====
-- A record that was encrypted is decrypted to the same line.
use logme.Prelude.{
  [], append-nil, ℕ, ◌+◌, ◌%◌, ◌^◌, ◌≤◌, ◌<◌, ◌≡◌, refl, sym, ap, ◌∙◌, none, some, List, ◌++◌,
  length, length-append, take, drop, take-append, ltb, if◌then◌else◌, arith,
}
use logme.Obfuscation.Bytes.{store_le16, load_le16, store_le32, store_le64, load-store_le16}
use logme.Obfuscation.Cipher.{cha_cha20_xor}
use logme.Obfuscation.Involution.{cha_cha20_xor-length, cha_cha20_xor_twice}
use logme.Obfuscation.Record.{
  NonceGen, nonce_gen_next, obf_calc_record_size, build_record, obf_encrypt_record, read_record,
  obf_decrypt_record, append_obfuscated, sealed_or_kept, signature, header_bytes, nonce_bytes,
}

pub nonce-length : (gen : NonceGen) → length (nonce_gen_next gen).0 ≡ 12
unfolding nonce_gen_next store_le32 store_le64
nonce-length gen = refl

-- The size of a record.
pub build_record-length :
    (key : List ℕ) (gen : NonceGen) (p : List ℕ)
    → length (build_record key gen p).0 ≡ header_bytes + length p
unfolding build_record store_le16
build_record-length key gen p =
    let nonce = (nonce_gen_next gen).0 in
    omega (
      arith,
      length-append nonce (cha_cha20_xor key nonce 1 p),
      nonce-length gen,
      cha_cha20_xor-length key nonce 1 p,
    )

-- The parts of a record, whatever follows it.
record Parts (key : List ℕ) (gen : NonceGen) (p extra : List ℕ) : Type 0 where
  signed : load_le16 ((build_record key gen p).0 ++ extra) ≡ signature
  sized : load_le16 (drop 2 ((build_record key gen p).0 ++ extra)) ≡ length p
  nonce : take nonce_bytes (drop 4 ((build_record key gen p).0 ++ extra)) ≡ (nonce_gen_next gen).0
  text :
      drop header_bytes ((build_record key gen p).0 ++ extra)
      ≡ cha_cha20_xor key (nonce_gen_next gen).0 1 p ++ extra

build_record-Parts :
    (key : List ℕ) (gen : NonceGen) (p extra : List ℕ) → length p < 2 ^ 16 → Parts key gen p extra
unfolding build_record store_le16 nonce_gen_next store_le32 store_le64
build_record-Parts key gen p extra h = record {
  signed = load-store_le16 signature _ (omega arith);
  sized = load-store_le16 (length p % 2 ^ 16) _ (omega arith) ∙ omega (arith, h);
  nonce = refl;
  text = refl;
}

-- What is read of a record whose parts are known.
pub read_record_parts :
    (key r : List ℕ) (capacity len : ℕ) (nonce ct : List ℕ)
    → load_le16 r ≡ signature
    → load_le16 (drop 2 r) ≡ len
    → take nonce_bytes (drop 4 r) ≡ nonce
    → take len (drop header_bytes r) ≡ ct
    → header_bytes + len ≤ length r
    → len ≤ capacity
    → read_record key r capacity ≡ some (cha_cha20_xor key nonce 1 ct, nonce)
unfolding read_record
read_record_parts key r capacity len nonce ct s l n t h k = rw (s, l, n, t) (ground arith)

pub read-build_record :
    (key : List ℕ) (gen : NonceGen) (p extra : List ℕ) (capacity : ℕ)
    → length p < 2 ^ 16
    → length p ≤ capacity
    → read_record key ((build_record key gen p).0 ++ extra) capacity
      ≡ some (p, (nonce_gen_next gen).0)
read-build_record key gen p extra capacity h k =
    let parts = build_record-Parts key gen p extra h in
    let nonce = (nonce_gen_next gen).0 in
    let ct = cha_cha20_xor key nonce 1 p in
    read_record_parts key _ capacity (length p) nonce ct parts.signed parts.sized parts.nonce
      (ap (take (length p)) parts.text
        ∙ take-append ct extra (length p) (sym (cha_cha20_xor-length key nonce 1 p)))
      (omega (arith, length-append (build_record key gen p).0 extra, build_record-length key gen p))
      k
    ∙ ap (λ t. some (t, nonce)) (cha_cha20_xor_twice key nonce 1 p)

pub decrypt-build_record :
    (key : List ℕ) (gen : NonceGen) (p : List ℕ) (capacity : ℕ)
    → length p < 2 ^ 16
    → length p ≤ capacity
    → obf_decrypt_record (some key) (some (build_record key gen p).0) (some capacity)
      ≡ some (p, (nonce_gen_next gen).0)
unfolding obf_decrypt_record
decrypt-build_record key gen p capacity h k =
    let r = (build_record key gen p).0 in
    let e =
      ap (λ t. read_record key t capacity) (sym (append-nil r))
      ∙ read-build_record key gen p [] capacity h k in
    ground (arith, e, build_record-length key gen p)

-- A line of at most 65535 bytes is encrypted wherever its record has room, and the record is
-- decrypted to the same line and nonce, with anything behind it, wherever the line has room.
pub decrypt-encrypt_record :
    (key : List ℕ) (gen : NonceGen) (p extra : List ℕ) (room capacity : ℕ)
    → length p ≤ 0xffff
    → header_bytes + length p ≤ room
    → length p ≤ capacity
    → (obf_encrypt_record (some key) (some gen) p (some room) ≡ some (build_record key gen p))
      × (obf_decrypt_record (some key) (some ((build_record key gen p).0 ++ extra)) (some capacity)
          ≡ some (p, (nonce_gen_next gen).0))
unfolding obf_encrypt_record obf_decrypt_record obf_calc_record_size
decrypt-encrypt_record key gen p extra room capacity h k l = (
  ground arith,
  ground (
    arith,
    length-append (build_record key gen p).0 extra,
    build_record-length key gen p,
    read-build_record key gen p extra capacity,
  ),
)

-- `AppendObfuscated` makes a record of every line of at most 65535 bytes, and drops every longer
-- one where a key is set.
pub append_obfuscated_lem :
    (key : List ℕ) (gen : NonceGen) (p : List ℕ)
    → append_obfuscated (some key) gen p ≡ (
        if ltb 0xffff (length p)
        then (none, gen)
        else (some (build_record key gen p).0, (build_record key gen p).1))
unfolding append_obfuscated obf_encrypt_record obf_calc_record_size sealed_or_kept
append_obfuscated_lem key gen p = ground arith
