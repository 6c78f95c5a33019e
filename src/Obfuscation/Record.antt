-- ===== src/Obfuscation/Record.antt =====
-- The records of Obfuscate.cpp, and the one that `FileBackend::AppendObfuscated` makes of a line.
use logme.Prelude.{
  ℕ, ◌+◌, ◌*◌, ◌%◌, ◌^◌, ◌==◌, not, Option, none, some, List, ◌++◌, take, drop, length, ltb,
  if◌then◌else◌, bit_xor, add64,
}
use logme.Obfuscation.Bytes.{store_le16, load_le16, store_le32, store_le64}
use logme.Obfuscation.Cipher.{cha_cha20_xor}

abbrev pub signature : ℕ
signature = 0xA55A

abbrev pub header_bytes : ℕ
header_bytes = 16

abbrev pub nonce_bytes : ℕ
nonce_bytes = 12

pub record NonceGen : Type 0 where
  pub counter : ℕ
  pub salt : ℕ

-- The results of `time` and of the address of the generator are arguments.
unfoldable pub nonce_gen_init : ℕ → ℕ → NonceGen
nonce_gen_init time address = record {
  counter = 0;
  salt = bit_xor (time % 2 ^ 32) (address % 2 ^ 32);
}

unfoldable pub nonce_gen_next : NonceGen → List ℕ × NonceGen
unfolding store_le32 store_le64
nonce_gen_next gen =
    (store_le32 gen.salt ++ store_le64 gen.counter, record gen { counter = add64 gen.counter 1 })

unfoldable pub obf_calc_record_size : ℕ → ℕ
obf_calc_record_size n = if ltb 0xffff n then 0 else header_bytes + n

-- From the header on: the record, and the generator after it.
unfoldable pub build_record : List ℕ → NonceGen → List ℕ → List ℕ × NonceGen
unfolding store_le16 nonce_gen_next cha_cha20_xor
build_record key gen plaintext =
    let (nonce, gen') = nonce_gen_next gen in
    (
      store_le16 signature
          ++ (store_le16 (length plaintext % 2 ^ 16)
              ++ (nonce ++ cha_cha20_xor key nonce 1 plaintext)),
      gen',
    )

-- A null pointer to the key, to the generator or to the output is `none`, the last given by its
-- capacity. A result of 0 is `none`: the generator keeps its state.
unfoldable pub obf_encrypt_record :
    Option (List ℕ) → Option NonceGen → List ℕ → Option ℕ → Option (List ℕ × NonceGen)
unfolding obf_calc_record_size build_record
obf_encrypt_record none gen plaintext capacity = none
obf_encrypt_record (some key) none plaintext capacity = none
obf_encrypt_record (some key) (some gen) plaintext none = none
obf_encrypt_record (some key) (some gen) plaintext (some capacity) =
    if ltb 0xffff (length plaintext)
    then none
    else if ltb capacity (obf_calc_record_size (length plaintext))
    then none
    else some (build_record key gen plaintext)

-- From the test of the signature on, for a record of at least the size of a header.
unfoldable pub read_record : List ℕ → List ℕ → ℕ → Option (List ℕ × List ℕ)
unfolding load_le16 cha_cha20_xor
read_record key r capacity =
    let len = load_le16 (drop 2 r) in
    let nonce = take nonce_bytes (drop 4 r) in
    if not (load_le16 r == signature)
    then none
    else if ltb (length r) (header_bytes + len)
    then none
    else if ltb capacity len
    then none
    else some (cha_cha20_xor key nonce 1 (take len (drop header_bytes r)), nonce)

-- The plaintext and the nonce.
unfoldable pub obf_decrypt_record :
    Option (List ℕ) → Option (List ℕ) → Option ℕ → Option (List ℕ × List ℕ)
unfolding read_record
obf_decrypt_record none r capacity = none
obf_decrypt_record (some key) none capacity = none
obf_decrypt_record (some key) (some r) none = none
obf_decrypt_record (some key) (some r) (some capacity) =
    if ltb (length r) header_bytes then none else read_record key r capacity

-- What is given to `AppendOutputData`, if anything is, and the generator.
unfoldable pub sealed_or_kept : NonceGen → Option (List ℕ × NonceGen) → Option (List ℕ) × NonceGen
sealed_or_kept gen none = (none, gen)
sealed_or_kept gen (some (r, gen')) = (some r, gen')

unfoldable pub append_obfuscated : Option (List ℕ) → NonceGen → List ℕ → Option (List ℕ) × NonceGen
unfolding obf_encrypt_record obf_calc_record_size sealed_or_kept
append_obfuscated none gen text = (some text, gen)
append_obfuscated (some key) gen text =
    let output = obf_calc_record_size (length text) in
    sealed_or_kept gen (
      obf_encrypt_record (some key) (some gen) text
        (some (if ltb output (4 * 1024) then 4 * 1024 else output)))
