-- ===== src/Tests/Obfuscated.antt =====
-- Runs of Obfuscate.cpp, and the test vectors of RFC 8439 for its cipher.
use logme.Prelude.{
  ℕ, ◌+◌, ◌*◌, ◌≡◌, ◌≢◌, refl, true, false, none, some, List, [], ◌∷◌, ◌++◌, take, drop, replicate,
  ltb, length, if◌then◌else◌, arith,
}
use logme.Obfuscation.Bytes.{load_le32, store_le32}
use logme.Obfuscation.Cipher.{
  rotl32, quarter_round, cha_cha20_block, initial_state, rounds, double_round, quarter_at,
  store_sums,
}
use logme.Obfuscation.Record.{
  NonceGen, nonce_gen_next, build_record, obf_encrypt_record, obf_decrypt_record, append_obfuscated,
}
use logme.Obfuscation.Nonce.{advanced, nonce_gen_next-distinct}
use logme.Obfuscation.Decoding.{decrypt-encrypt_record, append_obfuscated_lem}
use logme.Text.Trim.{c_str}
use logme.Obfuscation.Line.{deobfuscate_record, deobfuscate_record_lem}
use logme.Obfuscation.File.{out_of_rounds, decode_loop, deobfuscate_log_file}
use logme.Obfuscation.File.Records.{log_bytes, kept_lines}
use logme.Obfuscation.File.Whole.{deobfuscate-log_bytes}
use logme.Obfuscation.File.Halting.{decode_loop_enough}
use logme.Obfuscation.File.Broken.{deobfuscate-broken}

quarter_round_vector :
    quarter_round 0x11111111 0x01020304 0x9b8d6f43 0x01234567
    ≡ (0xea2a92f4, 0xcb1cf8ce, 0x4581472e, 0x5881c4bb)
unfolding quarter_round rotl32
quarter_round_vector = refl

abbrev counted : List ℕ
counted =
    0 ∷ 1 ∷ 2 ∷ 3 ∷ 4 ∷ 5 ∷ 6 ∷ 7 ∷ 8 ∷ 9 ∷ 10 ∷ 11 ∷ 12 ∷ 13 ∷ 14 ∷ 15 ∷ 16 ∷ 17 ∷ 18 ∷ 19 ∷ 20
    ∷ 21 ∷ 22 ∷ 23 ∷ 24 ∷ 25 ∷ 26 ∷ 27 ∷ 28 ∷ 29 ∷ 30 ∷ 31 ∷ []

-- The first bytes of the block in section 2.3.2.
block_vector :
    take 8 (cha_cha20_block counted 1 (0 ∷ 0 ∷ 0 ∷ 9 ∷ 0 ∷ 0 ∷ 0 ∷ 0x4a ∷ 0 ∷ 0 ∷ 0 ∷ 0 ∷ []))
    ≡ 0x10 ∷ 0xf1 ∷ 0xe7 ∷ 0xe4 ∷ 0xd1 ∷ 0x3b ∷ 0x59 ∷ 0x15 ∷ []
unfolding cha_cha20_block initial_state rounds double_round quarter_at quarter_round rotl32
    store_sums load_le32 store_le32
block_vector = refl

abbrev some_nonce : List ℕ
some_nonce = replicate 12 3

abbrev gen : NonceGen
gen = record { counter = 0; salt = 77 }

nonce_gen_next-distinct_example :
    (nonce_gen_next (advanced 1 gen)).0 ≢ (nonce_gen_next (advanced 2 gen)).0
nonce_gen_next-distinct_example =
    nonce_gen_next-distinct 1 2 gen refl (omega arith) (omega arith) (λ e. omega arith)

abbrev line : List ℕ
line = 104 ∷ 105 ∷ 10 ∷ []

decrypt-encrypt_record_example :
    (obf_encrypt_record (some counted) (some gen) line (some 4096)
      ≡ some (build_record counted gen line))
    × (obf_decrypt_record
          (some counted)
          (some ((build_record counted gen line).0 ++ 9 ∷ []))
          (some 4096)
        ≡ some (line, (nonce_gen_next gen).0))
decrypt-encrypt_record_example =
    decrypt-encrypt_record counted gen line (9 ∷ []) 4096 4096 (omega arith) (omega arith)
      (omega arith)

append_obfuscated_lem_example : append_obfuscated (some counted) gen line ≡ (
    if ltb 0xffff (length line)
    then (none, gen)
    else (some (build_record counted gen line).0, (build_record counted gen line).1))
append_obfuscated_lem_example = append_obfuscated_lem counted gen line

decode_loop_enough_example :
    (decode_loop 4 counted line [] ≢ out_of_rounds)
    × (decode_loop 4 counted line [] ≡ decode_loop 9 counted line [])
decode_loop_enough_example = decode_loop_enough 4 9 counted line [] (omega arith) (omega arith)

abbrev lines : List (List ℕ)
lines = line ∷ (65 ∷ 10 ∷ []) ∷ []

deobfuscate-log_bytes_example :
    deobfuscate_log_file (some counted) true (log_bytes counted gen lines)
    ≡ some (some (kept_lines lines))
deobfuscate-log_bytes_example = deobfuscate-log_bytes counted gen lines true (λ e. omega arith)

deobfuscate-broken_example :
    deobfuscate_log_file
      (some counted)
      false
      (log_bytes counted gen lines ++ take 17 (build_record counted gen line).0)
    ≡ none
deobfuscate-broken_example =
    deobfuscate-broken counted gen gen lines line 17 false (omega arith) (omega arith) (omega arith)

deobfuscate_record_lem_example :
    deobfuscate_record counted (replicate 10 88) (build_record counted gen line).0
    ≡ some (
        line
        ++ (if ltb (16 + length line) (4 * 1024)
            then c_str (drop (length line) (replicate 10 88))
            else []))
deobfuscate_record_lem_example =
    deobfuscate_record_lem counted gen line (replicate 10 88) (omega arith)
      ((λ e. omega arith), ((λ e. omega arith), ((λ e. omega arith), tt)))
