-- ===== src/Obfuscation/File/Broken.antt =====
-- `DeobfuscateLogFile` on a file that breaks off within a record.
use logme.Prelude.{
  ℕ, zero, suc, ◌+◌, ◌^◌, ◌%◌, ◌≤◌, ◌<◌, ◌≡◌, refl, ap, ◌∙◌, Bool, true, none, some, List, ◌++◌,
  take, length, length-append, length-take, arith,
}
use logme.Obfuscation.Bytes.{store_le16}
use logme.Obfuscation.Record.{NonceGen, build_record, signature}
use logme.Obfuscation.Decoding.{build_record-length}
use logme.Obfuscation.File.{
  failed, read_le16_from_file, next_is_record, decode_body, decode_round, decode_loop, refused,
  written, deobfuscate_log_file,
}
use logme.Obfuscation.File.Records.{
  body, body-length, log_bytes, kept_lines, next_of_log, read_size, read_signature,
}
use logme.Obfuscation.File.Whole.{deobfuscate-loop, loop_on_records}

-- A part of a record's body, or of the length before it.
body_on_part :
    (key : List ℕ) (gen : NonceGen) (p : List ℕ) (n : ℕ)
    → length p < 2 ^ 16
    → n < 14 + length p
    → decode_body key signature
        (read_le16_from_file (take n (store_le16 (length p % 2 ^ 16) ++ body key gen p)))
      ≡ failed
unfolding decode_body read_le16_from_file store_le16
body_on_part key gen p zero h k = refl
body_on_part key gen p (suc zero) h k = refl
body_on_part key gen p (suc (suc m)) h k =
    let part = take m (body key gen p) in
    ap (decode_body key signature) (read_size (length p) part h)
    ∙ ground (arith, length-take m (body key gen p), body-length key gen p)

part_of_record :
    (key : List ℕ) (gen : NonceGen) (p : List ℕ) (n : ℕ)
    → take (suc (suc n)) (build_record key gen p).0
      ≡ store_le16 signature ++ take n (store_le16 (length p % 2 ^ 16) ++ body key gen p)
unfolding build_record store_le16
part_of_record key gen p n = refl

round_on_part :
    (key : List ℕ) (gen : NonceGen) (p : List ℕ) (n : ℕ)
    → length p < 2 ^ 16
    → n < 14 + length p
    → decode_round key (read_le16_from_file (take (suc (suc n)) (build_record key gen p).0))
      ≡ failed
unfolding decode_round
round_on_part key gen p n h k =
    let rest = take n (store_le16 (length p % 2 ^ 16) ++ body key gen p) in
    ap (λ t. decode_round key (read_le16_from_file t)) (part_of_record key gen p n)
    ∙ ap (decode_round key) (read_signature rest)
    ∙ body_on_part key gen p n h k

next_of_part :
    (key : List ℕ) (gen : NonceGen) (p : List ℕ) (n : ℕ)
    → next_is_record (take (suc (suc n)) (build_record key gen p).0) ≡ true
unfolding next_is_record build_record store_le16 read_le16_from_file
next_of_part key gen p n = refl

loop_failed :
    (fuel : ℕ) (key s out : List ℕ)
    → decode_round key (read_le16_from_file s) ≡ failed
    → decode_loop (suc fuel) key s out ≡ refused
unfolding decode_loop
loop_failed fuel key s out e = rw (decode_loop, e)

-- A file of records with a part of one more behind them, of two bytes at least, is refused.
pub deobfuscate-broken :
    (key : List ℕ) (gen last : NonceGen) (ps : List (List ℕ)) (p : List ℕ) (n : ℕ)
    (overwrite : Bool)
    → length p < 2 ^ 16
    → 2 ≤ n
    → n < 16 + length p
    → deobfuscate_log_file
        (some key)
        overwrite
        (log_bytes key gen ps ++ take n (build_record key last p).0)
      ≡ none
deobfuscate-broken key gen last ps p zero overwrite h k l = absurd (omega arith)
deobfuscate-broken key gen last ps p (suc zero) overwrite h k l = absurd (omega arith)
deobfuscate-broken key gen last ps p (suc (suc n)) overwrite h k l =
    let part = take (suc (suc n)) (build_record key last p).0 in
    let next = next_of_part key last p n in
    let (fuel, _, e) = loop_on_records key gen ps part next in
    deobfuscate-loop key (log_bytes key gen ps ++ part) overwrite
      (omega (
        arith,
        length-append (log_bytes key gen ps) part,
        length-take (suc (suc n)) (build_record key last p).0,
        build_record-length key last p,
      ))
      (next_of_log key gen ps part next)
    ∙ ap written
        (e ∙ loop_failed fuel key part (kept_lines ps) (round_on_part key last p n h (omega arith)))
