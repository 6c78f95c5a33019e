-- ===== src/Obfuscation/File/Records.antt =====
-- A file of the records that `FileBackend::AppendObfuscated` made is decoded to their lines.
use logme.Prelude.{
  ℕ, suc, ◌+◌, ◌-◌, ◌*◌, ◌^◌, ◌%◌, ◌/◌, ◌<◌, ◌≡◌, refl, sym, ap, ◌∙◌, true, false, Option, none,
  some, List, [], ◌∷◌, ◌++◌, append-nil, append_assoc, take-append, drop-append, length,
  length-append, leb, ltb, if◌then◌else◌, Bool-cases, inl, inr, arith,
}
use logme.Obfuscation.Bytes.{byte, store_le16, load-store_le16, load_le16}
use logme.Obfuscation.Cipher.{cha_cha20_xor}
use logme.Obfuscation.Involution.{cha_cha20_xor-length}
use logme.Obfuscation.Record.{
  NonceGen, nonce_gen_next, build_record, append_obfuscated, obf_decrypt_record, signature,
  header_bytes,
}
use logme.Obfuscation.Decoding.{nonce-length, decrypt-build_record, append_obfuscated_lem}
use logme.Obfuscation.File.{
  decoded, read_le16_from_file, next_is_record, checked, decode_body, decode_round, decode_loop,
}

-- What is behind the length of a record.
abbrev pub body : List ℕ → NonceGen → List ℕ → List ℕ
body key gen p = (nonce_gen_next gen).0 ++ cha_cha20_xor key (nonce_gen_next gen).0 1 p

pub body-length :
    (key : List ℕ) (gen : NonceGen) (p : List ℕ) → length (body key gen p) ≡ 12 + length p
body-length key gen p = omega (
  arith,
  length-append (nonce_gen_next gen).0 (cha_cha20_xor key (nonce_gen_next gen).0 1 p),
  nonce-length gen,
  cha_cha20_xor-length key (nonce_gen_next gen).0 1 p,
)

pub read_signature :
    (s : List ℕ) → read_le16_from_file (store_le16 signature ++ s) ≡ some (signature, s)
unfolding read_le16_from_file store_le16
read_signature s = refl

pub read_size :
    (n : ℕ) (s : List ℕ)
    → n < 2 ^ 16
    → read_le16_from_file (store_le16 (n % 2 ^ 16) ++ s) ≡ some (n, s)
unfolding read_le16_from_file store_le16 load_le16
read_size n s h =
    ap (λ v. some (v, s)) (load-store_le16 (n % 2 ^ 16) s (omega arith) ∙ omega (arith, h))

-- The two halves of a record.
pub build_record-body :
    (key : List ℕ) (gen : NonceGen) (p : List ℕ)
    → (build_record key gen p).0
      ≡ store_le16 signature ++ (store_le16 (length p % 2 ^ 16) ++ body key gen p)
unfolding build_record
build_record-body key gen p = refl

store_small : (n : ℕ) → n < 2 ^ 16 → store_le16 (n % 2 ^ 16) ≡ store_le16 n
unfolding store_le16
store_small n h = ap (λ v. byte v ∷ byte (v / 2 ^ 8) ∷ []) (omega (arith, h))

-- The body is read, and its record put together again.
decode-body :
    (key : List ℕ) (gen : NonceGen) (p rest : List ℕ)
    → length p < 2 ^ 16
    → next_is_record rest ≡ true
    → decode_body key signature (some (length p, body key gen p ++ rest)) ≡ decoded p rest
unfolding decode_body checked
decode-body key gen p rest h next =
    let b = body key gen p in
    let left = header_bytes + length p - 4 in
    let same : left ≡ length b = omega (arith, body-length key gen p) in
    let taken = take-append b rest left same in
    let dropped = drop-append b rest left same in
    let whole =
      build_record-body key gen p
      ∙ ap (λ t. store_le16 signature ++ (t ++ b)) (store_small (length p) h) in
    let capacity = if leb (length p) (4 * 1024) then 4 * 1024 else length p in
    let e =
      ap (λ t. obf_decrypt_record (some key) (some t) (some capacity)) (sym whole)
      ∙ decrypt-build_record key gen p capacity h (ground arith) in
    rw (taken, dropped, e, next) (ground (arith, same, length-append b rest))

-- One round takes one record.
decode_round-record :
    (key : List ℕ) (gen : NonceGen) (p rest : List ℕ)
    → length p < 2 ^ 16
    → next_is_record rest ≡ true
    → decode_round key (read_le16_from_file ((build_record key gen p).0 ++ rest)) ≡ decoded p rest
unfolding decode_round
decode_round-record key gen p rest h next =
    let b = body key gen p in
    let whole =
      ap (λ t. t ++ rest) (build_record-body key gen p)
      ∙ append_assoc (store_le16 signature) (store_le16 (length p % 2 ^ 16) ++ b) rest
      ∙ ap (λ t. store_le16 signature ++ t)
          (append_assoc (store_le16 (length p % 2 ^ 16)) b rest) in
    ap (λ t. decode_round key (read_le16_from_file t)) whole
    ∙ ap (decode_round key) (read_signature (store_le16 (length p % 2 ^ 16) ++ (b ++ rest)))
    ∙ ap (decode_body key signature) (read_size (length p) (b ++ rest) h)
    ∙ decode-body key gen p rest h next

-- What the backend writes for some lines: a line that gives no record is left out.
abbrev pub entry : Option (List ℕ) → List ℕ
entry none = []
entry (some r) = r

abbrev pub log_bytes : List ℕ → NonceGen → List (List ℕ) → List ℕ
log_bytes key gen [] = []
log_bytes key gen (p ∷ ps) =
    let (r, gen') = append_obfuscated (some key) gen p in entry r ++ log_bytes key gen' ps

-- The lines that fit in a record, in one text.
abbrev pub kept_lines : List (List ℕ) → List ℕ
kept_lines [] = []
kept_lines (p ∷ ps) = (if ltb 0xffff (length p) then [] else p) ++ kept_lines ps

-- The number of them.
abbrev pub kept_count : List (List ℕ) → ℕ
kept_count [] = 0
kept_count (p ∷ ps) = (if ltb 0xffff (length p) then 0 else 1) + kept_count ps

pub log_bytes-long :
    (key : List ℕ) (gen : NonceGen) (p : List ℕ) (ps : List (List ℕ))
    → ltb 0xffff (length p) ≡ true
    → log_bytes key gen (p ∷ ps) ≡ log_bytes key gen ps
log_bytes-long key gen p ps h =
    let e : append_obfuscated (some key) gen p ≡ (none, gen) =
      append_obfuscated_lem key gen p ∙ rw h in
    ap (λ t. entry t.0 ++ log_bytes key t.1 ps) e

pub log_bytes-short :
    (key : List ℕ) (gen : NonceGen) (p : List ℕ) (ps : List (List ℕ))
    → ltb 0xffff (length p) ≡ false
    → log_bytes key gen (p ∷ ps)
      ≡ (build_record key gen p).0 ++ log_bytes key (build_record key gen p).1 ps
log_bytes-short key gen p ps h =
    let e : append_obfuscated (some key) gen p
        ≡ (some (build_record key gen p).0, (build_record key gen p).1) =
      append_obfuscated_lem key gen p ∙ rw h in
    ap (λ t. entry t.0 ++ log_bytes key t.1 ps) e

next_of_record :
    (key : List ℕ) (gen : NonceGen) (p rest : List ℕ)
    → next_is_record ((build_record key gen p).0 ++ rest) ≡ true
unfolding next_is_record build_record store_le16 read_le16_from_file
next_of_record key gen p rest = refl

pub next_of_log :
    (key : List ℕ) (gen : NonceGen) (ps : List (List ℕ)) (rest : List ℕ)
    → next_is_record rest ≡ true
    → next_is_record (log_bytes key gen ps ++ rest) ≡ true
next_of_log key gen [] rest h = h
next_of_log key gen (p ∷ ps) rest h = elim (Bool-cases (ltb 0xffff (length p))) [
  | inl long ↦
      ap (λ t. next_is_record (t ++ rest)) (log_bytes-long key gen p ps long)
      ∙ next_of_log key gen ps rest h
  | inr short ↦
      ap (λ t. next_is_record (t ++ rest)) (log_bytes-short key gen p ps short)
      ∙ ap next_is_record (append_assoc (build_record key gen p).0 _ rest)
      ∙ next_of_record key gen p _
]

pub kept_long :
    (p : List ℕ) (ps : List (List ℕ))
    → ltb 0xffff (length p) ≡ true
    → (kept_count (p ∷ ps) ≡ kept_count ps) × (kept_lines (p ∷ ps) ≡ kept_lines ps)
kept_long p ps h = (rw h (omega arith), rw h)

pub kept_short :
    (p : List ℕ) (ps : List (List ℕ))
    → ltb 0xffff (length p) ≡ false
    → (kept_count (p ∷ ps) ≡ suc (kept_count ps)) × (kept_lines (p ∷ ps) ≡ p ++ kept_lines ps)
kept_short p ps h = (rw h (omega arith), rw h)

decode_loop-suc :
    (fuel : ℕ) (key s out plain rest : List ℕ)
    → decode_round key (read_le16_from_file s) ≡ decoded plain rest
    → decode_loop (suc fuel) key s out ≡ decode_loop fuel key rest (out ++ plain)
unfolding decode_loop
decode_loop-suc fuel key s out plain rest e = rw (decode_loop, e)

-- The loop goes through the records and then meets what follows them.
pub decode_loop-records :
    (key : List ℕ) (gen : NonceGen) (ps : List (List ℕ)) (rest out : List ℕ) (fuel : ℕ)
    → next_is_record rest ≡ true
    → decode_loop (kept_count ps + fuel) key (log_bytes key gen ps ++ rest) out
      ≡ decode_loop fuel key rest (out ++ kept_lines ps)
decode_loop-records key gen [] rest out fuel h =
    ap (λ n. decode_loop n key rest out) (omega arith)
    ∙ ap (decode_loop fuel key rest) (sym (append-nil out))
decode_loop-records key gen (p ∷ ps) rest out fuel h = elim (Bool-cases (ltb 0xffff (length p))) [
  | inl long ↦
      let (count, lines) = kept_long p ps long in
      ap (λ n. decode_loop (n + fuel) key (log_bytes key gen (p ∷ ps) ++ rest) out) count
      ∙ ap (λ t. decode_loop (kept_count ps + fuel) key (t ++ rest) out)
          (log_bytes-long key gen p ps long)
      ∙ decode_loop-records key gen ps rest out fuel h
      ∙ ap (λ t. decode_loop fuel key rest (out ++ t)) (sym lines)
  | inr short ↦
      let (count, lines) = kept_short p ps short in
      let gen' = (build_record key gen p).1 in
      let r = (build_record key gen p).0 in
      let more = log_bytes key gen' ps ++ rest in
      ap (λ n. decode_loop n key (log_bytes key gen (p ∷ ps) ++ rest) out) (omega (arith, count))
      ∙ ap (λ t. decode_loop (suc (kept_count ps + fuel)) key t out)
          (ap (λ t. t ++ rest) (log_bytes-short key gen p ps short)
            ∙ append_assoc r (log_bytes key gen' ps) rest)
      ∙ decode_loop-suc (kept_count ps + fuel) key (r ++ more) out p more
          (decode_round-record key gen p more (ground arith) (next_of_log key gen' ps rest h))
      ∙ decode_loop-records key gen' ps rest (out ++ p) fuel h
      ∙ ap (decode_loop fuel key rest)
          (append_assoc out p (kept_lines ps) ∙ ap (λ t. out ++ t) (sym lines))
]
