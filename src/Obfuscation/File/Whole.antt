-- ===== src/Obfuscation/File/Whole.antt =====
-- `DeobfuscateLogFile` on a whole file of records, and on one that breaks off within a record.
use logme.Prelude.{
  ℕ, suc, ◌-◌, ◌*◌, ◌≤◌, ◌≡◌, ◌≢◌, refl, sym, ap, subst, ◌∙◌, Bool, true, some, List, [], ◌∷◌, ◌++◌,
  append-nil, length, length-append, ltb, Bool-cases, inl, inr, arith,
}
use logme.Obfuscation.Record.{NonceGen, build_record, header_bytes}
use logme.Obfuscation.Decoding.{build_record-length}
use logme.Obfuscation.File.{
  read_le16_from_file, next_is_record, decode_round, decode_loop, wrote, written,
  deobfuscate_log_file,
}
use logme.Obfuscation.File.Records.{
  log_bytes, kept_lines, kept_count, log_bytes-short, log_bytes-long, kept_short, kept_long,
  next_of_log, decode_loop-records,
}

-- A file of two bytes or more that begins with the signature goes to the loop.
pub deobfuscate-loop :
    (key s : List ℕ) (overwrite : Bool)
    → 2 ≤ length s
    → next_is_record s ≡ true
    → deobfuscate_log_file (some key) overwrite s ≡ written (decode_loop (suc (length s)) key s [])
unfolding deobfuscate_log_file next_is_record read_le16_from_file
deobfuscate-loop key [] overwrite h next = absurd (omega arith)
deobfuscate-loop key (a ∷ []) overwrite h next = absurd (omega arith)
deobfuscate-loop key (a ∷ b ∷ s) overwrite h next = rw next

-- Each kept line takes a header at least.
pub count_within :
    (key : List ℕ) (gen : NonceGen) (ps : List (List ℕ))
    → kept_count ps * header_bytes ≤ length (log_bytes key gen ps)
count_within key gen [] = omega arith
count_within key gen (p ∷ ps) = elim (Bool-cases (ltb 0xffff (length p))) [
  | inl long ↦ omega (
    arith,
    (kept_long p ps long).0,
    ap length (log_bytes-long key gen p ps long),
    count_within key gen ps,
  )
  | inr short ↦
      let r = (build_record key gen p).0 in
      let more = log_bytes key (build_record key gen p).1 ps in
      omega (
        arith,
        (kept_short p ps short).0,
        ap length (log_bytes-short key gen p ps short),
        length-append r more,
        build_record-length key gen p,
        count_within key (build_record key gen p).1 ps,
      )
]

pub end_is_next : next_is_record [] ≡ true
unfolding next_is_record read_le16_from_file
end_is_next = refl

-- The loop on records with something behind them, from the start of the file.
pub loop_on_records :
    (key : List ℕ) (gen : NonceGen) (ps : List (List ℕ)) (rest : List ℕ)
    → next_is_record rest ≡ true
    → (fuel : ℕ) × (length rest ≤ fuel)
      × (decode_loop
            (suc (length (log_bytes key gen ps ++ rest)))
            key
            (log_bytes key gen ps ++ rest)
            []
          ≡ decode_loop (suc fuel) key rest (kept_lines ps))
loop_on_records key gen ps rest h =
    let s = log_bytes key gen ps ++ rest in
    let size = length-append (log_bytes key gen ps) rest in
    let many = count_within key gen ps in
    let fuel = length s - kept_count ps in
    (
      fuel,
      omega (arith, size, many),
      ap (λ n. decode_loop n key s []) (omega (arith, size, many))
          ∙ decode_loop-records key gen ps rest [] (suc fuel) h,
    )

-- The loop ends where the file does.
loop_at_end : (fuel : ℕ) (key out : List ℕ) → decode_loop (suc fuel) key [] out ≡ wrote out
unfolding decode_loop decode_round read_le16_from_file
loop_at_end fuel key out = refl

-- A file to which `AppendObfuscated` wrote lines, of which one at least was not too long, is decoded
-- to these lines, but for the ones of more than 65535 bytes.
pub deobfuscate-log_bytes :
    (key : List ℕ) (gen : NonceGen) (ps : List (List ℕ)) (overwrite : Bool)
    → kept_count ps ≢ 0
    → deobfuscate_log_file (some key) overwrite (log_bytes key gen ps) ≡ some (some (kept_lines ps))
deobfuscate-log_bytes key gen ps overwrite h =
    let s = log_bytes key gen ps in
    let whole = append-nil s in
    let next = subst (λ t. next_is_record t ≡ true) whole (next_of_log key gen ps [] end_is_next) in
    let (fuel, _, e) = loop_on_records key gen ps [] end_is_next in
    deobfuscate-loop key s overwrite (omega (arith, count_within key gen ps)) next
    ∙ ap written (
        ap (λ t. decode_loop (suc (length t)) key t []) (sym whole)
        ∙ e
        ∙ loop_at_end fuel key (kept_lines ps))
