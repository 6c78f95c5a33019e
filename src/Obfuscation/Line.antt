-- ===== src/Obfuscation/Line.antt =====
-- `Logger::DeobfuscateRecord` of Obfuscate.cpp.
use logme.Prelude.{
  ℕ, zero, suc, ◌+◌, ◌*◌, ◌^◌, ◌<◌, ◌≡◌, ◌≢◌, refl, ap, ◌∙◌, Option, none, some, List, [], ◌∷◌,
  ◌++◌, All, length, drop, replicate, ltb, if◌then◌else◌, Bool-cases, inl, inr, arith,
}
use logme.Text.Trim.{c_str}
use logme.Obfuscation.Record.{NonceGen, build_record, obf_decrypt_record, header_bytes}
use logme.Obfuscation.Decoding.{build_record-length, decrypt-build_record}

-- The text that a pointer to the buffer stands for, of which `rest` follows the plaintext.
unfoldable pub line_of : List ℕ → Option (List ℕ × List ℕ) → Option (List ℕ)
unfolding c_str
line_of buffer none = none
line_of buffer (some (plain, nonce)) = some (c_str (plain ++ drop (length plain) buffer))

-- `stale` is what the array on the stack holds before; the vector is filled with zeros.
unfoldable pub deobfuscate_record : List ℕ → List ℕ → List ℕ → Option (List ℕ)
unfolding line_of
deobfuscate_record key stale r =
    if ltb (length r) header_bytes
    then none
    else if ltb (length r) (4 * 1024)
    then line_of stale (obf_decrypt_record (some key) (some r) (some (4 * 1024)))
    else line_of (replicate (length r) 0) (obf_decrypt_record (some key) (some r) (some (length r)))

c_str-append : (s t : List ℕ) → All (λ c. c ≢ 0) s → c_str (s ++ t) ≡ s ++ c_str t
unfolding c_str
c_str-append [] t h = refl
c_str-append (c ∷ s) t h = ground (arith, c_str-append s t h.1)

c_str-drop-replicate : (n m : ℕ) → c_str (drop n (replicate m 0)) ≡ []
unfolding c_str
c_str-drop-replicate zero zero = refl
c_str-drop-replicate zero (suc m) = refl
c_str-drop-replicate (suc n) zero = refl
c_str-drop-replicate (suc n) (suc m) = c_str-drop-replicate n m

-- A line without zero bytes that was encrypted, on its way back: where its record has 4096 bytes or
-- more it comes back as it was; a shorter one has what was on the stack behind it.
pub deobfuscate_record_lem :
    (key : List ℕ) (gen : NonceGen) (p stale : List ℕ)
    → length p < 2 ^ 16
    → All (λ c. c ≢ 0) p
    → deobfuscate_record key stale (build_record key gen p).0
      ≡ some (
          p
          ++ (if ltb (header_bytes + length p) (4 * 1024)
              then c_str (drop (length p) stale)
              else []))
unfolding deobfuscate_record line_of
deobfuscate_record_lem key gen p stale h k =
    let size = build_record-length key gen p in
    let long =
      c_str-append p (drop (length p) (replicate (header_bytes + length p) 0)) k
      ∙ ap (λ t. p ++ t) (c_str-drop-replicate (length p) (header_bytes + length p)) in
    let short = c_str-append p (drop (length p) stale) k in
    rw size (elim (Bool-cases (ltb (header_bytes + length p) (4 * 1024))) [
      | inl small ↦
          rw (decrypt-build_record key gen p (4 * 1024) h (ground arith), small, short)
            (ground arith)
      | inr large ↦
          rw (decrypt-build_record key gen p (header_bytes + length p) h (omega arith), large, long)
            (ground arith)
    ])
