-- ===== src/Obfuscation/File.antt =====
-- `DeobfuscateLogFile` of Obfuscate.cpp, on the bytes of the input file. Reads stop at the end of
-- the file alone, and every write succeeds.
pub mod Records
pub mod Whole
pub mod Halting
pub mod Broken
use logme.Prelude.{
  ℕ, zero, suc, ◌+◌, ◌-◌, ◌*◌, ◌^◌, ◌==◌, Bool, true, false, not, Option, none, some, List, [], ◌∷◌,
  ◌++◌, take, drop, length, leb, ltb, if◌then◌else◌, bit_or,
}
use logme.Obfuscation.Bytes.{store_le16}
use logme.Obfuscation.Record.{obf_decrypt_record, signature, header_bytes}

-- `ReadLe16FromFile`: the number and what follows it. A single byte is no number.
unfoldable pub read_le16_from_file : List ℕ → Option (ℕ × List ℕ)
read_le16_from_file [] = none
read_le16_from_file (a ∷ []) = none
read_le16_from_file (a ∷ b ∷ s) = some (bit_or a (b * 2 ^ 8), s)

-- One round of the loop: its end, the return of false, or a plaintext and what follows its record.
pub data Round : Type 0 where
  finished failed : Round
  decoded : (plain rest : List ℕ) → Round

-- The structural check of what follows a record.
unfoldable pub next_is_record : List ℕ → Bool
unfolding read_le16_from_file
next_is_record s = elim (read_le16_from_file s) [ none ↦ true | some (v, _) ↦ v == signature ]

unfoldable pub checked : List ℕ → Option (List ℕ × List ℕ) → Round
unfolding next_is_record
checked rest none = failed
checked rest (some (plain, nonce)) = if next_is_record rest then decoded plain rest else failed

-- From the record's length on.
unfoldable pub decode_body : List ℕ → ℕ → Option (ℕ × List ℕ) → Round
unfolding checked store_le16
decode_body key sig none = failed
decode_body key sig (some (len, s)) =
    let left = header_bytes + len - 4 in
    if ltb (length s) left
    then failed
    else checked (drop left s) (
        obf_decrypt_record (some key) (some (store_le16 sig ++ (store_le16 len ++ take left s)))
          (some (if leb len (4 * 1024) then 4 * 1024 else len)))

unfoldable pub decode_round : List ℕ → Option (ℕ × List ℕ) → Round
unfolding decode_body read_le16_from_file
decode_round key none = finished
decode_round key (some (sig, s)) =
    if not (sig == signature) then failed else decode_body key sig (read_le16_from_file s)

-- How the loop ends: with the output, or with the return of false. `out_of_rounds` is no end of it:
-- the fuel of the model was too little.
pub data LoopEnd : Type 0 where
  out_of_rounds refused : LoopEnd
  wrote : (out : List ℕ) → LoopEnd

-- The loop, with the bytes that are written so far.
unfoldable pub decode_loop : ℕ → List ℕ → List ℕ → List ℕ → LoopEnd
unfolding decode_round read_le16_from_file
decode_loop zero key s out = out_of_rounds
decode_loop (suc fuel) key s out = elim (decode_round key (read_le16_from_file s)) [
  | finished ↦ wrote out
  | failed ↦ refused
  | decoded plain rest ↦ decode_loop fuel key rest (out ++ plain)
]

abbrev pub written : LoopEnd → Option (Option (List ℕ))
written out_of_rounds = none
written refused = none
written (wrote out) = some (some out)

-- The whole: `none` for the return of false, else the output if one is written. `overwrite` says
-- that the output replaces the input.
unfoldable pub deobfuscate_log_file : Option (List ℕ) → Bool → List ℕ → Option (Option (List ℕ))
unfolding decode_loop
deobfuscate_log_file none overwrite s = none
deobfuscate_log_file (some key) overwrite s = elim (read_le16_from_file s) [
  | none ↦ some none
  | some (sig, _) ↦
      if not (sig == signature)
      then (if overwrite then some none else some (some s))
      else written (decode_loop (suc (length s)) key s [])
]

unfoldable pub is_obfuscated_log_file : List ℕ → Bool
unfolding read_le16_from_file
is_obfuscated_log_file s = elim (read_le16_from_file s) [
  | none ↦ false
  | some (sig, _) ↦ sig == signature
]
