-- ===== src/Obfuscation/File/Halting.antt =====
-- The loop of `DeobfuscateLogFile` ends: a round that goes on takes a whole header at least.
use mathlib.Core.Option
use logme.Prelude.{
  ℕ, zero, suc, ◌+◌, ◌-◌, ◌<◌, ◌≡◌, ◌≢◌, refl, ap, ◌==◌, Option, none, some, List, [], ◌∷◌, ◌++◌,
  drop, length, length-drop, ltb, Bool-cases, inl, inr, arith,
}
use logme.Obfuscation.Record.{signature, header_bytes}
use logme.Obfuscation.File.{
  Round, finished, failed, decoded, read_le16_from_file, next_is_record, checked, decode_body,
  decode_round, LoopEnd, out_of_rounds, refused, wrote, decode_loop,
}

-- What a round leaves is shorter than `n` bytes.
abbrev Leaves : ℕ → Round → Type 0
Leaves n finished = Unit
Leaves n failed = Unit
Leaves n (decoded plain rest) = length rest < n

checked-Leaves :
    (n : ℕ) (rest : List ℕ) (o : Option (List ℕ × List ℕ))
    → length rest < n
    → Leaves n (checked rest o)
unfolding checked
checked-Leaves n rest none h = tt
checked-Leaves n rest (some (plain, nonce)) h = elim (Bool-cases (next_is_record rest)) [
  | inl next ↦ rw next h
  | inr other ↦ rw other tt
]

decode_body-Leaves :
    (key : List ℕ) (sig n : ℕ) (o : Option (ℕ × List ℕ))
    → ((v : ℕ) (s : List ℕ) → o ≡ some (v, s) → length s < n)
    → Leaves n (decode_body key sig o)
unfolding decode_body
decode_body-Leaves key sig n none h = tt
decode_body-Leaves key sig n (some (len, s)) h =
    elim (Bool-cases (ltb (length s) (header_bytes + len - 4))) [
      | inl short ↦ rw short tt
      | inr whole ↦ rw whole (
          checked-Leaves n (drop (header_bytes + len - 4) s) _
            (omega (arith, length-drop (header_bytes + len - 4) s, h len s refl)))
    ]

read_shorter :
    (s : List ℕ) (v : ℕ) (t : List ℕ) → read_le16_from_file s ≡ some (v, t) → length t < length s
unfolding read_le16_from_file
read_shorter [] v t e = cc
read_shorter (a ∷ []) v t e = cc
read_shorter (a ∷ b ∷ s) v t e =
    omega (arith, ap (λ (p : ℕ × List ℕ). length p.1) (Option.some-injective _ _ e))

decode_round-Leaves :
    (key : List ℕ) (n : ℕ) (o : Option (ℕ × List ℕ))
    → ((v : ℕ) (s : List ℕ) → o ≡ some (v, s) → length s < n)
    → Leaves n (decode_round key o)
unfolding decode_round
decode_round-Leaves key n none h = tt
decode_round-Leaves key n (some (sig, s)) h = elim (Bool-cases (sig == signature)) [
  | inl record_next ↦ rw record_next (
      decode_body-Leaves key sig n (read_le16_from_file s)
        (λ v t e. omega (arith, read_shorter s v t e, h sig s refl)))
  | inr other ↦ rw other tt
]

-- The end of the loop behind a round.
abbrev after : ℕ → List ℕ → List ℕ → Round → LoopEnd
after fuel key out finished = wrote out
after fuel key out failed = refused
after fuel key out (decoded plain rest) = decode_loop fuel key rest (out ++ plain)

-- What follows a round, where the loop ends on anything shorter.
after_round :
    (f g : ℕ) (key out : List ℕ) (n : ℕ) (r : Round)
    → Leaves n r
    → ((rest o : List ℕ)
        → length rest < n
        → (decode_loop f key rest o ≢ out_of_rounds)
          × (decode_loop f key rest o ≡ decode_loop g key rest o))
    → (after f key out r ≢ out_of_rounds) × (after f key out r ≡ after g key out r)
after_round f g key out n finished h ends = (λ e. cc, refl)
after_round f g key out n failed h ends = (λ e. cc, refl)
after_round f g key out n (decoded plain rest) h ends = ends rest (out ++ plain) h

-- With more rounds than bytes the loop of `DeobfuscateLogFile` comes to its end, with an output or
-- with the return of false, and any further rounds change nothing.
pub decode_loop_enough :
    (f g : ℕ) (key s out : List ℕ)
    → length s < f
    → length s < g
    → (decode_loop f key s out ≢ out_of_rounds)
      × (decode_loop f key s out ≡ decode_loop g key s out)
unfolding decode_loop
decode_loop_enough zero g key s out h k = absurd (omega arith)
decode_loop_enough (suc f) zero key s out h k = absurd (omega arith)
decode_loop_enough (suc f) (suc g) key s out h k =
    after_round f g key out (length s) (decode_round key (read_le16_from_file s))
      (decode_round-Leaves key (length s) (read_le16_from_file s) (read_shorter s))
      (λ rest o l. decode_loop_enough f g key rest o (omega arith) (omega arith))
