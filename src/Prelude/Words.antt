-- ===== src/Prelude/Words.antt =====
-- Machine words as native numbers, their wrap-around written out.
use Prim.Native.Nat.{ℕ, ◌+◌, ◌-◌, ◌%◌, ◌^◌}

-- The number of values of a `uint64_t` or a 64-bit `size_t`.
abbrev pub u64_mod : ℕ
u64_mod = 2 ^ 64

abbrev pub add64 : ℕ → ℕ → ℕ
add64 a b = (a + b) % u64_mod

abbrev pub sub64 : ℕ → ℕ → ℕ
sub64 a b = (a + u64_mod - b) % u64_mod
