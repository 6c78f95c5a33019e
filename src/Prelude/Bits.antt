-- ===== src/Prelude/Bits.antt =====
-- Laws of the native operations on binary digits.
use Prim.Native.Nat.{
  ℕ, zero, suc, ◌+◌, ◌*◌, ◌/◌, ◌%◌, ◌^◌, ◌≤◌, ◌<◌, max, bit_or, bit_xor, digits, bitwise, differ,
  bit_or-bitwise, bit_xor-bitwise,
}
use mathlib.Core.Path.{◌≡◌, refl, ◌∙◌, ap}
use native.Mathlib.Omega.{arith}
use native.Mathlib.Nat.{two-pow-succ}

-- An operation that gives its second argument where the first is 0.
module _ (f : ℕ → ℕ → ℕ) (f-zero : (y : ℕ) → f 0 y ≡ y) where
  rounds_enough : (n m a b : ℕ) → a ≤ n → a ≤ m → digits (λ y. y) f n a b ≡ digits (λ y. y) f m a b
  rounds_enough zero zero a b h k = refl
  rounds_enough zero (suc m) zero b h k = refl
  rounds_enough (suc n) zero zero b h k = refl
  rounds_enough (suc n) (suc m) zero b h k = refl
  rounds_enough zero m (suc a) b h k = absurd (omega arith)
  rounds_enough (suc n) zero (suc a) b h k = absurd (omega arith)
  rounds_enough (suc n) (suc m) (suc a) b h k =
      ap (λ r. r * 2 + f (suc a % 2) (b % 2))
        (rounds_enough n m (suc a / 2) (b / 2) (omega arith) (omega arith))

  bitwise_lowest :
      (a b : ℕ)
      → bitwise (λ y. y) f a b ≡ bitwise (λ y. y) f (a / 2) (b / 2) * 2 + f (a % 2) (b % 2)
  bitwise_lowest zero b = omega (arith, f-zero (b % 2))
  bitwise_lowest (suc a) b =
      ap (λ r. r * 2 + f (suc a % 2) (b % 2))
        (rounds_enough a (suc a / 2) (suc a / 2) (b / 2) (omega arith) (omega arith))

-- The lowest digit of a result, and the others.
pub bit_xor_lowest : (a b : ℕ) → bit_xor a b ≡ bit_xor (a / 2) (b / 2) * 2 + differ (a % 2) (b % 2)
bit_xor_lowest a b = omega (
  arith,
  bitwise_lowest differ (λ y. refl) a b,
  bit_xor-bitwise a b,
  bit_xor-bitwise (a / 2) (b / 2),
)

pub bit_or_lowest : (a b : ℕ) → bit_or a b ≡ bit_or (a / 2) (b / 2) * 2 + max (a % 2) (b % 2)
bit_or_lowest a b = omega (
  arith,
  bitwise_lowest max (λ y. omega arith) a b,
  bit_or-bitwise a b,
  bit_or-bitwise (a / 2) (b / 2),
)

differ_twice : (x y : ℕ) → x < 2 → y < 2 → (differ x y < 2) × (differ (differ x y) y ≡ x)
differ_twice zero zero h k = (omega arith, refl)
differ_twice zero (suc zero) h k = (omega arith, refl)
differ_twice (suc zero) zero h k = (omega arith, refl)
differ_twice (suc zero) (suc zero) h k = (omega arith, refl)
differ_twice (suc (suc x)) y h k = absurd (omega arith)
differ_twice zero (suc (suc y)) h k = absurd (omega arith)
differ_twice (suc zero) (suc (suc y)) h k = absurd (omega arith)

halves_less : (n a b : ℕ) → a + b ≤ suc n → a / 2 + b / 2 ≤ n
halves_less n a b h = omega arith

xor_twice_within : (n a b : ℕ) → a + b ≤ n → bit_xor (bit_xor a b) b ≡ a
xor_twice_within n zero zero h = refl
xor_twice_within zero (suc a) b h = absurd (omega arith)
xor_twice_within zero zero (suc b) h = absurd (omega arith)
xor_twice_within (suc n) a b h =
    let x = bit_xor (a / 2) (b / 2) in
    let d = differ (a % 2) (b % 2) in
    let e : bit_xor a b ≡ x * 2 + d = bit_xor_lowest a b in
    let (small, back) = differ_twice (a % 2) (b % 2) (omega arith) (omega arith) in
    let upper : bit_xor a b / 2 ≡ x = omega (arith, e, small) in
    let lower : bit_xor a b % 2 ≡ d = omega (arith, e, small) in
    bit_xor_lowest (bit_xor a b) b
    ∙ ap (λ y. bit_xor y (b / 2) * 2 + differ (bit_xor a b % 2) (b % 2)) upper
    ∙ ap (λ y. bit_xor x (b / 2) * 2 + differ y (b % 2)) lower
    ∙ omega (arith, xor_twice_within n (a / 2) (b / 2) (halves_less n a b h), back)

pub bit_xor_twice : (a b : ℕ) → bit_xor (bit_xor a b) b ≡ a
bit_xor_twice a b = xor_twice_within (a + b) a b (omega arith)

halved : (c : ℕ) → c * 2 / 2 ≡ c
halved c = omega arith

-- Two numbers that have no digit in common are put side by side.
pub bit_or-shifted : (k a b : ℕ) → a < 2 ^ k → bit_or a (b * 2 ^ k) ≡ a + b * 2 ^ k
bit_or-shifted zero zero b h = bit_or-bitwise 0 (b * 1) ∙ omega arith
bit_or-shifted zero (suc a) b h = absurd (omega arith)
bit_or-shifted (suc k) a b h =
    let c = b * 2 ^ k in
    let doubled : b * 2 ^ suc k ≡ c * 2 = omega (arith, ap (λ p. b * p) (two-pow-succ k)) in
    let rest = bit_or-shifted k (a / 2) b (omega (arith, two-pow-succ k)) in
    ap (bit_or a) doubled
    ∙ bit_or_lowest a (c * 2)
    ∙ ap (λ y. bit_or (a / 2) y * 2 + max (a % 2) (c * 2 % 2)) (halved c)
    ∙ omega (arith, rest, doubled)
