-- ===== src/Base/Bits.antt =====
-- Bitwise operations at variables: the laws of the lowest digit and what follows for masks,
-- shifted groups and complements.
use Prim.Native.Nat.{
  ℕ, zero, suc, ◌+◌, ◌-◌, ◌*◌, ◌/◌, ◌%◌, ◌^◌, ◌≤◌, ◌<◌, min, max, bit_and, bit_or, bit_xor, digits,
  differ, bit_and-bitwise, bit_or-bitwise, bit_xor-bitwise,
}
use mathlib.Core.Path.{◌≡◌, refl, sym, ap, ◌∙◌}
use native.Mathlib.Nat.{pow-suc, one-le-pow, mul_assoc, mul_comm, mod-add-div', div-div-eq-div-mul}
use native.Mathlib.Omega.{arith}

-- The digit-wise operation does not depend on spare fuel.
module _ (z : ℕ → ℕ) (f : ℕ → ℕ → ℕ) where
  spare : (n m a b : ℕ) → a ≤ n → a ≤ m → digits z f n a b ≡ digits z f m a b
  spare zero zero a b p q = refl
  spare zero (suc m) (suc a) b p q = absurd (omega arith)
  spare (suc n) zero (suc a) b p q = absurd (omega arith)
  spare zero (suc m) zero b p q = refl
  spare (suc n) zero zero b p q = refl
  spare (suc n) (suc m) zero b p q = refl
  spare (suc n) (suc m) (suc a) b p q =
      ap (λ t. t * 2 + f (suc a % 2) (b % 2))
        (spare n m (suc a / 2) (b / 2) (omega arith) (omega arith))

  lowest :
      (a b : ℕ)
      → digits z f (suc a) (suc a) b
        ≡ digits z f (suc a / 2) (suc a / 2) (b / 2) * 2 + f (suc a % 2) (b % 2)
  lowest a b =
      ap (λ t. t * 2 + f (suc a % 2) (b % 2))
        (spare a (suc a / 2) (suc a / 2) (b / 2) (omega arith) (omega arith))

bit_and-lowest : (a b : ℕ) → bit_and a b ≡ bit_and (a / 2) (b / 2) * 2 + min (a % 2) (b % 2)
bit_and-lowest zero b = omega (arith, bit_and-bitwise 0 b, bit_and-bitwise 0 (b / 2))
bit_and-lowest (suc a) b = omega (
  arith,
  lowest (λ y. zero) min a b,
  bit_and-bitwise (suc a) b,
  bit_and-bitwise (suc a / 2) (b / 2),
)

bit_or-lowest : (a b : ℕ) → bit_or a b ≡ bit_or (a / 2) (b / 2) * 2 + max (a % 2) (b % 2)
bit_or-lowest zero b = omega (arith, bit_or-bitwise 0 b, bit_or-bitwise 0 (b / 2))
bit_or-lowest (suc a) b =
    omega
      (arith, lowest (λ y. y) max a b, bit_or-bitwise (suc a) b, bit_or-bitwise (suc a / 2) (b / 2))

bit_xor-lowest : (a b : ℕ) → bit_xor a b ≡ bit_xor (a / 2) (b / 2) * 2 + differ (a % 2) (b % 2)
bit_xor-lowest zero b = omega (arith, bit_xor-bitwise 0 b, bit_xor-bitwise 0 (b / 2))
bit_xor-lowest (suc a) b = omega (
  arith,
  lowest (λ y. y) differ a b,
  bit_xor-bitwise (suc a) b,
  bit_xor-bitwise (suc a / 2) (b / 2),
)

-- The ones of `k + 1` digits are a one before the ones of `k` digits.
ones_half : (k : ℕ) → (2 ^ suc k - 1) / 2 ≡ 2 ^ k - 1
ones_half k = omega (arith, pow-suc 2 k, one-le-pow k 2 (omega arith))

ones_odd : (k : ℕ) → (2 ^ suc k - 1) % 2 ≡ 1
ones_odd k = omega (arith, pow-suc 2 k, one-le-pow k 2 (omega arith))

differ-zero : (x : ℕ) → differ x 0 ≡ x
differ-zero zero = refl
differ-zero (suc x) = refl

differ-one : (x : ℕ) → x < 2 → differ x 1 ≡ 1 - x
differ-one zero h = refl
differ-one (suc zero) h = refl
differ-one (suc (suc x)) h = absurd (omega arith)

bit_and-zero : (a : ℕ) → bit_and a 0 ≡ 0
bit_and-zero zero = refl
bit_and-zero (suc a) = bit_and-bitwise (suc a) 0 ∙ all_zero (suc a) (suc a)
  where
    all_zero : (n x : ℕ) → digits (λ y. zero) min n x 0 ≡ 0
    all_zero zero x = refl
    all_zero (suc n) zero = refl
    all_zero (suc n) (suc x) = omega (arith, all_zero n (suc x / 2))

pub bit_xor-zero : (a : ℕ) → bit_xor a 0 ≡ a
bit_xor-zero a = bit_xor-bitwise a 0 ∙ kept a a (omega arith)
  where
    kept : (n x : ℕ) → x ≤ n → digits (λ y. y) differ n x 0 ≡ x
    kept zero zero h = refl
    kept zero (suc x) h = absurd (omega arith)
    kept (suc n) zero h = refl
    kept (suc n) (suc x) h =
        omega (arith, kept n (suc x / 2) (omega arith), differ-zero (suc x % 2))

twice : (b p : ℕ) → b * (p * 2) ≡ b * p * 2
twice b p = sym (mul_assoc b p 2)

mod_double : (a p : ℕ) → a % (p * 2) ≡ a / 2 % p * 2 + a % 2
mod_double a p = omega (
  arith,
  mod-add-div' a (p * 2),
  mod-add-div' (a / 2) p,
  twice (a / (p * 2)) p,
  ap (λ t. t * p) (div-div-eq-div-mul a 2 p ∙ ap (λ t. a / t) (mul_comm 2 p)),
)

-- A mask of ones keeps the low digits.
pub bit_and-ones : (k a : ℕ) → bit_and a (2 ^ k - 1) ≡ a % 2 ^ k
bit_and-ones zero a = omega (arith, bit_and-zero a)
bit_and-ones (suc k) a =
    bit_and-lowest a (2 ^ suc k - 1)
    ∙ rw (ones_half k, ones_odd k, bit_and-ones k (a / 2))
        (omega (arith, pow-suc 2 k, mod_double a (2 ^ k), ap (λ t. a % t) (pow-suc 2 k)))

-- Groups of digits that do not overlap add up.
pub bit_or-shifted : (k a b : ℕ) → a < 2 ^ k → bit_or a (b * 2 ^ k) ≡ a + b * 2 ^ k
bit_or-shifted zero zero b h = omega (arith, bit_or-bitwise 0 (b * 1))
bit_or-shifted zero (suc a) b h = absurd (omega arith)
bit_or-shifted (suc k) a b h =
    bit_or-lowest a (b * 2 ^ suc k)
    ∙ rw (half, even, bit_or-shifted k (a / 2) b (omega (arith, pow-suc 2 k)))
        (omega (arith, half, even))
  where
    half : b * 2 ^ suc k / 2 ≡ b * 2 ^ k
    half = omega (arith, ap (λ t. b * t) (pow-suc 2 k), twice b (2 ^ k))

    even : b * 2 ^ suc k % 2 ≡ 0
    even = omega (arith, ap (λ t. b * t) (pow-suc 2 k), twice b (2 ^ k))

-- Against ones, the exclusive or is the complement.
pub bit_xor-ones : (k a : ℕ) → a < 2 ^ k → bit_xor a (2 ^ k - 1) ≡ 2 ^ k - 1 - a
bit_xor-ones zero zero h = refl
bit_xor-ones zero (suc a) h = absurd (omega arith)
bit_xor-ones (suc k) a h =
    bit_xor-lowest a (2 ^ suc k - 1)
    ∙ rw
        (
          ones_half k,
          ones_odd k,
          bit_xor-ones k (a / 2) (omega (arith, pow-suc 2 k)),
          differ-one (a % 2) (omega arith),
        )
        (omega (arith, pow-suc 2 k, h))

halve : (p : ℕ) → p * 2 / 2 ≡ p
halve p = omega arith

-- `a & 2^k` is the digit at `k`.
pub bit_and-power : (k a : ℕ) → bit_and a (2 ^ k) ≡ a / 2 ^ k % 2 * 2 ^ k
bit_and-power zero a = bit_and-ones 1 a ∙ omega arith
bit_and-power (suc k) a =
    bit_and-lowest a (2 ^ suc k)
    ∙ rw (ap (λ t. t / 2) (pow-suc 2 k), halve (2 ^ k), bit_and-power k (a / 2))
        (omega (
          arith,
          pow-suc 2 k,
          twice (a / 2 ^ suc k % 2) (2 ^ k),
          ap (λ t. t % 2 * 2 ^ k)
              (div-div-eq-div-mul a 2 (2 ^ k)
                ∙ ap (λ t. a / t) (mul_comm 2 (2 ^ k) ∙ sym (pow-suc 2 k))),
          ap (λ t. a / 2 ^ suc k % 2 * t) (pow-suc 2 k),
        ))
