-- ===== src/Base/Int.antt =====
-- Signed integers over the native numbers, under the library's names. Orders go through the two
-- parts of an integer, which are numbers that the arithmetic tactics read.
use Prim.Native.Nat.{ℕ, suc, ◌+◌, ◌-◌, ◌/◌, ◌%◌, ◌^◌, ◌≤◌, ◌<◌}
use mathlib.Core.Path.{◌≡◌}
use mathlib.Core.Logic.{◌↔◌}
use mathlib.Core.Bool.{Bool, true}
use native.Mathlib.Omega.{arith}
use oxide_mq.Base.Tests.{ltb, leb, nat_beq, if◌then◌else◌}

-- `negsuc n` is -(n + 1).
pub data ℤ : Type 0 where
  pos : ℕ → ℤ
  negsuc : ℕ → ℤ

abbrev pub pos_part : ℤ → ℕ
pos_part (pos n) = n
pos_part (negsuc n) = 0

abbrev pub neg_part : ℤ → ℕ
neg_part (pos n) = 0
neg_part (negsuc n) = suc n

-- a - b, as an integer.
abbrev pub sub_ℕ : ℕ → ℕ → ℤ
sub_ℕ a b = if leb b a then pos (a - b) else negsuc (b - a - 1)

infixl 65 ◌+ℤ◌
infix 50 ◌≤ℤ◌ ◌<ℤ◌
abbrev pub ◌+ℤ◌ : ℤ → ℤ → ℤ
a +ℤ b = sub_ℕ (pos_part a + pos_part b) (neg_part a + neg_part b)

abbrev pub ◌≤ℤ◌ : ℤ → ℤ → Type 0
a ≤ℤ b = pos_part a + neg_part b ≤ pos_part b + neg_part a

abbrev pub ◌<ℤ◌ : ℤ → ℤ → Type 0
a <ℤ b = pos_part a + neg_part b < pos_part b + neg_part a

abbrev pub ltb_ℤ : ℤ → ℤ → Bool
ltb_ℤ a b = ltb (pos_part a + neg_part b) (pos_part b + neg_part a)

abbrev pub leb_ℤ : ℤ → ℤ → Bool
leb_ℤ a b = leb (pos_part a + neg_part b) (pos_part b + neg_part a)

abbrev pub int_beq : ℤ → ℤ → Bool
int_beq a b = nat_beq (pos_part a + neg_part b) (pos_part b + neg_part a)

pub int_beq_iff : (a b : ℤ) → (int_beq a b ≡ true) ↔ (a ≡ b)
int_beq_iff a b = ground arith

pub eq_of_parts : (a b : ℤ) → pos_part a + neg_part b ≡ pos_part b + neg_part a → a ≡ b
eq_of_parts a b h = ground arith

-- The two's complement of a signed word of `m / 2` and more, and the value of a pattern below `m`.
abbrev pub to_word : ℕ → ℤ → ℕ
to_word m (pos n) = n % m
to_word m (negsuc n) = m - 1 - n % m

abbrev pub of_word : ℕ → ℕ → ℤ
of_word m w = if ltb w (m / 2) then pos w else negsuc (m - 1 - w)

-- The range of a signed word with modulus `m`.
abbrev pub InWord : ℕ → ℤ → Type 0
InWord m (pos n) = n < m / 2
InWord m (negsuc n) = n < m / 2

abbrev pub IsI64 : ℤ → Type 0
IsI64 = InWord (2 ^ 64)

pub of_word-to_word_64 : (z : ℤ) → IsI64 z → of_word (2 ^ 64) (to_word (2 ^ 64) z) ≡ z
of_word-to_word_64 (pos n) h = ground arith
of_word-to_word_64 (negsuc n) h = ground arith

pub to_word-lt_64 : (z : ℤ) → to_word (2 ^ 64) z < 2 ^ 64
to_word-lt_64 (pos n) = omega arith
to_word-lt_64 (negsuc n) = omega arith

abbrev pub max_i64 : ℤ
max_i64 = pos (2 ^ 63 - 1)

-- `a + b` on `i64`, with the wrap-around of a release build.
unfoldable pub add_i64 : ℤ → ℤ → ℤ
add_i64 a b = of_word (2 ^ 64) (to_word (2 ^ 64) (a +ℤ b))

-- An offset that has a successor.
pub record IsOffset (z : ℤ) : Type 0 where
  pub in_range : IsI64 z
  pub below_max : z <ℤ max_i64

pub add_i64-one : (z : ℤ) → IsOffset z → add_i64 z (pos 1) ≡ z +ℤ pos 1
unfolding add_i64
add_i64-one (pos n) h = ground (arith, h.in_range, h.below_max)
add_i64-one (negsuc n) h = ground (arith, h.in_range, h.below_max)
