-- ===== src/Protocol/Parser/Varint.antt =====
-- Groups of seven bits: what is written is read back.
use Prim.Native.Nat.{bit_and, bit_or, bit_xor}
use native.Mathlib.Nat.{
  pow-suc, mod-eq_of_lt, mod-add-div', mul_assoc, mul_comm, add-mul, mul-le-mul_right,
}
use oxide_mq.Base.{
  ℕ, zero, suc, ◌+◌, ◌-◌, ◌*◌, ◌/◌, ◌%◌, ◌^◌, ◌<◌, ◌≤◌, ◌≡◌, refl, sym, ap, ◌∙◌, ◌∷◌, ◌++◌, true,
  false, Bool-cases, inl, inr, ltb, nat_beq, arith, length,
}
use oxide_mq.Base.Bits.{bit_and-ones, bit_and-power, bit_or-shifted, bit_xor-ones, bit_xor-zero}
use oxide_mq.Base.Int.{ℤ, pos, negsuc, IsI64, to_word, of_word, sub_ℕ}
use oxide_mq.Base.Result.{ok}
use oxide_mq.Bytes.{Bytes}
use oxide_mq.Protocol.Parser.{
  varint_loop, read_unsigned_varint, write_groups, write_unsigned_varint, zigzag_encode,
  zigzag_decode, read_varint, write_varint,
}

-- What the loop adds to the value for a group of bits `x`.
group :
    (value shift b x : ℕ)
    → value < 2 ^ shift
    → bit_and b 0x7f ≡ x
    → x * 2 ^ shift < 2 ^ 64
    → bit_or value (bit_and b 0x7f * 2 ^ shift % 2 ^ 64) ≡ value + x * 2 ^ shift
group value shift b x hv hb hs = rw (hb, mod-eq_of_lt hs) (bit_or-shifted shift value x hv)

low_bits : (b : ℕ) → bit_and b 0x7f ≡ b % 128
low_bits b = bit_and-ones 7 b

-- The two cases of a byte: the last one of a number, and one with more to come.
last_group :
    (value shift b : ℕ) (rest : Bytes)
    → value < 2 ^ shift
    → b < 128
    → b * 2 ^ shift < 2 ^ 64
    → varint_loop value shift (b ∷ rest) ≡ ok (value + b * 2 ^ shift, rest)
unfolding varint_loop
last_group value shift b rest hv hb hs =
    rw (stop, varint_loop, group value shift b b hv (low_bits b ∙ omega arith) hs) refl
  where
    stop : nat_beq (bit_and b 0x80) 0 ≡ true
    stop = ground (arith, bit_and-power 7 b)

more_group :
    (value shift b : ℕ) (rest : Bytes)
    → value < 2 ^ shift
    → b < 128
    → b * 2 ^ shift < 2 ^ 64
    → shift + 7 ≤ 63
    → varint_loop value shift ((b + 128) ∷ rest)
      ≡ varint_loop (value + b * 2 ^ shift) (shift + 7) rest
unfolding varint_loop
more_group value shift b rest hv hb hs h =
    rw
      (
        go,
        varint_loop,
        below,
        group value shift (b + 128) b hv (low_bits (b + 128) ∙ omega arith) hs,
      )
      refl
  where
    go : nat_beq (bit_and (b + 128) 0x80) 0 ≡ false
    go = ground (arith, bit_and-power 7 (b + 128))

    below : ltb 63 (shift + 7) ≡ false
    below = ground arith

-- The bytes of the writer.
group_byte : (value : ℕ) → bit_or (bit_and value 0x7f % 2 ^ 8) 0x80 ≡ value % 128 + 128
group_byte value = rw (low_bits value, small) (bit_or-shifted 7 (value % 128) 1 (omega arith))
  where
    small : value % 128 % 2 ^ 8 ≡ value % 128
    small = omega arith

regroup : (v p : ℕ) → v % 128 * p + v / 128 * (p * 128) ≡ v * p
regroup v p = omega (
  arith,
  ap (λ t. t * p) (mod-add-div' v 128),
  add-mul (v % 128) (v / 128 * 128) p,
  shuffle (v / 128) p,
)
  where
    shuffle : (q p : ℕ) → q * (p * 128) ≡ q * 128 * p
    shuffle q p = ap (λ t. q * t) (mul_comm p 128) ∙ sym (mul_assoc q 128 p)

low_part : (v p m : ℕ) → v * p < m → v % 128 * p < m
low_part v p m h = omega (arith, regroup v p)

high_part : (v p m : ℕ) → v * p < m → v / 128 * (p * 128) < m
high_part v p m h = omega (arith, regroup v p)

next_acc : (v p acc : ℕ) → acc < p → acc + v % 128 * p < p * 128
next_acc v p acc h = omega (arith, h, mul-le-mul_right p (at_most v))
  where
    at_most : (v : ℕ) → v % 128 ≤ 127
    at_most v = omega arith

pow_step : (t k : ℕ) → t ≡ suc k → 2 ^ t ≡ 2 ^ k * 2
pow_step t k e = ap (λ m. 2 ^ m) e ∙ pow-suc 2 k

next_power : (s : ℕ) → 2 ^ (s + 7) ≡ 2 ^ s * 128
next_power s = omega (
  arith,
  pow_step (s + 7) (s + 6) (omega arith),
  pow_step (s + 6) (s + 5) (omega arith),
  pow_step (s + 5) (s + 4) (omega arith),
  pow_step (s + 4) (s + 3) (omega arith),
  pow_step (s + 3) (s + 2) (omega arith),
  pow_step (s + 2) (s + 1) (omega arith),
  pow_step (s + 1) s (omega arith),
)

byte_small : (value : ℕ) → value < 128 → value % 2 ^ 8 ≡ value
byte_small value h = omega arith

read-write_groups :
    (fuel shift value acc : ℕ) (rest : Bytes)
    → shift + 7 * fuel ≡ 63
    → value < 128 ^ suc fuel
    → acc < 2 ^ shift
    → value * 2 ^ shift < 2 ^ 64
    → varint_loop acc shift (write_groups fuel value ++ rest) ≡ ok (acc + value * 2 ^ shift, rest)
unfolding write_groups
read-write_groups zero shift value acc rest hf hv ha hs =
    rw (byte_small value (omega (arith, hv)))
      (last_group acc shift value rest ha (omega (arith, hv)) hs)
read-write_groups (suc fuel) shift value acc rest hf hv ha hs = elim (Bool-cases (ltb value 0x80)) [
  | inl small ↦
      rw (small, write_groups, byte_small value (ground arith))
        (last_group acc shift value rest ha (ground arith) hs)
  | inr large ↦
      rw (large, group_byte value, write_groups)
        (more_group acc shift (value % 128) _ ha (omega arith) (low_part value (2 ^ shift) _ hs)
            (omega arith)
          ∙ read-write_groups fuel (shift + 7) (value / 128) (acc + value % 128 * 2 ^ shift) rest
              (omega arith) (omega (arith, hv, pow-suc 128 (suc fuel)))
              (rw (next_power shift) (next_acc value (2 ^ shift) acc ha))
              (rw (next_power shift) (high_part value (2 ^ shift) _ hs))
          ∙ ap (λ t. ok (t, rest))
              (rw (next_power shift) (omega (arith, regroup value (2 ^ shift)))))
]

-- A number below 2^64 is read back, whatever bytes come after it, which are left.
pub read_unsigned_varint-write_unsigned_varint :
    (value : ℕ) (rest : Bytes)
    → value < 2 ^ 64
    → read_unsigned_varint (write_unsigned_varint value ++ rest) ≡ ok (value, rest)
unfolding read_unsigned_varint write_unsigned_varint
read_unsigned_varint-write_unsigned_varint value rest h =
    read-write_groups 9 0 value 0 rest refl (omega arith) (omega arith) (omega arith)
    ∙ ap (λ t. ok (t, rest)) (omega arith)

-- The writer's loop ends within ten bytes.
length-write_groups : (fuel value : ℕ) → length (write_groups fuel value) ≤ suc fuel
unfolding write_groups
length-write_groups zero value = omega arith
length-write_groups (suc fuel) value = ground (arith, length-write_groups fuel (value / 128))

zigzag_encode-lt : (z : ℤ) → zigzag_encode z < 2 ^ 64
unfolding zigzag_encode
zigzag_encode-lt (pos n) = omega (arith, bit_xor-zero (n % 2 ^ 64 * 2 % 2 ^ 64))
zigzag_encode-lt (negsuc n) =
    omega (arith, bit_xor-ones 64 ((2 ^ 64 - 1 - n % 2 ^ 64) * 2 % 2 ^ 64) (omega arith))

-- The decoder, given the two parts of the word.
zigzag_decode_parts :
    (uval half bit : ℕ)
    → uval ≡ half * 2 + bit
    → bit < 2
    → zigzag_decode uval ≡ of_word (2 ^ 64) (bit_xor half (to_word (2 ^ 64) (sub_ℕ 0 bit)))
unfolding zigzag_decode
zigzag_decode_parts uval half bit e h =
    λ i. of_word (2 ^ 64) (bit_xor (high i) (to_word (2 ^ 64) (sub_ℕ 0 (low i))))
  where
    high : uval / 2 ≡ half
    high = omega arith

    low : bit_and uval 1 ≡ bit
    low = bit_and-ones 1 uval ∙ omega arith

zigzag_decode_even : (uval n : ℕ) → uval ≡ n * 2 → n < 2 ^ 63 → zigzag_decode uval ≡ pos n
zigzag_decode_even uval n e h =
    zigzag_decode_parts uval n 0 (omega arith) (omega arith)
    ∙ rw (bit_xor-zero n) (ground (arith, h))

zigzag_decode_odd : (uval n : ℕ) → uval ≡ n * 2 + 1 → n < 2 ^ 63 → zigzag_decode uval ≡ negsuc n
zigzag_decode_odd uval n e h =
    zigzag_decode_parts uval n 1 e (omega arith)
    ∙ rw (bit_xor-ones 64 n (omega (arith, h))) (ground (arith, h))

zigzag_decode-zigzag_encode : (z : ℤ) → IsI64 z → zigzag_decode (zigzag_encode z) ≡ z
unfolding zigzag_encode
zigzag_decode-zigzag_encode (pos n) h =
    zigzag_decode_even _ n (bit_xor-zero (n % 2 ^ 64 * 2 % 2 ^ 64) ∙ omega (arith, h)) h
zigzag_decode-zigzag_encode (negsuc n) h =
    zigzag_decode_odd _ n
      (bit_xor-ones 64 ((2 ^ 64 - 1 - n % 2 ^ 64) * 2 % 2 ^ 64) (omega arith) ∙ omega (arith, h)) h

-- A signed number of 64 bits is written in at most ten bytes and read back from them, whatever
-- bytes come after them.
pub read_varint-write_varint :
    (z : ℤ) (rest : Bytes)
    → IsI64 z
    → (length (write_varint z) ≤ 10) × (read_varint (write_varint z ++ rest) ≡ ok (z, rest))
unfolding write_varint read_varint write_unsigned_varint
read_varint-write_varint z rest h = (
  length-write_groups 9 (zigzag_encode z),
  rw (read_unsigned_varint-write_unsigned_varint (zigzag_encode z) rest (zigzag_encode-lt z))
      (ap (λ t. ok (t, rest)) (zigzag_decode-zigzag_encode z h)),
)
