-- ===== src/Crc.antt =====
-- crates/oxidemq-core/src/bytes_util.rs: CRC-32C by table.
use Prim.Native.Nat.{bit_and, bit_xor, bit_xor-bitwise, digits, differ}
use native.Mathlib.Nat.{pow-suc}
use oxide_mq.Base.{
  ℕ, zero, suc, ◌+◌, ◌/◌, ◌%◌, ◌^◌, ◌<◌, ◌≤◌, ◌≡◌, refl, List, [], ◌∷◌, arith, get_or,
  if◌then◌else◌, not,
}
use oxide_mq.Base.Eq.{◌==◌, nat_eq}
use oxide_mq.Bytes.{Bytes}

abbrev pub poly : ℕ
poly = 0x82f63b78

-- One round of the inner loop of the table's initialiser.
table_round : ℕ → ℕ
table_round crc = if not (bit_and crc 1 == 0) then bit_xor (crc / 2) poly else crc / 2

-- `while j < 8`: `n` rounds are left.
table_rounds : ℕ → ℕ → ℕ
table_rounds zero crc = crc
table_rounds (suc n) crc = table_rounds n (table_round crc)

table_from : ℕ → ℕ → List ℕ
table_from zero i = []
table_from (suc n) i = table_rounds 8 i ∷ table_from n (i + 1)

crc32c_table : List ℕ
unfolding table_round table_rounds table_from
crc32c_table = table_from 256 0

-- The body of the loop over the bytes. The index is below 256, so it is in range.
crc_step : ℕ → ℕ → ℕ
unfolding crc32c_table
crc_step crc b = bit_xor (crc / 2 ^ 8) (get_or crc32c_table (bit_and (bit_xor crc b) 0xff) 0)

crc_loop : ℕ → Bytes → ℕ
crc_loop crc [] = crc
crc_loop crc (b ∷ rest) = crc_loop (crc_step crc b) rest

unfoldable pub compute_crc32c : Bytes → ℕ
unfolding crc_step crc_loop
compute_crc32c src = bit_xor (crc_loop 0xffffffff src) 0xffffffff

-- b"123456789"
check_value : compute_crc32c (49 ∷ 50 ∷ 51 ∷ 52 ∷ 53 ∷ 54 ∷ 55 ∷ 56 ∷ 57 ∷ []) ≡ 0xe3069283
unfolding compute_crc32c
check_value = refl

differ_bit : (x y : ℕ) → x < 2 → y < 2 → differ x y < 2
differ_bit zero y hx hy = hy
differ_bit (suc zero) zero hx hy = hx
differ_bit (suc zero) (suc zero) hx hy = omega arith
differ_bit (suc zero) (suc (suc y)) hx hy = absurd (omega arith)
differ_bit (suc (suc x)) y hx hy = absurd (omega arith)

xor_digits-lt : (n k a b : ℕ) → a < 2 ^ k → b < 2 ^ k → digits (λ b. b) differ n a b < 2 ^ k
xor_digits-lt zero k a b ha hb = hb
xor_digits-lt (suc n) k zero b ha hb = hb
xor_digits-lt (suc n) zero (suc a) b ha hb = absurd (omega arith)
xor_digits-lt (suc n) (suc k) (suc a) b ha hb = omega (
  arith,
  pow-suc 2 k,
  xor_digits-lt n k (suc a / 2) (b / 2) (omega (arith, pow-suc 2 k)) (omega (arith, pow-suc 2 k)),
  differ_bit (suc a % 2) (b % 2) (omega arith) (omega arith),
)

pub bit_xor-lt : (k a b : ℕ) → a < 2 ^ k → b < 2 ^ k → bit_xor a b < 2 ^ k
bit_xor-lt k a b ha hb = omega (arith, bit_xor-bitwise a b, xor_digits-lt a k a b ha hb)

table_round-lt : (c : ℕ) → c < 2 ^ 32 → table_round c < 2 ^ 32
unfolding table_round
table_round-lt c h = ground (arith, bit_xor-lt 32 (c / 2) poly)

table_rounds-lt : (n c : ℕ) → c < 2 ^ 32 → table_rounds n c < 2 ^ 32
unfolding table_rounds
table_rounds-lt zero c h = h
table_rounds-lt (suc n) c h = table_rounds-lt n (table_round c) (table_round-lt c h)

get_or-table_from-lt : (n i j : ℕ) → i + n ≤ 2 ^ 32 → get_or (table_from n i) j 0 < 2 ^ 32
unfolding table_from
get_or-table_from-lt zero i j h = omega arith
get_or-table_from-lt (suc n) i zero h = table_rounds-lt 8 i (omega arith)
get_or-table_from-lt (suc n) i (suc j) h = get_or-table_from-lt n (i + 1) j (omega arith)

get_or-crc32c_table-lt : (j : ℕ) → get_or crc32c_table j 0 < 2 ^ 32
unfolding crc32c_table
get_or-crc32c_table-lt j = get_or-table_from-lt 256 0 j (omega arith)

crc_step-lt : (c b : ℕ) → c < 2 ^ 32 → crc_step c b < 2 ^ 32
unfolding crc_step
crc_step-lt c b h =
    bit_xor-lt 32 (c / 2 ^ 8) _ (omega arith) (get_or-crc32c_table-lt (bit_and (bit_xor c b) 0xff))

crc_loop-lt : (c : ℕ) (src : Bytes) → c < 2 ^ 32 → crc_loop c src < 2 ^ 32
unfolding crc_loop
crc_loop-lt c [] h = h
crc_loop-lt c (b ∷ rest) h = crc_loop-lt (crc_step c b) rest (crc_step-lt c b h)

-- The checksum fits the four bytes that hold it.
pub compute_crc32c-lt : (src : Bytes) → compute_crc32c src < 2 ^ 32
unfolding compute_crc32c
compute_crc32c-lt src =
    bit_xor-lt 32 (crc_loop 0xffffffff src) 0xffffffff (crc_loop-lt 0xffffffff src (omega arith))
      (omega arith)
