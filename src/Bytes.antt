-- ===== src/Bytes.antt =====
-- Byte buffers (`bytes::Buf`, `BufMut`, slices) as lists of numbers: the big-endian reads and
-- writes that the log and the object format use. A read past the end of a buffer panics.
pub mod Laws
use oxide_mq.Base.{
  ℕ, suc, ◌+◌, ◌-◌, ◌*◌, ◌/◌, ◌%◌, ◌^◌, ◌<◌, List, [], ◌∷◌, ◌++◌, length, take, drop, leb, ◌&&◌,
  if◌then◌else◌,
}
use oxide_mq.Base.Int.{ℤ, to_word, of_word}
use oxide_mq.Base.Result.{Result, ok, panic, ◌>>=◌}

abbrev pub Bytes : Type 0
Bytes = List ℕ

unfoldable pub put_u16 : ℕ → Bytes
put_u16 v = (v / 2 ^ 8 % 2 ^ 8) ∷ (v % 2 ^ 8) ∷ []

unfoldable pub put_u32 : ℕ → Bytes
put_u32 v = (v / 2 ^ 24 % 2 ^ 8) ∷ (v / 2 ^ 16 % 2 ^ 8) ∷ (v / 2 ^ 8 % 2 ^ 8) ∷ (v % 2 ^ 8) ∷ []

unfoldable pub put_u64 : ℕ → Bytes
put_u64 v = put_u32 (v / 2 ^ 32) ++ put_u32 v

unfoldable pub put_i64 : ℤ → Bytes
put_i64 z = put_u64 (to_word (2 ^ 64) z)

unfoldable pub put_i32 : ℤ → Bytes
put_i32 z = put_u32 (to_word (2 ^ 32) z)

unfoldable pub put_i16 : ℤ → Bytes
put_i16 z = put_u16 (to_word (2 ^ 16) z)

unfoldable pub get_u8 : Bytes → Result (ℕ × Bytes)
get_u8 (a ∷ rest) = ok (a, rest)
get_u8 _ = panic

unfoldable pub get_u16 : Bytes → Result (ℕ × Bytes)
get_u16 (a ∷ b ∷ rest) = ok (a * 2 ^ 8 + b, rest)
get_u16 _ = panic

unfoldable pub get_u32 : Bytes → Result (ℕ × Bytes)
get_u32 (a ∷ b ∷ c ∷ d ∷ rest) = ok (((a * 2 ^ 8 + b) * 2 ^ 8 + c) * 2 ^ 8 + d, rest)
get_u32 _ = panic

unfoldable pub get_u64 : Bytes → Result (ℕ × Bytes)
get_u64 src = do (hi, r) ← get_u32 src; (lo, r') ← get_u32 r; ok (hi * 2 ^ 32 + lo, r')

unfoldable pub get_i64 : Bytes → Result (ℤ × Bytes)
get_i64 src = do (w, r) ← get_u64 src; ok (of_word (2 ^ 64) w, r)

unfoldable pub get_i32 : Bytes → Result (ℤ × Bytes)
get_i32 src = do (w, r) ← get_u32 src; ok (of_word (2 ^ 32) w, r)

unfoldable pub get_i16 : Bytes → Result (ℤ × Bytes)
get_i16 src = do (w, r) ← get_u16 src; ok (of_word (2 ^ 16) w, r)

-- `&src[from..to]`
unfoldable pub slice : ℕ → ℕ → Bytes → Result Bytes
slice from to src =
    if leb from to && leb to (length src) then ok (take (to - from) (drop from src)) else panic

-- `dst[at..at + new.len()].copy_from_slice(new)`, in range
unfoldable pub overwrite : ℕ → Bytes → Bytes → Bytes
overwrite at new dst = take at dst ++ (new ++ drop (at + length new) dst)
