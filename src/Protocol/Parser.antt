-- ===== src/Protocol/Parser.antt =====
-- crates/oxidemq-protocol/src/parser.rs: the primitive values of the wire. A reader takes the bytes
-- of the buffer and answers with the value and the bytes left; a writer is the bytes it appends.
pub mod Varint
use Prim.Native.Nat.{bit_and, bit_or, bit_xor}
use oxide_mq.Base.{
  ℕ, zero, suc, ◌+◌, ◌-◌, ◌*◌, ◌/◌, ◌%◌, ◌^◌, [], ◌∷◌, ◌++◌, Option, none, some, Bool, true, false,
  ◌&&◌, length, take, drop, ltb, leb, nat_beq, if◌then◌else◌,
}
use oxide_mq.Base.Int.{ℤ, pos, negsuc, pos_part, ltb_ℤ, of_word, to_word, sub_ℕ}
use oxide_mq.Base.Result.{Result, ok, err, protocol, guard, ◌>>=◌, ◌>>◌}
use oxide_mq.Bytes.{Bytes, get_i16, get_i32, put_i16, put_i32}

-- What `String::from_utf8` accepts. Between two bytes stands the number of continuation bytes that
-- are due and the range of the next one.
unfoldable pub lead : ℕ → Option (ℕ × ℕ × ℕ)
lead b =
    if ltb b 0x80
    then some (0, 0, 0)
    else if leb 0xc2 b && leb b 0xdf
    then some (1, 0x80, 0xbf)
    else if nat_beq b 0xe0
    then some (2, 0xa0, 0xbf)
    else if nat_beq b 0xed
    then some (2, 0x80, 0x9f)
    else if leb 0xe1 b && leb b 0xef
    then some (2, 0x80, 0xbf)
    else if nat_beq b 0xf0
    then some (3, 0x90, 0xbf)
    else if leb 0xf1 b && leb b 0xf3
    then some (3, 0x80, 0xbf)
    else if nat_beq b 0xf4
    then some (3, 0x80, 0x8f)
    else none

unfoldable pub utf8_next : ℕ × ℕ × ℕ → ℕ → Option (ℕ × ℕ × ℕ)
unfolding lead
utf8_next (zero, low, high) b = lead b
utf8_next (suc due, low, high) b = if leb low b && leb b high then some (due, 0x80, 0xbf) else none

unfoldable pub utf8_run : Option (ℕ × ℕ × ℕ) → Bytes → Bool
utf8_run none src = false
utf8_run (some (due, low, high)) [] = nat_beq due 0
utf8_run (some state) (b ∷ src) = utf8_run (utf8_next state b) src

unfoldable pub is_utf8 : Bytes → Bool
is_utf8 src = utf8_run (some (0, 0, 0)) src

-- `src.copy_to_bytes(len)`, after the check that so much is there.
unfoldable pub read_body : ℕ → Bytes → Result (Bytes × Bytes)
read_body len src = if ltb (length src) len then err protocol else ok (take len src, drop len src)

unfoldable pub read_text : ℕ → Bytes → Result (Option Bytes × Bytes)
read_text len src = do
  (body, rest) ← read_body len src
  guard (is_utf8 body) protocol
  ok (some body, rest)

unfoldable pub read_string : Bytes → Result (Option Bytes × Bytes)
unfolding read_text
read_string src = if ltb (length src) 2 then err protocol else (do
  (len, rest) ← get_i16 src
  if ltb_ℤ len (pos 0) then ok (none, rest) else read_text (pos_part len) rest)

unfoldable pub read_bytes : Bytes → Result (Option Bytes × Bytes)
read_bytes src = if ltb (length src) 4 then err protocol else (do
  (len, rest) ← get_i32 src
  if ltb_ℤ len (pos 0)
      then ok (none, rest)
      else (do (body, rest') ← read_body (pos_part len) rest; ok (some body, rest')))

-- The loop of `read_unsigned_varint`, with its two variables.
unfoldable pub varint_loop : ℕ → ℕ → Bytes → Result (ℕ × Bytes)
varint_loop value shift [] = err protocol
varint_loop value shift (b ∷ src) =
    let value' = bit_or value (bit_and b 0x7f * 2 ^ shift % 2 ^ 64) in
    elim (nat_beq (bit_and b 0x80) 0) [
      | true ↦ ok (value', src)
      | false ↦ elim (ltb 63 (shift + 7)) [
        | true ↦ err protocol
        | false ↦ varint_loop value' (shift + 7) src
      ]
    ]

unfoldable pub read_unsigned_varint : Bytes → Result (ℕ × Bytes)
read_unsigned_varint src = varint_loop 0 0 src

-- `((uval >> 1) as i64) ^ (-((uval & 1) as i64))`, on the two's complements.
unfoldable pub zigzag_decode : ℕ → ℤ
zigzag_decode uval =
    of_word (2 ^ 64) (bit_xor (uval / 2) (to_word (2 ^ 64) (sub_ℕ 0 (bit_and uval 1))))

unfoldable pub read_varint : Bytes → Result (ℤ × Bytes)
unfolding zigzag_decode read_unsigned_varint
read_varint src = do (uval, rest) ← read_unsigned_varint src; ok (zigzag_decode uval, rest)

unfoldable pub read_compact_string : Bytes → Result (Option Bytes × Bytes)
unfolding read_unsigned_varint read_text
read_compact_string src = do
  (len, rest) ← read_unsigned_varint src
  if nat_beq len 0 then ok (none, rest) else read_text (len - 1) rest

unfoldable pub read_compact_bytes : Bytes → Result (Option Bytes × Bytes)
unfolding read_unsigned_varint read_body
read_compact_bytes src = do
  (len, rest) ← read_unsigned_varint src
  if nat_beq len 0
      then ok (none, rest)
      else (do (body, rest') ← read_body (len - 1) rest; ok (some body, rest'))

-- The loop of `write_unsigned_varint`, on fuel; without fuel the last byte is written.
unfoldable pub write_groups : ℕ → ℕ → Bytes
write_groups zero value = (value % 2 ^ 8) ∷ []
write_groups (suc fuel) value =
    let more = write_groups fuel (value / 2 ^ 7) in
    if ltb value 0x80 then (value % 2 ^ 8) ∷ [] else bit_or (bit_and value 0x7f % 2 ^ 8) 0x80 ∷ more

unfoldable pub write_unsigned_varint : ℕ → Bytes
write_unsigned_varint value = write_groups 9 value

-- `((value << 1) ^ (value >> 63)) as u64`
unfoldable pub zigzag_encode : ℤ → ℕ
zigzag_encode (pos n) = bit_xor (to_word (2 ^ 64) (pos n) * 2 % 2 ^ 64) 0
zigzag_encode (negsuc n) = bit_xor (to_word (2 ^ 64) (negsuc n) * 2 % 2 ^ 64) (2 ^ 64 - 1)

unfoldable pub write_varint : ℤ → Bytes
unfolding zigzag_encode write_unsigned_varint
write_varint value = write_unsigned_varint (zigzag_encode value)

-- `len as i16` and `len as i32` keep the low bits.
unfoldable pub write_string : Option Bytes → Bytes
write_string (some s) = put_i16 (of_word (2 ^ 16) (length s % 2 ^ 16)) ++ s
write_string none = put_i16 (negsuc 0)

unfoldable pub write_bytes : Option Bytes → Bytes
write_bytes (some b) = put_i32 (of_word (2 ^ 32) (length b % 2 ^ 32)) ++ b
write_bytes none = put_i32 (negsuc 0)

unfoldable pub write_compact_string : Option Bytes → Bytes
unfolding write_unsigned_varint
write_compact_string (some s) = write_unsigned_varint ((length s + 1) % 2 ^ 64) ++ s
write_compact_string none = write_unsigned_varint 0

unfoldable pub write_compact_bytes : Option Bytes → Bytes
unfolding write_unsigned_varint
write_compact_bytes (some b) = write_unsigned_varint ((length b + 1) % 2 ^ 64) ++ b
write_compact_bytes none = write_unsigned_varint 0
