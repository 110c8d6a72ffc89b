-- ===== src/Protocol/Codec.antt =====
-- crates/oxidemq-protocol/src/codec.rs: frames with a length of four bytes before them.
pub mod Frames
use oxide_mq.Base.{
  ℕ, ◌+◌, ◌*◌, ◌%◌, ◌^◌, List, [], ◌∷◌, ◌++◌, Option, none, some, Bool, true, false, length, take,
  drop, ltb, if◌then◌else◌,
}
use oxide_mq.Base.Int.{ℤ, pos, pos_part, ltb_ℤ, of_word}
use oxide_mq.Base.Result.{Result, ok, err, panic, protocol}
use oxide_mq.Bytes.{Bytes, get_i32, put_i32}

abbrev pub max_kafka_frame_size : ℕ
max_kafka_frame_size = 100 * 1024 * 1024

-- `decode` after the length has been read: the answer and the buffer left. `rest` is the buffer
-- without the four bytes.
unfoldable pub decode_frame : Bytes → ℤ → Bytes → Result (Option Bytes) × Bytes
decode_frame src frame_len rest =
    if ltb_ℤ frame_len (pos 0)
    then (err protocol, src)
    else if ltb max_kafka_frame_size (pos_part frame_len)
    then (err protocol, src)
    else if ltb (length src) (4 + pos_part frame_len)
    then (ok none, src)
    else (ok (some (take (pos_part frame_len) rest)), drop (pos_part frame_len) rest)

unfoldable pub decode : Bytes → Result (Option Bytes) × Bytes
unfolding decode_frame
decode src = if ltb (length src) 4 then (ok none, src) else elim (get_i32 src) [
  | ok (frame_len, rest) ↦ decode_frame src frame_len rest
  | err e ↦ (err e, src)
  | panic ↦ (panic, src)
]

-- `len as i32` keeps the low 32 bits.
unfoldable pub encode : Bytes → Bytes → Bytes
encode item dst = dst ++ (put_i32 (of_word (2 ^ 32) (length item % 2 ^ 32)) ++ item)
