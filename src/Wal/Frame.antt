-- ===== src/Wal/Frame.antt =====
-- crates/oxidemq-wal/src/frame.rs: the records of the log and their framing.
pub mod RoundTrip
pub mod Bounds
use oxide_mq.Base.{
  ℕ, ◌+◌, ◌%◌, ◌^◌, ◌<◌, List, [], ◌∷◌, ◌++◌, Option, none, some, length, drop, ltb, not,
  if◌then◌else◌,
}
use oxide_mq.Base.Eq.{◌==◌, nat_eq}
use oxide_mq.Base.Int.{ℤ, IsI64}
use oxide_mq.Base.Result.{Result, ok, err, corrupted_record, storage, ◌>>=◌}
use oxide_mq.Bytes.{Bytes, put_u32, put_u64, put_i64, get_u32, get_u64, get_i64, slice, overwrite}
use oxide_mq.Crc.{compute_crc32c}

abbrev pub wal_magic : ℕ
wal_magic = 0x5f57414c

abbrev pub header_size : ℕ
header_size = 36

pub record WalRecord : Type 0 where
  pub seq : ℕ
  pub stream_id : ℕ
  pub offset : ℤ
  pub payload : Bytes

-- The ranges of the Rust types, and a payload whose length fits its four bytes.
pub record IsWalRecord (r : WalRecord) : Type 0 where
  pub seq_range : r.seq < 2 ^ 64
  pub stream_range : r.stream_id < 2 ^ 64
  pub offset_range : IsI64 r.offset
  pub payload_range : length r.payload < 2 ^ 32

-- `encode` appends to `dst`, with a placeholder for the checksum that it overwrites at the end.
unfoldable pub encode : WalRecord → Bytes → Bytes
encode r dst =
    let payload_len = length r.payload % 2 ^ 32 in
    let dst1 = dst ++ put_u32 wal_magic in
    let crc_pos = length dst1 in
    let dst2 = dst1 ++ put_u32 0 in
    let body_start = length dst2 in
    let dst3 =
      dst2
      ++ (put_u64 r.seq
          ++ (put_u64 r.stream_id ++ (put_i64 r.offset ++ (put_u32 payload_len ++ r.payload)))) in
    let crc = compute_crc32c (drop body_start dst3) in overwrite crc_pos (put_u32 crc) dst3

-- `Ok(None)`: more input is needed. The sums cannot overflow a `usize` of 64 bits.
unfoldable pub decode : Bytes → Result (Option (WalRecord × ℕ))
decode src = if ltb (length src) header_size then ok none else do
  (magic, c) ← get_u32 src
  if not (magic == wal_magic) then err storage else do
    (expected_crc, c) ← get_u32 c
    (seq, c) ← get_u64 c
    (stream_id, c) ← get_u64 c
    (offset, c) ← get_i64 c
    (payload_len, c) ← get_u32 c
    let total_record_len = header_size + payload_len
    if ltb (length src) total_record_len then ok none else do
      body_bytes ← slice 8 total_record_len src
      let actual_crc = compute_crc32c body_bytes
      if not (actual_crc == expected_crc)
          then err (corrupted_record expected_crc actual_crc)
          else do
            payload ← slice header_size total_record_len src
            let r : WalRecord = record {
              seq = seq;
              stream_id = stream_id;
              offset = offset;
              payload = payload;
            }
            ok (some (r, total_record_len))
