-- ===== src/Wal/Frame/Bounds.antt =====
-- What `decode` takes from its input: it never reads out of range, it consumes what it says, and
-- more input does not change a record or an error that it has returned.
use native.Mathlib.Decide.{dec_lt}
use oxide_mq.Base.{
  ap, sym, ◌∙◌, ℕ, ◌+◌, ◌-◌, ◌<◌, ◌≤◌, ◌≡◌, ◌≢◌, ◌++◌, Option, none, some, length, take, drop,
  length-append, length-drop, length-take, take-append_le, drop-append_le, ltb, not, arith,
  if◌then◌else◌,
}
use oxide_mq.Base.Eq.{◌==◌, nat_eq}
use oxide_mq.Base.Int.{ℤ}
use oxide_mq.Base.Result.{Result, ok, err, panic, corrupted_record, storage}
use oxide_mq.Bytes.{Bytes, get_u32, get_u64, get_i64, slice}
use oxide_mq.Bytes.Laws.{
  get_u32_total, get_u64_total, get_i64_total, get_u32-append, get_u64-append, get_i64-append,
}
use oxide_mq.Crc.{compute_crc32c}
use oxide_mq.Wal.Frame.{WalRecord, wal_magic, decode}

-- The header of `src`, read field by field.
record Header (src : Bytes) : Type 0 where
  magic : ℕ
  crc : ℕ
  seq : ℕ
  stream_id : ℕ
  offset : ℤ
  len : ℕ
  c1 : Bytes
  c2 : Bytes
  c3 : Bytes
  c4 : Bytes
  c5 : Bytes
  c6 : Bytes
  read_magic : get_u32 src ≡ ok (magic, c1)
  read_crc : get_u32 c1 ≡ ok (crc, c2)
  read_seq : get_u64 c2 ≡ ok (seq, c3)
  read_stream : get_u64 c3 ≡ ok (stream_id, c4)
  read_offset : get_i64 c4 ≡ ok (offset, c5)
  read_len : get_u32 c5 ≡ ok (len, c6)

header_total : (src : Bytes) → 36 ≤ length src → Header src
header_total src h =
    let (magic, e1) = get_u32_total src (omega arith) in
    let (crc, e2) = get_u32_total (drop 4 src) (omega (arith, length-drop 4 src)) in
    let src2 : Bytes = drop 4 (drop 4 src) in
    let l2 : length src2 ≡ length src - 8 =
      omega (arith, length-drop 4 (drop 4 src), length-drop 4 src) in
    let (seq, e3) = get_u64_total src2 (omega arith) in
    let (sid, e4) = get_u64_total (drop 8 src2) (omega (arith, length-drop 8 src2)) in
    let src4 : Bytes = drop 8 (drop 8 src2) in
    let l4 : length src4 ≡ length src - 24 =
      omega (arith, length-drop 8 (drop 8 src2), length-drop 8 src2) in
    let (offset, e5) = get_i64_total src4 (omega arith) in
    let (len, e6) = get_u32_total (drop 8 src4) (omega (arith, length-drop 8 src4)) in
    record {
      magic = magic;
      crc = crc;
      seq = seq;
      stream_id = sid;
      offset = offset;
      len = len;
      c1 = drop 4 src;
      c2 = src2;
      c3 = drop 8 src2;
      c4 = src4;
      c5 = drop 8 src4;
      c6 = drop 4 (drop 8 src4);
      read_magic = e1;
      read_crc = e2;
      read_seq = e3;
      read_stream = e4;
      read_offset = e5;
      read_len = e6;
    }

header-append : (src more : Bytes) → Header src → Header (src ++ more)
header-append src more h = record {
  magic = h.magic;
  crc = h.crc;
  seq = h.seq;
  stream_id = h.stream_id;
  offset = h.offset;
  len = h.len;
  c1 = h.c1 ++ more;
  c2 = h.c2 ++ more;
  c3 = h.c3 ++ more;
  c4 = h.c4 ++ more;
  c5 = h.c5 ++ more;
  c6 = h.c6 ++ more;
  read_magic = get_u32-append src more h.read_magic;
  read_crc = get_u32-append h.c1 more h.read_crc;
  read_seq = get_u64-append h.c2 more h.read_seq;
  read_stream = get_u64-append h.c3 more h.read_stream;
  read_offset = get_i64-append h.c4 more h.read_offset;
  read_len = get_u32-append h.c5 more h.read_len;
}

record_of : (seq stream_id : ℕ) (offset : ℤ) (payload : Bytes) → WalRecord
record_of seq stream_id offset payload = record {
  seq = seq;
  stream_id = stream_id;
  offset = offset;
  payload = payload;
}

-- What `decode` answers, from the fields of the header.
verdict : (magic crc seq stream_id len : ℕ) (offset : ℤ) → Bytes → Result (Option (WalRecord × ℕ))
verdict magic crc seq stream_id len offset src =
    let actual = compute_crc32c (take (28 + len) (drop 8 src)) in
    if not (magic == wal_magic)
    then err storage
    else if ltb (length src) (36 + len)
    then ok none
    else if not (actual == crc)
    then err (corrupted_record crc actual)
    else ok (some (record_of seq stream_id offset (take len (drop 36 src)), 36 + len))

decode_no_header : (src : Bytes) → length src < 36 → decode src ≡ ok none
unfolding decode
decode_no_header src h = ground arith

verdict-ne-panic :
    (magic crc seq stream_id len : ℕ) (offset : ℤ) (src : Bytes)
    → verdict magic crc seq stream_id len offset src ≢ panic
unfolding verdict
verdict-ne-panic magic crc seq stream_id len offset src = ground arith

take-drop-append :
    (a b : ℕ) (src more : Bytes)
    → b + a ≤ length src
    → take a (drop b (src ++ more)) ≡ take a (drop b src)
take-drop-append a b src more h =
    rw (drop-append_le b src more (omega arith))
      (take-append_le a (drop b src) more (omega (arith, length-drop b src)))

module _ (magic crc seq stream_id len : ℕ) (offset : ℤ) (src : Bytes) where
  verdict_consumes :
      (r : WalRecord) (n : ℕ)
      → verdict magic crc seq stream_id len offset src ≡ ok (some (r, n))
      → (n ≤ length src) × (n ≡ 36 + length r.payload)
  unfolding verdict record_of
  verdict_consumes r n e = ground (arith, length-take len (drop 36 src), length-drop 36 src)

  verdict-append :
      (more : Bytes)
      → verdict magic crc seq stream_id len offset src ≢ ok none
      → verdict magic crc seq stream_id len offset (src ++ more)
        ≡ verdict magic crc seq stream_id len offset src
  unfolding verdict
  verdict-append more h = ground (
    arith,
    length-append src more,
    take-drop-append (28 + len) 8 src more,
    take-drop-append len 36 src more,
  )

decode-verdict :
    (src : Bytes) (h : Header src)
    → 36 ≤ length src
    → decode src ≡ verdict h.magic h.crc h.seq h.stream_id h.len h.offset src
unfolding decode verdict slice record_of
decode-verdict src h has_header = ground (
  arith,
  ap (λ (n : ℕ). take n (drop 8 src)) body_length,
  ap (λ (n : ℕ). take n (drop 36 src)) payload_length,
)
  where
    body_length : 36 + h.len - 8 ≡ 28 + h.len
    body_length = omega arith

    payload_length : 36 + h.len - 36 ≡ h.len
    payload_length = omega arith

-- `decode` is defined on every input: no read and no slice is out of range.
pub decode-ne-panic : (src : Bytes) → decode src ≢ panic
decode-ne-panic src = elim (dec_lt (length src) 36) [
  | yes short ↦ rw (decode_no_header src short) (λ p. cc)
  | no long ↦ whole (omega arith)
]
  where
    whole : 36 ≤ length src → decode src ≢ panic
    whole l = rw (decode-verdict src (header_total src l) l) (verdict-ne-panic _ _ _ _ _ _ src)

-- A record is decoded from a part of the input, of 36 bytes at least and as long as the record.
pub decode_consumes :
    (src : Bytes) (r : WalRecord) (n : ℕ)
    → decode src ≡ ok (some (r, n))
    → (n ≤ length src) × (n ≡ 36 + length r.payload)
decode_consumes src r n e = elim (dec_lt (length src) 36) [
  | yes short ↦ absurd (cc (decode_no_header src short))
  | no long ↦ whole (omega arith)
]
  where
    whole : 36 ≤ length src → (n ≤ length src) × (n ≡ 36 + length r.payload)
    whole l =
        let h = header_total src l in
        verdict_consumes h.magic h.crc h.seq h.stream_id h.len h.offset src r n
          (sym (decode-verdict src h l) ∙ e)

-- More input does not change an answer other than `Ok(None)`.
pub decode-append : (src more : Bytes) → decode src ≢ ok none → decode (src ++ more) ≡ decode src
unfolding header-append
decode-append src more e = elim (dec_lt (length src) 36) [
  | yes short ↦ absurd (e (decode_no_header src short))
  | no long ↦ whole (omega arith)
]
  where
    whole : 36 ≤ length src → decode (src ++ more) ≡ decode src
    whole l =
        let h = header_total src l in
        decode-verdict (src ++ more) (header-append src more h)
          (omega (arith, length-append src more))
        ∙ verdict-append h.magic h.crc h.seq h.stream_id h.len h.offset src more
            (λ v. e (decode-verdict src h l ∙ v))
        ∙ sym (decode-verdict src h l)
