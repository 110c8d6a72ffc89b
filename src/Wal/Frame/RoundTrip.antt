-- ===== src/Wal/Frame/RoundTrip.antt =====
-- `decode` undoes `encode`.
use oxide_mq.Base.{
  ℕ, suc, ◌+◌, ◌%◌, ◌^◌, ◌<◌, ◌≤◌, ◌≡◌, refl, sym, ap, ◌∙◌, [], ◌∷◌, ◌++◌, append-nil, append_assoc,
  Option, none, some, length, drop, length-append, drop-append_length, arith,
}
use oxide_mq.Base.Eq.{nat_eq}
use oxide_mq.Base.Result.{Result, ok, err, panic}
use oxide_mq.Bytes.{Bytes, put_u32, put_u64, put_i64, get_u32, get_u64, get_i64, slice, overwrite}
use oxide_mq.Bytes.Laws.{
  get_u32-put_u32, get_u64-put_u64, get_i64-put_i64, length-put_u32, length-put_u64, length-put_i64,
  slice-append, overwrite-append,
}
use oxide_mq.Crc.{compute_crc32c, compute_crc32c-lt}
use oxide_mq.Wal.Frame.Bounds.{decode-ne-panic, decode_consumes, decode-append}
use oxide_mq.Wal.Frame.{WalRecord, IsWalRecord, wal_magic, header_size, encode, decode}

-- What the checksum covers.
unfoldable pub body : WalRecord → Bytes
body r =
    put_u64 r.seq
    ++ (put_u64 r.stream_id
        ++ (put_i64 r.offset ++ (put_u32 (length r.payload % 2 ^ 32) ++ r.payload)))

unfoldable pub frame : WalRecord → Bytes
frame r = put_u32 wal_magic ++ (put_u32 (compute_crc32c (body r)) ++ body r)

abbrev five_lengths : Bytes → Bytes → Bytes → Bytes → Bytes → ℕ
five_lengths a b c d e = length a + (length b + (length c + (length d + length e)))

length-append_five :
    (a b c d e : Bytes) → length (a ++ (b ++ (c ++ (d ++ e)))) ≡ five_lengths a b c d e
length-append_five a b c d e = omega (
  arith,
  length-append a (b ++ (c ++ (d ++ e))),
  length-append b (c ++ (d ++ e)),
  length-append c (d ++ e),
  length-append d e,
)

pub length-body : (r : WalRecord) → length (body r) ≡ 28 + length r.payload
unfolding body
length-body r = omega (
  arith,
  length-append_five (put_u64 r.seq) (put_u64 r.stream_id) (put_i64 r.offset)
      (put_u32 (length r.payload % 2 ^ 32)) r.payload,
  length-put_u64 r.seq,
  length-put_u64 r.stream_id,
  length-put_i64 r.offset,
  length-put_u32 (length r.payload % 2 ^ 32),
)

pub length-frame : (r : WalRecord) → length (frame r) ≡ 36 + length r.payload
unfolding frame
length-frame r = omega (
  arith,
  length-append (put_u32 wal_magic) (put_u32 (compute_crc32c (body r)) ++ body r),
  length-append (put_u32 (compute_crc32c (body r))) (body r),
  length-put_u32 wal_magic,
  length-put_u32 (compute_crc32c (body r)),
  length-body r,
)

-- The checksum is written over its placeholder.
patch_checksum :
    (dst m b : Bytes)
    → overwrite
        (length (dst ++ m))
        (put_u32 (
          compute_crc32c
            (drop (length ((dst ++ m) ++ put_u32 0)) (((dst ++ m) ++ put_u32 0) ++ b))))
        (((dst ++ m) ++ put_u32 0) ++ b)
      ≡ dst ++ (m ++ (put_u32 (compute_crc32c b) ++ b))
patch_checksum dst m b =
    rw (drop-append_length (length ((dst ++ m) ++ put_u32 0)) ((dst ++ m) ++ put_u32 0) b refl) (
      rw (append_assoc (dst ++ m) (put_u32 0) b) (
        overwrite-append (dst ++ m) (put_u32 (compute_crc32c b)) (put_u32 0) b
          (length-put_u32 (compute_crc32c b) ∙ sym (length-put_u32 0))
        ∙ append_assoc dst m (put_u32 (compute_crc32c b) ++ b)))

pub encode-frame : (r : WalRecord) (dst : Bytes) → encode r dst ≡ dst ++ frame r
unfolding encode frame body
encode-frame r dst = patch_checksum dst (put_u32 wal_magic) (body r)

-- `decode` on an input whose header reads as `r` with the checksum `crc`.
module _ (src c1 c2 c3 c4 c5 c6 : Bytes) (r : WalRecord) (crc len : ℕ)
    (read_magic : get_u32 src ≡ ok (wal_magic, c1)) (read_crc : get_u32 c1 ≡ ok (crc, c2))
    (read_seq : get_u64 c2 ≡ ok (r.seq, c3)) (read_stream : get_u64 c3 ≡ ok (r.stream_id, c4))
    (read_offset : get_i64 c4 ≡ ok (r.offset, c5)) (read_len : get_u32 c5 ≡ ok (len, c6))
    (has_header : 36 ≤ length src) where
  decode_short : length src < 36 + len → decode src ≡ ok none
  unfolding decode
  decode_short h = ground arith

  decode_whole :
      36 + len ≤ length src
      → slice 8 (36 + len) src ≡ ok (body r)
      → compute_crc32c (body r) ≡ crc
      → slice 36 (36 + len) src ≡ ok r.payload
      → decode src ≡ ok (some (r, 36 + len))
  unfolding decode
  decode_whole h hb hc hp = ground arith

module _ (r : WalRecord) (rest : Bytes) where
  frame-append :
      frame r ++ rest
      ≡ put_u32 wal_magic
        ++ (put_u32 (compute_crc32c (body r))
            ++ (put_u64 r.seq
                ++ (put_u64 r.stream_id
                    ++ (put_i64 r.offset
                        ++ (put_u32 (length r.payload % 2 ^ 32) ++ (r.payload ++ rest))))))
  unfolding frame body
  frame-append = simp append_assoc

  slice-body : slice 8 (36 + length r.payload) (frame r ++ rest) ≡ ok (body r)
  unfolding frame
  slice-body = rw split (
      slice-append pre (body r) rest 8 (36 + length r.payload)
        (omega (
          arith,
          length-append (put_u32 wal_magic) crc,
          length-put_u32 wal_magic,
          length-put_u32 (compute_crc32c (body r)),
        ))
        (omega (arith, length-body r)))
    where
      crc : Bytes
      crc = put_u32 (compute_crc32c (body r))

      pre : Bytes
      pre = put_u32 wal_magic ++ crc

      split : frame r ++ rest ≡ pre ++ (body r ++ rest)
      split = simp append_assoc

  -- all of the frame but the payload
  head : Bytes
  head =
      put_u32 wal_magic
      ++ (put_u32 (compute_crc32c (body r))
          ++ (put_u64 r.seq
              ++ (put_u64 r.stream_id
                  ++ (put_i64 r.offset ++ put_u32 (length r.payload % 2 ^ 32)))))

  frame-head : frame r ++ rest ≡ head ++ (r.payload ++ rest)
  unfolding frame body head
  frame-head = simp append_assoc

  length-head : length head ≡ 36
  unfolding head
  length-head = omega (
    arith,
    length-append (put_u32 wal_magic) _,
    length-append_five (put_u32 (compute_crc32c (body r))) (put_u64 r.seq) (put_u64 r.stream_id)
        (put_i64 r.offset) (put_u32 (length r.payload % 2 ^ 32)),
    length-put_u32 wal_magic,
    length-put_u32 (compute_crc32c (body r)),
    length-put_u64 r.seq,
    length-put_u64 r.stream_id,
    length-put_i64 r.offset,
    length-put_u32 (length r.payload % 2 ^ 32),
  )

  payload_slice : slice 36 (36 + length r.payload) (frame r ++ rest) ≡ ok r.payload
  payload_slice =
      rw frame-head
        (slice-append head r.payload rest 36 (36 + length r.payload) length-head (omega arith))

  pub decode-frame : IsWalRecord r → decode (frame r ++ rest) ≡ ok (some (r, 36 + length r.payload))
  decode-frame v =
      decode_whole (frame r ++ rest) _ _ _ _ _ (r.payload ++ rest) r (compute_crc32c (body r))
        (length r.payload) (ap get_u32 frame-append ∙ get_u32-put_u32 wal_magic _ (omega arith))
        (get_u32-put_u32 (compute_crc32c (body r)) _ (compute_crc32c-lt (body r)))
        (get_u64-put_u64 r.seq _ v.seq_range) (get_u64-put_u64 r.stream_id _ v.stream_range)
        (get_i64-put_i64 r.offset _ v.offset_range)
        (ground
          (arith, get_u32-put_u32 (length r.payload % 2 ^ 32) (r.payload ++ rest) (omega arith)))
        (omega (arith, length-append (frame r) rest, length-frame r))
        (omega (arith, length-append (frame r) rest, length-frame r)) slice-body refl payload_slice

-- Every record in the range of its types, written to any buffer and followed by any bytes, is read
-- back whole from where it was written, with the number of bytes that it takes.
pub decode-encode :
    (r : WalRecord) (dst rest : Bytes)
    → IsWalRecord r
    → decode (drop (length dst) (encode r dst ++ rest))
      ≡ ok (some (r, header_size + length r.payload))
decode-encode r dst rest v = rw (encode-frame r dst) (
    rw (append_assoc dst (frame r) rest)
      (rw (drop-append_length (length dst) dst (frame r ++ rest) refl) (decode-frame r rest v)))

-- A proper prefix of an encoded record is `Ok(None)`: a torn write is never read as a record, nor as
-- a corruption.
pub decode_torn :
    (r : WalRecord) (front back : Bytes) (x : ℕ)
    → IsWalRecord r
    → encode r [] ≡ front ++ (x ∷ back)
    → decode front ≡ ok none
decode_torn r front back x v e = go (decode front) refl
  where
    whole : decode (front ++ (x ∷ back)) ≡ ok (some (r, 36 + length r.payload))
    whole = rw (sym e ∙ encode-frame r [] ∙ sym (append-nil (frame r))) (decode-frame r [] v)

    size : length front + suc (length back) ≡ 36 + length r.payload
    size = omega (
      arith,
      ap length (sym e ∙ encode-frame r []),
      length-append front (x ∷ back),
      length-frame r,
    )

    go : (d : Result (Option (WalRecord × ℕ))) → decode front ≡ d → decode front ≡ ok none
    go (ok none) h = h
    go (ok (some (r', n))) h =
        let same : n ≡ 36 + length r.payload =
          ground (arith, h, whole, decode-append front (x ∷ back) (λ p. cc)) in
        absurd (omega (arith, same, size, decode_consumes front r' n h))
    go (err y) h = absurd (cc (decode-append front (x ∷ back) (λ p. cc), whole))
    go panic h = absurd (decode-ne-panic front h)
