-- ===== src/Protocol/Codec/Frames.antt =====
-- Frames on a connection: whole ones are read back, cut ones are waited for.
use mathlib.Core.Path.{subst}
use oxide_mq.Base.{
  ℕ, suc, ◌+◌, ◌%◌, ◌^◌, ◌<◌, ◌≤◌, ◌≡◌, refl, sym, ap, ◌∙◌, [], ◌∷◌, ◌++◌, none, some, length,
  length-append, take, drop, take-append_length, drop-append_length, arith, ltb, true, false,
  if◌then◌else◌, take-append_le, take-append-drop, length-drop, append_assoc, Bool-cases, inl, inr,
  lt→ltb, ltb→lt,
}
use oxide_mq.Base.Int.{ℤ, pos, of_word, to_word}
use oxide_mq.Base.Result.{ok}
use oxide_mq.Bytes.{Bytes, get_i32, put_i32, put_u32}
use oxide_mq.Bytes.Laws.{get_u32-put_u32, length-put_u32}
use oxide_mq.Protocol.Codec.{max_kafka_frame_size, decode_frame, decode, encode}

get_i32-put_i32 :
    (n : ℕ) (rest : Bytes)
    → n < 2 ^ 31
    → get_i32 (put_i32 (of_word (2 ^ 32) (n % 2 ^ 32)) ++ rest) ≡ ok (pos n, rest)
unfolding get_i32 put_i32
get_i32-put_i32 n rest h =
    subst (λ w. get_i32 (put_u32 w ++ rest) ≡ ok (pos n, rest)) (sym word)
      (rw (get_u32-put_u32 n rest (omega (arith, h)), get_i32) (ap (λ z. ok (z, rest)) low))
  where
    low : of_word (2 ^ 32) n ≡ pos n
    low = ground (arith, h)

    word : to_word (2 ^ 32) (of_word (2 ^ 32) (n % 2 ^ 32)) ≡ n
    word = ground (arith, h)

length-put_i32 : (z : ℤ) → length (put_i32 z) ≡ 4
unfolding put_i32
length-put_i32 z = length-put_u32 (to_word (2 ^ 32) z)

-- What stands before the item in its frame.
prefix : Bytes → Bytes
prefix item = put_i32 (of_word (2 ^ 32) (length item % 2 ^ 32))

decode-prefix :
    (item rest : Bytes)
    → length item ≤ max_kafka_frame_size
    → decode (prefix item ++ rest) ≡ (
        if ltb (length rest) (length item)
        then (ok none, prefix item ++ rest)
        else (ok (some (take (length item) rest)), drop (length item) rest))
unfolding decode decode_frame prefix
decode-prefix item rest h =
    rw (get_i32-put_i32 (length item) rest (omega (arith, h)), decode)
      (ground (
        arith,
        h,
        length-append (put_i32 (of_word (2 ^ 32) (length item % 2 ^ 32))) rest,
        length-put_i32 (of_word (2 ^ 32) (length item % 2 ^ 32)),
      ))

-- A frame of at most the largest size is read back whole, whatever follows it, which stays in the
-- buffer.
pub decode-encode_frame :
    (item rest : Bytes)
    → length item ≤ max_kafka_frame_size
    → decode (encode item [] ++ rest) ≡ (ok (some item), rest)
unfolding encode prefix
decode-encode_frame item rest h =
    ap decode (append_assoc (prefix item) item rest)
    ∙ decode-prefix item (item ++ rest) h
    ∙ rw enough (λ i. (
      ok (some (take-append_length (length item) item rest refl i)),
      drop-append_length (length item) item rest refl i,
    ))
  where
    enough : ltb (length (item ++ rest)) (length item) ≡ false
    enough = ground (arith, length-append item rest)

decode_short : (src : Bytes) → length src < 4 → decode src ≡ (ok none, src)
unfolding decode
decode_short src h = rw (lt→ltb (length src) 4 h) refl

-- A proper prefix of a frame of at most the largest size is waited for: nothing is read and the
-- buffer stays as it is.
pub decode_torn_frame :
    (item front back : Bytes) (x : ℕ)
    → length item ≤ max_kafka_frame_size
    → encode item [] ≡ front ++ (x ∷ back)
    → decode front ≡ (ok none, front)
unfolding encode prefix
decode_torn_frame item front back x h e = elim (Bool-cases (ltb (length front) 4)) [
  | inl short ↦ decode_short front (ltb→lt (length front) 4 short)
  | inr long ↦
      subst (λ src. decode src ≡ (ok none, src)) (sym (split long))
        (decode-prefix item (drop 4 front) h ∙ rw (waits long) refl)
]
  where
    starts : ltb (length front) 4 ≡ false → take 4 front ≡ prefix item
    starts long =
        sym (take-append_le 4 front (x ∷ back) (ground (arith, long)))
        ∙ ap (take 4) (sym e)
        ∙ take-append_length 4 (prefix item) item
            (length-put_i32 (of_word (2 ^ 32) (length item % 2 ^ 32)))

    split : ltb (length front) 4 ≡ false → front ≡ prefix item ++ drop 4 front
    split long = sym (take-append-drop 4 front) ∙ ap (λ p. p ++ drop 4 front) (starts long)

    sizes : 4 + length item ≡ length front + suc (length back)
    sizes = omega (
      arith,
      ap length e,
      length-append (prefix item) item,
      length-put_i32 (of_word (2 ^ 32) (length item % 2 ^ 32)),
      length-append front (x ∷ back),
    )

    waits : ltb (length front) 4 ≡ false → ltb (length (drop 4 front)) (length item) ≡ true
    waits long = ground (arith, long, sizes, length-drop 4 front)
