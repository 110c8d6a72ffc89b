-- ===== src/Bytes/Laws.antt =====
-- The reads undo the writes, and the reads succeed on buffers that are long enough.
use oxide_mq.Base.{
  ℕ, ◌+◌, ◌*◌, ◌/◌, ◌%◌, ◌-◌, ◌^◌, ◌<◌, ◌≤◌, ◌≡◌, refl, ap, ◌∷◌, ◌++◌, append_assoc, length, drop,
  length-append, take-append_length, drop-append_length, arith,
}
use oxide_mq.Base.Int.{ℤ, to_word, of_word, IsI64, of_word-to_word_64, to_word-lt_64}
use oxide_mq.Base.Result.{ok}
use oxide_mq.Bytes.{
  Bytes, put_u16, put_u32, put_u64, put_i64, get_u16, get_u32, get_u64, get_i64, slice, overwrite,
}

pub get_u16-put_u16 :
    (v : ℕ) (rest : Bytes) → v < 2 ^ 16 → get_u16 (put_u16 v ++ rest) ≡ ok (v, rest)
unfolding get_u16 put_u16
get_u16-put_u16 v rest h = ground arith

get_u32-put_u32_mod : (v : ℕ) (rest : Bytes) → get_u32 (put_u32 v ++ rest) ≡ ok (v % 2 ^ 32, rest)
unfolding get_u32 put_u32
get_u32-put_u32_mod v rest = ground arith

pub get_u32-put_u32 :
    (v : ℕ) (rest : Bytes) → v < 2 ^ 32 → get_u32 (put_u32 v ++ rest) ≡ ok (v, rest)
get_u32-put_u32 v rest h = ground (arith, get_u32-put_u32_mod v rest)

pub get_u64-put_u64 :
    (v : ℕ) (rest : Bytes) → v < 2 ^ 64 → get_u64 (put_u64 v ++ rest) ≡ ok (v, rest)
unfolding get_u64 put_u64
get_u64-put_u64 v rest h =
    rw (append_assoc (put_u32 (v / 2 ^ 32)) (put_u32 v) rest)
      (rw get_u32-put_u32_mod (rw get_u32-put_u32_mod (ground arith)))

pub get_i64-put_i64 : (z : ℤ) (rest : Bytes) → IsI64 z → get_i64 (put_i64 z ++ rest) ≡ ok (z, rest)
unfolding get_i64 put_i64
get_i64-put_i64 z rest h =
    rw (get_u64-put_u64 (to_word (2 ^ 64) z) rest (to_word-lt_64 z)) (rw (of_word-to_word_64 z h))

pub length-put_u16 : (v : ℕ) → length (put_u16 v) ≡ 2
unfolding put_u16
length-put_u16 v = refl

pub length-put_u32 : (v : ℕ) → length (put_u32 v) ≡ 4
unfolding put_u32
length-put_u32 v = refl

pub length-put_u64 : (v : ℕ) → length (put_u64 v) ≡ 8
unfolding put_u64 put_u32
length-put_u64 v = refl

pub length-put_i64 : (z : ℤ) → length (put_i64 z) ≡ 8
unfolding put_i64
length-put_i64 z = length-put_u64 (to_word (2 ^ 64) z)

-- A read on a long enough buffer: some value, and the rest after the bytes read.
pub get_u16_total : (src : Bytes) → 2 ≤ length src → (v : ℕ) × (get_u16 src ≡ ok (v, drop 2 src))
unfolding get_u16
get_u16_total (a ∷ b ∷ r) h = (a * 2 ^ 8 + b, refl)
get_u16_total _ h = absurd (omega arith)

pub get_u32_total : (src : Bytes) → 4 ≤ length src → (v : ℕ) × (get_u32 src ≡ ok (v, drop 4 src))
unfolding get_u32
get_u32_total (a ∷ b ∷ c ∷ d ∷ r) h = (((a * 2 ^ 8 + b) * 2 ^ 8 + c) * 2 ^ 8 + d, refl)
get_u32_total _ h = absurd (omega arith)

pub get_u64_total : (src : Bytes) → 8 ≤ length src → (v : ℕ) × (get_u64 src ≡ ok (v, drop 8 src))
unfolding get_u64 get_u32
get_u64_total (a ∷ b ∷ c ∷ d ∷ a' ∷ b' ∷ c' ∷ d' ∷ r) h = (_, refl)
get_u64_total _ h = absurd (omega arith)

pub get_i64_total : (src : Bytes) → 8 ≤ length src → (v : ℤ) × (get_i64 src ≡ ok (v, drop 8 src))
unfolding get_i64
get_i64_total src h = let (v, e) = get_u64_total src h in (of_word (2 ^ 64) v, rw e)

pub slice-append :
    (pre mid rest : Bytes) (a b : ℕ)
    → length pre ≡ a
    → a + length mid ≡ b
    → slice a b (pre ++ (mid ++ rest)) ≡ ok mid
unfolding slice
slice-append pre mid rest a b ha hb = ground (
  arith,
  length-append pre (mid ++ rest),
  length-append mid rest,
  drop-append_length a pre (mid ++ rest) ha,
  take-append_length (b - a) mid rest (omega arith),
)

pub overwrite-append :
    (pre new old rest : Bytes)
    → length new ≡ length old
    → overwrite (length pre) new (pre ++ (old ++ rest)) ≡ pre ++ (new ++ rest)
unfolding overwrite
overwrite-append pre new old rest h =
    rw (take-append_length (length pre) pre (old ++ rest) refl)
      (ap (λ t. pre ++ (new ++ t)) (rw (← append_assoc pre old rest) dropped))
  where
    dropped : drop (length pre + length new) ((pre ++ old) ++ rest) ≡ rest
    dropped =
        drop-append_length (length pre + length new) (pre ++ old) rest
          (omega (arith, length-append pre old))

-- A read that succeeds does not look past what it takes.
pub get_u16-append :
    (src more : Bytes) {v : ℕ} {r : Bytes}
    → get_u16 src ≡ ok (v, r)
    → get_u16 (src ++ more) ≡ ok (v, r ++ more)
unfolding get_u16
get_u16-append (a ∷ b ∷ s) more h = ground arith
get_u16-append _ more h = cc

pub get_u32-append :
    (src more : Bytes) {v : ℕ} {r : Bytes}
    → get_u32 src ≡ ok (v, r)
    → get_u32 (src ++ more) ≡ ok (v, r ++ more)
unfolding get_u32
get_u32-append (a ∷ b ∷ c ∷ d ∷ s) more h = ground arith
get_u32-append _ more h = cc

pub get_u64-append :
    (src more : Bytes) {v : ℕ} {r : Bytes}
    → get_u64 src ≡ ok (v, r)
    → get_u64 (src ++ more) ≡ ok (v, r ++ more)
unfolding get_u64 get_u32
get_u64-append (a ∷ b ∷ c ∷ d ∷ a' ∷ b' ∷ c' ∷ d' ∷ s) more h = ground arith
get_u64-append _ more h = cc

pub get_i64-append :
    (src more : Bytes) {v : ℤ} {r : Bytes}
    → get_i64 src ≡ ok (v, r)
    → get_i64 (src ++ more) ≡ ok (v, r ++ more)
unfolding get_i64 get_u64 get_u32
get_i64-append (a ∷ b ∷ c ∷ d ∷ a' ∷ b' ∷ c' ∷ d' ∷ s) more h = ground arith
get_i64-append _ more h = cc
