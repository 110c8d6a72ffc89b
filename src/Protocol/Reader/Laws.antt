-- ===== src/Protocol/Reader/Laws.antt =====
-- What a reader takes off the front of a buffer, and how that composes.
use mathlib.Core.Path.{subst}
use oxide_mq.Base.{
  ℕ, ◌%◌, ◌^◌, ◌<◌, ◌≡◌, refl, ap, ◌∙◌, List, [], ◌∷◌, ◌++◌, append_assoc, Option, none, some, Bool,
  true, false, length, take-append_length, drop-append_length, length-append, All, All-map, map,
  ltb, if◌then◌else◌, arith,
}
use oxide_mq.Base.Int.{ℤ, pos, negsuc, pos_part, ltb_ℤ, of_word, to_word, IsI64}
use oxide_mq.Base.Result.{ok}
use oxide_mq.Bytes.{Bytes, get_u8, get_i16, get_i32, get_i64, put_i16, put_i32, put_i64}
use oxide_mq.Bytes.Laws.{
  get_u16-put_u16, length-put_u16, length-put_u32, get_u32-put_u32, get_i64-put_i64,
}
use oxide_mq.Protocol.Parser.{
  read_string, write_string, read_bytes, write_bytes, read_text, read_body,
}
use oxide_mq.Protocol.Reader.{
  Reader, ◌>>=◌, returns, get_i8, put_u8, put_i8, get_bool, put_bool, get_string, repeated,
  get_count, with_capacity, get_vec, put_each, put_vec, IsI8, IsI16, IsI32, IsText, IsOptionalText,
  read_if, write_if, get_flag, get_error, put_error, get_data, put_data, get_nullable_vec,
  put_nullable_vec, IsData, IsVec, IsNullable, put_string,
}
use oxide_mq.Broker.Codes.{KafkaErrorCode, as_i16}
use oxide_mq.Protocol.ErrorCode.{codes}

-- The reader takes exactly these bytes, whatever follows, and answers with this value.
pub record Reads {ℓ} {A : Type ℓ} (p : Reader A) (bytes : Bytes) (v : A) : Type ℓ where
  pub taken : (rest : Bytes) → p (bytes ++ rest) ≡ ok (v, rest)

module _ {ℓ κ} {A : Type ℓ} {B : Type κ} where
  pub reads_then :
      {p : Reader A} (k : A → Reader B) {front back : Bytes} {v : A} {w : B}
      → Reads p front v
      → Reads (k v) back w
      → Reads (p >>= k) (front ++ back) w
  unfolding ◌>>=◌
  reads_then k {front} {back} hp hk = record {
    taken = λ rest. rw (append_assoc front back rest, hp.taken (back ++ rest)) (hk.taken rest);
  }

  pub reads_last :
      {p : Reader A} (k : A → Reader B) {front : Bytes} {v : A} {w : B}
      → Reads p front v
      → k v ≡ returns w
      → Reads (p >>= k) front w
  unfolding ◌>>=◌ returns
  reads_last k hp hk = record { taken = λ rest. rw (hp.taken rest) (ap (λ q. q rest) hk) }

pub reads_nothing {ℓ} : {A : Type ℓ} (v : A) → Reads (returns v) [] v
unfolding returns
reads_nothing v = record { taken = λ rest. refl }

-- A field that only some versions carry.
pub reads_if {ℓ} :
    {A : Type ℓ} {p : Reader A} {bytes : Bytes} {v : A} (test : Bool) (default : A)
    → Reads p bytes v
    → Reads (read_if test p default) (write_if test bytes) (if test then v else default)
unfolding returns
reads_if true default h = h
reads_if false default h = reads_nothing default

pub reads_i16 : (z : ℤ) → IsI16 z → Reads get_i16 (put_i16 z) z
unfolding get_i16 put_i16
reads_i16 z h = record {
  taken = λ rest.
      rw (get_u16-put_u16 (to_word (2 ^ 16) z) rest (below z)) (ap (λ t. ok (t, rest)) (same z h));
}
  where
    below : (z : ℤ) → to_word (2 ^ 16) z < 2 ^ 16
    below (pos n) = omega arith
    below (negsuc n) = omega arith

    same : (z : ℤ) → IsI16 z → of_word (2 ^ 16) (to_word (2 ^ 16) z) ≡ z
    same (pos n) h = ground (arith, h)
    same (negsuc n) h = ground (arith, h)

pub reads_i32 : (z : ℤ) → IsI32 z → Reads get_i32 (put_i32 z) z
unfolding get_i32 put_i32
reads_i32 z h = record {
  taken = λ rest.
      rw (get_u32-put_u32 (to_word (2 ^ 32) z) rest (below z)) (ap (λ t. ok (t, rest)) (same z h));
}
  where
    below : (z : ℤ) → to_word (2 ^ 32) z < 2 ^ 32
    below (pos n) = omega arith
    below (negsuc n) = omega arith

    same : (z : ℤ) → IsI32 z → of_word (2 ^ 32) (to_word (2 ^ 32) z) ≡ z
    same (pos n) h = ground (arith, h)
    same (negsuc n) h = ground (arith, h)

pub reads_i64 : (z : ℤ) → IsI64 z → Reads get_i64 (put_i64 z) z
reads_i64 z h = record { taken = λ rest. get_i64-put_i64 z rest h }

pub reads_i8 : (z : ℤ) → IsI8 z → Reads get_i8 (put_i8 z) z
unfolding get_i8 put_i8 put_u8 get_u8 returns ◌>>=◌
reads_i8 z h = record { taken = λ rest. ap (λ t. ok (t, rest)) (same z h) }
  where
    same : (z : ℤ) → IsI8 z → of_word (2 ^ 8) (to_word (2 ^ 8) z % 2 ^ 8) ≡ z
    same (pos n) h = ground (arith, h)
    same (negsuc n) h = ground (arith, h)

pub reads_bool : (b : Bool) → Reads get_bool (put_bool b) b
unfolding get_bool put_bool put_u8 get_u8 returns ◌>>=◌
reads_bool true = record { taken = λ rest. refl }
reads_bool false = record { taken = λ rest. refl }

-- The length before a text or a list.
small_count : (n : ℕ) → n < 2 ^ 31 → of_word (2 ^ 32) (n % 2 ^ 32) ≡ pos n
small_count n h = ground (arith, h)

pub reads_length :
    (n : ℕ) → n < 2 ^ 31 → Reads get_i32 (put_i32 (of_word (2 ^ 32) (n % 2 ^ 32))) (pos n)
reads_length n h = rw (small_count n h) (reads_i32 (pos n) (omega (arith, h)))

pub nonneg : (n : ℕ) → ltb_ℤ (pos n) (pos 0) ≡ false
nonneg n = ground arith

pub reads_count : (n : ℕ) → n < 2 ^ 31 → Reads get_count (put_i32 (of_word (2 ^ 32) (n % 2 ^ 32))) n
unfolding get_count
reads_count n h = reads_last _ (reads_length n h) (ap returns (omega (arith, h)))

-- A text of fewer than 2^15 bytes.
pub reads_prefix : (s : Bytes) → Reads (read_body (length s)) s s
unfolding read_body
reads_prefix s = record {
  taken = λ rest.
      rw
        (
          fits rest,
          take-append_length (length s) s rest refl,
          drop-append_length (length s) s rest refl,
        )
        refl;
}
  where
    fits : (rest : Bytes) → ltb (length (s ++ rest)) (length s) ≡ false
    fits rest = ground (arith, length-append s rest)

pub reads_body : (s : Bytes) → IsText s → Reads (read_text (length s)) s (some s)
unfolding read_text
reads_body s h = record { taken = λ rest. rw ((reads_prefix s).taken rest, h.0) refl }

pub length-put_i32 : (z : ℤ) → length (put_i32 z) ≡ 4
unfolding put_i32
length-put_i32 z = length-put_u32 (to_word (2 ^ 32) z)

pub length-put_i16 : (z : ℤ) → length (put_i16 z) ≡ 2
unfolding put_i16
length-put_i16 z = length-put_u16 (to_word (2 ^ 16) z)

after_length :
    (z : ℤ) (src : Bytes)
    → IsI16 z
    → read_string (put_i16 z ++ src)
      ≡ (if ltb_ℤ z (pos 0) then ok (none, src) else read_text (pos_part z) src)
unfolding read_string
after_length z src h = rw (long, read_string, (reads_i16 z h).taken src) refl
  where
    long : ltb (length (put_i16 z ++ src)) 2 ≡ false
    long = ground (arith, length-append (put_i16 z) src, length-put_i16 z)

pub reads_text : (s : Option Bytes) → IsOptionalText s → Reads read_string (write_string s) s
unfolding write_string
reads_text none h = record { taken = λ rest. after_length (negsuc 0) rest (omega arith) }
reads_text (some s) h = record {
  taken = λ rest.
      rw
        (append_assoc (put_i16 (of_word (2 ^ 16) (length s % 2 ^ 16))) s rest, short (length s) h.1)
        (after_length (pos (length s)) (s ++ rest) (omega (arith, h.1))
          ∙ rw (nonneg (length s)) ((reads_body s h).taken rest));
}
  where
    short : (n : ℕ) → n < 2 ^ 15 → of_word (2 ^ 16) (n % 2 ^ 16) ≡ pos n
    short n h = ground (arith, h)

pub reads_string : (s : Bytes) → IsText s → Reads get_string (write_string (some s)) s
unfolding get_string
reads_string s h = reads_last _ (reads_text (some s) h) refl

-- Lists: of items that are read one by one, and with their number before them.
pub reads_each {ℓ κ} :
    {A : Type ℓ} {B : Type κ} (item : Reader B) (put : A → Bytes) (f : A → B) (xs : List A)
    → All (λ x. Reads item (put x) (f x)) xs
    → Reads (repeated (length xs) item) (put_each put xs) (map f xs)
unfolding repeated put_each
reads_each item put f [] h = reads_nothing []
reads_each item put f (x ∷ xs) (hx, hxs) =
    reads_then _ hx (reads_last _ (reads_each item put f xs hxs) refl)

pub reads_capacity : (n : ℕ) → n < 2 ^ 31 → Reads (with_capacity n) [] tt
unfolding with_capacity
reads_capacity n h = record { taken = λ rest. ground (arith, h) }

reads_vec {ℓ} :
    {A : Type ℓ} (item : Reader A) (put : A → Bytes) (f : A → A) (xs : List A)
    → length xs < 2 ^ 31
    → All (λ x. Reads item (put x) (f x)) xs
    → Reads (get_vec item) (put_vec put xs) (map f xs)
unfolding get_vec put_vec
reads_vec item put f xs h all =
    reads_then _ (reads_count (length xs) h)
      (reads_then _ (reads_capacity (length xs) h) (reads_each item put f xs all))

pub reads_flag : (b : Bool) → Reads get_flag (put_bool b) b
unfolding get_flag get_i8 put_bool put_u8 get_u8 returns ◌>>=◌
reads_flag true = record { taken = λ rest. refl }
reads_flag false = record { taken = λ rest. refl }

pub reads_error : (code : KafkaErrorCode) → Reads get_error (put_error code) code
unfolding get_error
reads_error code = reads_last _ (reads_i16 (as_i16 code) (codes code).0) (ap returns (codes code).1)

pub reads_blob : (b : Bytes) → IsData b → Reads read_bytes (write_bytes (some b)) (some b)
unfolding read_bytes write_bytes
reads_blob b h = record {
  taken = λ rest.
      rw
        (
          append_assoc (put_i32 (of_word (2 ^ 32) (length b % 2 ^ 32))) b rest,
          small_count (length b) h,
        )
        (rw
          (
            long rest,
            read_bytes,
            (reads_i32 (pos (length b)) (omega (arith, h))).taken (b ++ rest),
            nonneg (length b),
            (reads_prefix b).taken rest,
          )
          refl);
}
  where
    long : (rest : Bytes) → ltb (length (put_i32 (pos (length b)) ++ (b ++ rest))) 4 ≡ false
    long rest = ground (
      arith,
      length-append (put_i32 (pos (length b))) (b ++ rest),
      length-put_i32 (pos (length b)),
    )

pub reads_data : (b : Bytes) → IsData b → Reads get_data (put_data b) b
unfolding get_data
reads_data b h = reads_last _ (reads_blob b h) refl

pub map_id {ℓ} : {A : Type ℓ} (xs : List A) → map (λ x. x) xs ≡ xs
map_id [] = refl
map_id (x ∷ xs) = ap (◌∷◌ x) (map_id xs)

-- Lists whose items fit, with what the items become.
module _ {ℓ κ} {A : Type ℓ} (item : Reader A) (put : A → Bytes) where
  pub reads_list :
      (f : A → A) (P : A → Type κ) (reads : (x : A) → P x → Reads item (put x) (f x)) (xs : List A)
      → IsVec P xs
      → Reads (get_vec item) (put_vec put xs) (map f xs)
  reads_list f P reads xs h = reads_vec item put f xs h.0 (All-map reads xs h.1)

  pub reads_same_list :
      (P : A → Type κ) (reads : (x : A) → P x → Reads item (put x) x) (xs : List A)
      → IsVec P xs
      → Reads (get_vec item) (put_vec put xs) xs
  reads_same_list P reads xs h =
      subst (Reads (get_vec item) (put_vec put xs)) (map_id xs) (reads_list (λ x. x) P reads xs h)

  reads_items :
      (P : A → Type κ) (reads : (x : A) → P x → Reads item (put x) x) (xs : List A)
      → All P xs
      → Reads (repeated (length xs) item) (put_each put xs) xs
  reads_items P reads xs h =
      subst (Reads (repeated (length xs) item) (put_each put xs)) (map_id xs)
        (reads_each item put (λ x. x) xs (All-map reads xs h))

  pub reads_nullable :
      (P : A → Type κ) (reads : (x : A) → P x → Reads item (put x) x) (xs : Option (List A))
      → IsNullable P xs
      → Reads (get_nullable_vec item) (put_nullable_vec put xs) xs
  unfolding get_nullable_vec put_nullable_vec put_vec
  reads_nullable P reads none h = reads_last _ (reads_i32 (negsuc 0) (omega arith)) refl
  reads_nullable P reads (some xs) h = reads_then _ (reads_length (length xs) h.0) (
      rw (nonneg (length xs)) (
        reads_then _ (reads_capacity (length xs) h.0)
          (reads_last _ (reads_items P reads xs h.1) refl)))

pub reads_i32s : (xs : List ℤ) → IsVec IsI32 xs → Reads (get_vec get_i32) (put_vec put_i32 xs) xs
reads_i32s xs h = reads_same_list get_i32 put_i32 IsI32 reads_i32 xs h

pub reads_strings :
    (xs : List Bytes) → IsVec IsText xs → Reads (get_vec get_string) (put_vec put_string xs) xs
reads_strings xs h = reads_same_list get_string put_string IsText reads_string xs h
