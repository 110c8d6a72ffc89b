-- ===== src/Protocol/Flexible/Laws.antt =====
-- What the checked and compact readers take off the front of a buffer.
use mathlib.Core.Path.{subst}
use oxide_mq.Base.{
  ℕ, ◌+◌, ◌-◌, ◌*◌, ◌%◌, ◌^◌, ◌<◌, ◌≤◌, ◌≡◌, refl, ap, List, [], ◌∷◌, ◌++◌, Option, none, some,
  Bool, true, false, length, length-append, ltb, nat_beq, All-map, map, if◌then◌else◌, arith,
  append_assoc,
}
use oxide_mq.Base.Int.{ℤ, pos, IsI64, of_word}
use oxide_mq.Bytes.{Bytes, get_i16, get_i32, get_i64, put_i16, put_i32, put_i64}
use oxide_mq.Bytes.Laws.{length-put_i64}
use oxide_mq.Broker.Codes.{KafkaErrorCode, as_i16}
use oxide_mq.Protocol.Parser.{
  read_string, read_unsigned_varint, write_unsigned_varint, write_groups, read_compact_string,
  write_compact_string, read_compact_bytes, write_compact_bytes,
}
use oxide_mq.Protocol.Parser.Varint.{read_unsigned_varint-write_unsigned_varint}
use oxide_mq.Protocol.Reader.{
  Reader, ◌>>=◌, returns, repeated, get_count, put_each, put_vec, put_string, get_i8, put_i8,
  put_u8, get_bool, put_bool, get_error, put_error, IsI8, IsI16, IsI32, IsText, IsOptionalText,
  IsData, IsVec,
}
use oxide_mq.Protocol.Reader.Laws.{
  Reads, reads_then, reads_last, reads_nothing, reads_i8, reads_i16, reads_i32, reads_i64,
  reads_bool, reads_error, reads_text, reads_blob, reads_prefix, reads_body, reads_count,
  reads_length, reads_each, reads_capacity, length-put_i16, length-put_i32, nonneg, map_id,
}
use oxide_mq.Protocol.Flexible.{
  guarded, pair, get_text, put_text, get_name, get_blob, put_blob, get_items, put_items, get_list,
  put_list, skip_tags, put_tags, get_size, get_checked, somes, get_names, get_bound, get_lenient,
  get_bound_names, get_ids, get_rest_bool, or_fail, get_required, get_plain_list,
}

pub reads_guarded {ℓ} :
    {A : Type ℓ} {p : Reader A} {bytes : Bytes} {v : A} (n : ℕ)
    → n ≤ length bytes
    → Reads p bytes v
    → Reads (guarded n p) bytes v
unfolding guarded
reads_guarded {bytes} n h reads = record { taken = λ rest. rw (enough rest) (reads.taken rest) }
  where
    enough : (rest : Bytes) → ltb (length (bytes ++ rest)) n ≡ false
    enough rest = ground (arith, length-append bytes rest, h)

pub reads_pair {ℓ κ} :
    {A : Type ℓ} {B : Type κ} {p : Reader A} {q : Reader B} {front back : Bytes} {a : A} {b : B}
    → Reads p front a
    → Reads q back b
    → Reads (pair p q) (front ++ back) (a, b)
unfolding pair
reads_pair hp hq = reads_then _ hp (reads_last _ hq refl)

pub length-put_i8 : (z : ℤ) → length (put_i8 z) ≡ 1
unfolding put_i8 put_u8
length-put_i8 z = refl

pub guarded_i8 : (z : ℤ) → IsI8 z → Reads (guarded 1 get_i8) (put_i8 z) z
guarded_i8 z h = reads_guarded 1 (omega (arith, length-put_i8 z)) (reads_i8 z h)

pub guarded_i32 : (z : ℤ) → IsI32 z → Reads (guarded 4 get_i32) (put_i32 z) z
guarded_i32 z h = reads_guarded 4 (omega (arith, length-put_i32 z)) (reads_i32 z h)

pub guarded_i64 : (z : ℤ) → IsI64 z → Reads (guarded 8 get_i64) (put_i64 z) z
guarded_i64 z h = reads_guarded 8 (omega (arith, length-put_i64 z)) (reads_i64 z h)

pub guarded_error : (code : KafkaErrorCode) → Reads (guarded 2 get_error) (put_error code) code
guarded_error code = reads_guarded 2 (omega (arith, length-put_i16 _)) (reads_error code)

length-put_bool : (b : Bool) → length (put_bool b) ≡ 1
unfolding put_bool put_u8
length-put_bool true = refl
length-put_bool false = refl

pub guarded_bool : (b : Bool) → Reads (guarded 1 get_bool) (put_bool b) b
guarded_bool b = reads_guarded 1 (omega (arith, length-put_bool b)) (reads_bool b)

-- Fields read under one check of their sizes together.
pub guarded_i8s :
    (a b : ℤ)
    → IsI8 a
    → IsI8 b
    → Reads (guarded 2 (pair get_i8 get_i8)) (put_i8 a ++ put_i8 b) (a, b)
guarded_i8s a b ha hb =
    reads_guarded 2
      (omega (arith, length-append (put_i8 a) (put_i8 b), length-put_i8 a, length-put_i8 b))
      (reads_pair (reads_i8 a ha) (reads_i8 b hb))

pub guarded_i32_i16 :
    (a b : ℤ)
    → IsI32 a
    → IsI16 b
    → Reads (guarded 6 (pair get_i32 get_i16)) (put_i32 a ++ put_i16 b) (a, b)
guarded_i32_i16 a b ha hb =
    reads_guarded 6
      (omega (arith, length-append (put_i32 a) (put_i16 b), length-put_i32 a, length-put_i16 b))
      (reads_pair (reads_i32 a ha) (reads_i16 b hb))

-- A number and the length of the list that comes next.
pub guarded_i32s :
    (a : ℤ) (n : ℕ)
    → IsI32 a
    → n < 2 ^ 31
    → Reads
        (guarded 8 (pair get_i32 get_i32))
        (put_i32 a ++ put_i32 (of_word (2 ^ 32) (n % 2 ^ 32)))
        (a, pos n)
guarded_i32s a n ha hn =
    reads_guarded 8
      (omega (
        arith,
        length-append (put_i32 a) (put_i32 (of_word (2 ^ 32) (n % 2 ^ 32))),
        length-put_i32 a,
        length-put_i32 (of_word (2 ^ 32) (n % 2 ^ 32)),
      ))
      (reads_pair (reads_i32 a ha) (reads_length n hn))

pub guarded_i32_error :
    (a : ℤ) (code : KafkaErrorCode)
    → IsI32 a
    → Reads (guarded 6 (pair get_i32 get_error)) (put_i32 a ++ put_error code) (a, code)
guarded_i32_error a code ha =
    reads_guarded 6
      (omega (
        arith,
        length-append (put_i32 a) (put_error code),
        length-put_i32 a,
        length-put_i16 (as_i16 code),
      ))
      (reads_pair (reads_i32 a ha) (reads_error code))

pub guarded_i32_i64 :
    (a b : ℤ)
    → IsI32 a
    → IsI64 b
    → Reads (guarded 12 (pair get_i32 get_i64)) (put_i32 a ++ put_i64 b) (a, b)
guarded_i32_i64 a b ha hb =
    reads_guarded 12
      (omega (arith, length-append (put_i32 a) (put_i64 b), length-put_i32 a, length-put_i64 b))
      (reads_pair (reads_i32 a ha) (reads_i64 b hb))

pub guarded_i32_i64_error :
    (a b : ℤ) (code : KafkaErrorCode)
    → IsI32 a
    → IsI64 b
    → Reads
        (guarded 14 (pair get_i32 (pair get_i64 get_error)))
        (put_i32 a ++ (put_i64 b ++ put_error code))
        (a, (b, code))
guarded_i32_i64_error a b code ha hb =
    reads_guarded 14
      (omega (
        arith,
        length-append (put_i32 a) (put_i64 b ++ put_error code),
        length-append (put_i64 b) (put_error code),
        length-put_i32 a,
        length-put_i64 b,
        length-put_i16 (as_i16 code),
      ))
      (reads_pair (reads_i32 a ha) (reads_pair (reads_i64 b hb) (reads_error code)))

pub reads_varint : (n : ℕ) → n < 2 ^ 64 → Reads read_unsigned_varint (write_unsigned_varint n) n
reads_varint n h = record { taken = λ rest. read_unsigned_varint-write_unsigned_varint n rest h }

-- A number that is one more than a length.
after_count :
    (n : ℕ)
    → n < 2 ^ 31
    → Reads read_unsigned_varint (write_unsigned_varint ((n + 1) % 2 ^ 64)) (n + 1)
after_count n h = rw (small n h) (reads_varint (n + 1) (omega (arith, h)))
  where
    small : (n : ℕ) → n < 2 ^ 31 → (n + 1) % 2 ^ 64 ≡ n + 1
    small n h = omega arith

pub reads_compact_text :
    (s : Option Bytes) → IsOptionalText s → Reads read_compact_string (write_compact_string s) s
unfolding read_compact_string write_compact_string
reads_compact_text none h = record {
  taken = λ rest. rw ((reads_varint 0 (omega arith)).taken rest) refl;
}
reads_compact_text (some s) h = record {
  taken = λ rest.
      rw
        (
          append_assoc (write_unsigned_varint ((length s + 1) % 2 ^ 64)) s rest,
          (after_count (length s) (omega (arith, h.1))).taken (s ++ rest),
          positive (length s),
          back (length s),
        )
        ((reads_body s h).taken rest);
}
  where
    positive : (n : ℕ) → nat_beq (n + 1) 0 ≡ false
    positive n = ground arith

    back : (n : ℕ) → n + 1 - 1 ≡ n
    back n = omega arith

reads_compact_blob :
    (b : Bytes) → IsData b → Reads read_compact_bytes (write_compact_bytes (some b)) (some b)
unfolding read_compact_bytes write_compact_bytes
reads_compact_blob b h = record {
  taken = λ rest.
      rw
        (
          append_assoc (write_unsigned_varint ((length b + 1) % 2 ^ 64)) b rest,
          (after_count (length b) h).taken (b ++ rest),
          positive (length b),
          back (length b),
          (reads_prefix b).taken rest,
        )
        refl;
}
  where
    positive : (n : ℕ) → nat_beq (n + 1) 0 ≡ false
    positive n = ground arith

    back : (n : ℕ) → n + 1 - 1 ≡ n
    back n = omega arith

pub reads_any_text :
    (compact : Bool) (s : Option Bytes)
    → IsOptionalText s
    → Reads (get_text compact) (put_text compact s) s
unfolding get_text put_text
reads_any_text true s h = reads_compact_text s h
reads_any_text false s h = reads_text s h

pub reads_name :
    (compact : Bool) (s : Bytes) → IsText s → Reads (get_name compact) (put_text compact (some s)) s
unfolding get_name
reads_name compact s h = reads_last _ (reads_any_text compact (some s) h) refl

pub reads_any_blob :
    (compact : Bool) (b : Bytes) → IsData b → Reads (get_blob compact) (put_blob compact b) b
unfolding get_blob put_blob
reads_any_blob true b h = reads_last _ (reads_compact_blob b h) refl
reads_any_blob false b h = reads_last _ (reads_blob b h) refl

length-write_unsigned_varint : (n : ℕ) → 1 ≤ length (write_unsigned_varint n)
unfolding write_unsigned_varint write_groups
length-write_unsigned_varint n = ground arith

-- The number of tagged fields, which is dropped.
pub reads_tag_count :
    (flexible : Bool) (n : ℕ)
    → n < 2 ^ 64
    → Reads (skip_tags flexible) (if flexible then write_unsigned_varint n else []) tt
unfolding skip_tags returns
reads_tag_count true n h = record { taken = λ rest. rw (some_left rest) (dropped.taken rest) }
  where
    some_left : (rest : Bytes) → ltb 0 (length (write_unsigned_varint n ++ rest)) ≡ true
    some_left rest =
        ground (arith, length-append (write_unsigned_varint n) rest, length-write_unsigned_varint n)

    dropped : Reads {0} (read_unsigned_varint >>= (λ _. returns tt)) (write_unsigned_varint n) tt
    dropped = reads_last _ (reads_varint n h) refl
reads_tag_count false n h = reads_nothing tt

pub reads_tags : (flexible : Bool) → Reads (skip_tags flexible) (put_tags flexible) tt
reads_tags flexible = reads_tag_count flexible 0 (omega arith)

-- The numbers before lists.
reads_items :
    (compact : Bool) (n : ℕ) → n < 2 ^ 31 → Reads (get_items compact) (put_items compact n) n
unfolding get_items put_items
reads_items true n h = reads_last _ (after_count n h) (ap returns (omega arith))
reads_items false n h =
    reads_guarded 4 (omega (arith, length-put_i32 (of_word (2 ^ 32) (n % 2 ^ 32))))
      (reads_count n h)

reads_size : (n : ℕ) → n < 2 ^ 31 → Reads get_size (put_i32 (of_word (2 ^ 32) (n % 2 ^ 32))) n
unfolding get_size
reads_size n h =
    reads_last _
      (reads_guarded 4 (omega (arith, length-put_i32 (of_word (2 ^ 32) (n % 2 ^ 32))))
        (reads_length n h))
      (rw (nonneg n) refl)

reads_bound : (n : ℕ) → n < 2 ^ 31 → Reads get_bound (put_i32 (of_word (2 ^ 32) (n % 2 ^ 32))) n
unfolding get_bound
reads_bound n h =
    reads_last _
      (reads_guarded 4 (omega (arith, length-put_i32 (of_word (2 ^ 32) (n % 2 ^ 32))))
        (reads_length n h))
      refl

length-put_each : (xs : List ℤ) → length (put_each put_i32 xs) ≡ length xs * 4
unfolding put_each
length-put_each [] = refl
length-put_each (x ∷ xs) =
    omega
      (arith, length-append (put_i32 x) (put_each put_i32 xs), length-put_i32 x, length-put_each xs)

pub reads_ids :
    (xs : List ℤ) → IsVec IsI32 xs → Reads (get_ids (length xs)) (put_each put_i32 xs) xs
unfolding get_ids
reads_ids xs h = subst (Reads (get_ids (length xs)) (put_each put_i32 xs)) (map_id xs) (
    reads_guarded (length xs * 4) (omega (arith, length-put_each xs)) (
      reads_then _ (reads_capacity (length xs) h.0)
        (reads_each get_i32 put_i32 (λ x. x) xs (All-map reads_i32 xs h.1))))

pub reads_rest_bool : (default b : Bool) → Reads (get_rest_bool default) (put_bool b) b
unfolding get_rest_bool
reads_rest_bool default b = record { taken = λ rest. rw (there rest) ((reads_bool b).taken rest) }
  where
    there : (rest : Bytes) → ltb 0 (length (put_bool b ++ rest)) ≡ true
    there rest = ground (arith, length-append (put_bool b) rest, length-put_bool b)

pub reads_required : (s : Bytes) → IsText s → Reads get_required (put_string s) s
unfolding get_required or_fail
reads_required s h = reads_last _ (reads_text (some s) h) refl

-- Lists whose items fit, with what the items become.
module _ {ℓ κ} {A : Type ℓ} (item : Reader A) (put : A → Bytes) where
  pub reads_flexible_list :
      (compact : Bool) (f : A → A) (P : A → Type κ)
      (reads : (x : A) → P x → Reads item (put x) (f x)) (xs : List A)
      → IsVec P xs
      → Reads (get_list compact item) (put_list compact put xs) (map f xs)
  unfolding get_list put_list
  reads_flexible_list compact f P reads xs h = reads_then _ (reads_items compact (length xs) h.0) (
      reads_then _ (reads_capacity (length xs) h.0)
        (reads_each item put f xs (All-map reads xs h.1)))

  pub reads_same_flexible_list :
      (compact : Bool) (P : A → Type κ) (reads : (x : A) → P x → Reads item (put x) x) (xs : List A)
      → IsVec P xs
      → Reads (get_list compact item) (put_list compact put xs) xs
  reads_same_flexible_list compact P reads xs h =
      subst (Reads (get_list compact item) (put_list compact put xs)) (map_id xs)
        (reads_flexible_list compact (λ x. x) P reads xs h)

  pub reads_checked_list :
      (f : A → A) (P : A → Type κ) (reads : (x : A) → P x → Reads item (put x) (f x)) (xs : List A)
      → IsVec P xs
      → Reads (get_checked item) (put_vec put xs) (map f xs)
  unfolding get_checked put_vec
  reads_checked_list f P reads xs h = reads_then _ (reads_size (length xs) h.0) (
      reads_then _ (reads_capacity (length xs) h.0)
        (reads_each item put f xs (All-map reads xs h.1)))

  pub reads_same_checked_list :
      (P : A → Type κ) (reads : (x : A) → P x → Reads item (put x) x) (xs : List A)
      → IsVec P xs
      → Reads (get_checked item) (put_vec put xs) xs
  reads_same_checked_list P reads xs h =
      subst (Reads (get_checked item) (put_vec put xs)) (map_id xs)
        (reads_checked_list (λ x. x) P reads xs h)

  pub reads_lenient_list :
      (f : A → A) (P : A → Type κ) (reads : (x : A) → P x → Reads item (put x) (f x)) (xs : List A)
      → IsVec P xs
      → Reads (get_lenient item) (put_vec put xs) (map f xs)
  unfolding get_lenient put_vec
  reads_lenient_list f P reads xs h = reads_then _ (reads_bound (length xs) h.0) (
      reads_then _ (reads_capacity (length xs) h.0)
        (reads_each item put f xs (All-map reads xs h.1)))

  pub reads_same_lenient_list :
      (P : A → Type κ) (reads : (x : A) → P x → Reads item (put x) x) (xs : List A)
      → IsVec P xs
      → Reads (get_lenient item) (put_vec put xs) xs
  reads_same_lenient_list P reads xs h =
      subst (Reads (get_lenient item) (put_vec put xs)) (map_id xs)
        (reads_lenient_list (λ x. x) P reads xs h)

  pub reads_same_plain_list :
      (compact : Bool) (P : A → Type κ) (reads : (x : A) → P x → Reads item (put x) x) (xs : List A)
      → IsVec P xs
      → Reads (get_plain_list compact item) (put_list compact put xs) xs
  unfolding get_plain_list put_list put_items
  reads_same_plain_list compact P reads xs h = reads_then _ (number compact) (
      subst (Reads (repeated (length xs) item) (put_each put xs)) (map_id xs)
        (reads_each item put (λ x. x) xs (All-map reads xs h.1)))
    where
      number :
          (compact : Bool)
          → Reads {0}
              (if compact then (read_unsigned_varint >>= (λ n. returns (n - 1))) else get_count)
              (put_items compact (length xs))
              (length xs)
      number true = reads_last _ (after_count (length xs) h.0) (ap returns (omega arith))
      number false = reads_count (length xs) h.0

somes-map : (xs : List Bytes) → somes (map (λ s. some s) xs) ≡ xs
unfolding somes
somes-map [] = refl
somes-map (x ∷ xs) = ap (◌∷◌ x) (somes-map xs)

pub reads_names : (xs : List Bytes) → IsVec IsText xs → Reads get_names (put_vec put_string xs) xs
unfolding get_names put_vec
reads_names xs h = reads_then _ (reads_size (length xs) h.0) (
    reads_then _ (reads_capacity (length xs) h.0) (
      reads_last _
        (reads_each read_string put_string (λ s. some s) xs
          (All-map (λ s. reads_text (some s)) xs h.1))
        (ap returns (somes-map xs))))

pub reads_bound_names :
    (xs : List Bytes) → IsVec IsText xs → Reads get_bound_names (put_vec put_string xs) xs
unfolding get_bound_names put_vec
reads_bound_names xs h = reads_then _ (reads_bound (length xs) h.0) (
    reads_last _
      (reads_each read_string put_string (λ s. some s) xs
        (All-map (λ s. reads_text (some s)) xs h.1))
      (ap returns (somes-map xs)))
