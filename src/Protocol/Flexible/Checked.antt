-- ===== src/Protocol/Flexible/Checked.antt =====
-- Readers that never panic, whatever the buffer holds: those that look how many bytes are left first.
use Prim.Native.Nat.{bit_and, bit_or}
use mathlib.Core.Path.{subst}
use oxide_mq.Base.{
  ℕ, zero, suc, ◌+◌, ◌*◌, ◌-◌, ◌%◌, ◌^◌, ◌<◌, ◌≤◌, ◌≡◌, ◌≢◌, ◌⊎◌, refl, ap, ◌∙◌, List, [], ◌∷◌,
  Option, none, some, Bool, true, false, length, drop, length-drop, ltb, nat_beq, ◌&&◌,
  if◌then◌else◌, arith, Bool-cases, inl, inr,
}
use oxide_mq.Base.Int.{ℤ, pos, pos_part, ltb_ℤ, of_word}
use oxide_mq.Base.Result
use oxide_mq.Base.Result.{Result, ok, err, panic, protocol, guard, bind-ne-panic}
use oxide_mq.Bytes.{Bytes, get_u8, get_i16, get_i32, get_i64}
use oxide_mq.Bytes.Laws.{get_u16_total, get_u32_total, get_i64_total}
use oxide_mq.Protocol.Parser.{
  is_utf8, read_body, read_text, read_string, read_bytes, varint_loop, read_unsigned_varint,
  read_compact_string, read_compact_bytes,
}
use oxide_mq.Protocol.Reader.{
  Reader, ◌>>=◌, returns, repeated, with_capacity, get_i8, get_bool, get_error, get_string,
}
use oxide_mq.Protocol.Flexible.{
  guarded, pair, fail, get_blob, skip_tags, get_size, get_checked, get_names, get_bound,
  get_lenient, get_ids, get_rest_bool, or_fail, get_required,
}

pub record NeverPanics {ℓ} {A : Type ℓ} (p : Reader A) : Type ℓ where
  pub calm : (src : Bytes) → p src ≢ panic

-- With `n` bytes left the reader takes them all.
pub record Consumes {ℓ} {A : Type ℓ} (n : ℕ) (p : Reader A) : Type ℓ where
  pub some_value : (src : Bytes) → n ≤ length src → (v : A) × (p src ≡ ok (v, drop n src))

drop-drop {ℓ} : {A : Type ℓ} (m n t : ℕ) (xs : List A) → t ≡ m + n → drop n (drop m xs) ≡ drop t xs
drop-drop zero n t xs e = ap (λ k. drop k xs) {x = n} {y = t} (omega arith)
drop-drop (suc m) n zero xs e = absurd (omega arith)
drop-drop (suc m) zero (suc t) [] e = refl
drop-drop (suc m) (suc n) (suc t) [] e = refl
drop-drop (suc m) n (suc t) (x ∷ xs) e = drop-drop m n t xs (omega arith)

module _ {ℓ κ} {A : Type ℓ} {B : Type κ} where
  pub calm_then :
      {p : Reader A} (k : A → Reader B)
      → NeverPanics p
      → ((a : A) → NeverPanics (k a))
      → NeverPanics (p >>= k)
  unfolding ◌>>=◌
  calm_then {p} k hp hk = record {
    calm = λ src.
        bind-ne-panic (p src) (λ (v, rest). k v rest) (hp.calm src) (λ (v, rest). (hk v).calm rest);
  }

  pub takes_then :
      {m n : ℕ} {p : Reader A} (k : A → Reader B)
      → Consumes m p
      → ((a : A) → Consumes n (k a))
      → Consumes (m + n) (p >>= k)
  unfolding ◌>>=◌
  takes_then {m} {n} k hp hk = record {
    some_value = λ src h.
        let (v, e) = hp.some_value src (omega (arith, h)) in
        let (w, e') = (hk v).some_value (drop m src) (omega (arith, h, length-drop m src)) in
        (w, rw e (e' ∙ ap (λ r. ok (w, r)) (drop-drop m n (m + n) src refl)));
  }

pub calm_returns {ℓ} : {A : Type ℓ} (v : A) → NeverPanics (returns v)
unfolding returns
calm_returns v = record { calm = λ src. λ e. cc }

pub calm_fail {ℓ} : {A : Type ℓ} → NeverPanics (fail {A = A})
unfolding fail
calm_fail = record { calm = λ src. λ e. cc }

pub calm_guarded {ℓ} :
    {A : Type ℓ} {p : Reader A} (n : ℕ) → Consumes n p → NeverPanics (guarded n p)
unfolding guarded
calm_guarded n h = record {
  calm = λ src. elim (Bool-cases (ltb (length src) n)) [
    | inl short ↦ rw (short, guarded) (λ e. cc)
    | inr enough ↦
        let (v, e) = h.some_value src (ground (arith, enough)) in rw (enough, guarded, e) (λ e'. cc)
  ];
}

pub takes_i16 : Consumes 2 get_i16
unfolding get_i16
takes_i16 = record {
  some_value = λ src h. let (v, e) = get_u16_total src h in (of_word (2 ^ 16) v, rw e);
}

pub takes_i32 : Consumes 4 get_i32
unfolding get_i32
takes_i32 = record {
  some_value = λ src h. let (v, e) = get_u32_total src h in (of_word (2 ^ 32) v, rw e);
}

pub takes_i64 : Consumes 8 get_i64
takes_i64 = record { some_value = λ src h. get_i64_total src h }

takes_map {ℓ κ} :
    {A : Type ℓ} {B : Type κ} {n : ℕ} {p : Reader A} (f : A → B)
    → Consumes n p
    → Consumes n (p >>= (λ a. returns (f a)))
unfolding ◌>>=◌ returns
takes_map f hp = record {
  some_value = λ src h. let (v, e) = hp.some_value src h in (f v, rw e refl);
}

takes_u8 : Consumes 1 get_u8
unfolding get_u8
takes_u8 = record { some_value = one }
  where
    one : (src : Bytes) → 1 ≤ length src → (v : ℕ) × (get_u8 src ≡ ok (v, drop 1 src))
    one (b ∷ src) h = (b, refl)
    one [] h = absurd (omega arith)

pub takes_nothing {ℓ} : {A : Type ℓ} (v : A) → Consumes 0 (returns v)
unfolding returns
takes_nothing v = record { some_value = λ src h. (v, refl) }

pub takes_i8 : Consumes 1 get_i8
unfolding get_i8
takes_i8 = takes_then _ takes_u8 (λ b. takes_nothing _)

pub takes_bool : Consumes 1 get_bool
unfolding get_bool
takes_bool = takes_then _ takes_u8 (λ b. takes_nothing _)

pub takes_error : Consumes 2 get_error
unfolding get_error
takes_error = takes_then _ takes_i16 (λ b. takes_nothing _)

pub takes_pair {ℓ κ} :
    {A : Type ℓ} {B : Type κ} {m n : ℕ} {p : Reader A} {q : Reader B}
    → Consumes m p
    → Consumes n q
    → Consumes (m + n) (pair p q)
unfolding pair
takes_pair hp hq = takes_then _ hp (λ a. takes_map (λ b. (a, b)) hq)

-- Texts and bytes.
calm_body : (n : ℕ) (src : Bytes) → read_body n src ≢ panic
unfolding read_body
calm_body n src = elim (Bool-cases (ltb (length src) n)) [
  | inl short ↦ rw (short, read_body) (λ e. cc)
  | inr enough ↦ rw (enough, read_body) (λ e. cc)
]

calm_text : (n : ℕ) (src : Bytes) → read_text n src ≢ panic
unfolding read_text
calm_text n src =
    bind-ne-panic (read_body n src) _ (calm_body n src)
      (λ (body, rest). checked (is_utf8 body) body rest)
  where
    answer : Bytes → Bytes → Result (Option Bytes × Bytes)
    answer body rest = ok (some body, rest)

    checked :
        (test : Bool) (body rest : Bytes)
        → (Result.◌>>◌ (guard test protocol) (answer body rest)) ≢ panic
    checked true body rest = λ e. cc
    checked false body rest = λ e. cc

calm_branch {ℓ} :
    {A : Type ℓ} (test : Bool) (x y : Result A)
    → x ≢ panic
    → y ≢ panic
    → (if test then x else y) ≢ panic
calm_branch true x y hx hy = hx
calm_branch false x y hx hy = hy

pub calm_read_string : NeverPanics read_string
unfolding read_string
calm_read_string = record {
  calm = λ src. elim (Bool-cases (ltb (length src) 2)) [
    | inl short ↦ rw (short, read_string) (λ e. cc)
    | inr enough ↦
        let (len, e) = takes_i16.some_value src (ground (arith, enough)) in
        rw (enough, read_string, e)
          (calm_branch (ltb_ℤ len (pos 0)) _ _ (λ e'. cc) (calm_text (pos_part len) (drop 2 src)))
  ];
}

pub calm_read_bytes : NeverPanics read_bytes
unfolding read_bytes
calm_read_bytes = record {
  calm = λ src. elim (Bool-cases (ltb (length src) 4)) [
    | inl short ↦ rw (short, read_bytes) (λ e. cc)
    | inr enough ↦
        let (len, e) = takes_i32.some_value src (ground (arith, enough)) in
        rw (enough, read_bytes, e)
          (calm_branch (ltb_ℤ len (pos 0)) _ _ (λ e'. cc)
            (bind-ne-panic (read_body (pos_part len) (drop 4 src)) _
              (calm_body (pos_part len) (drop 4 src)) (λ x. λ e'. cc)))
  ];
}

calm_varint_loop : (value shift : ℕ) (src : Bytes) → varint_loop value shift src ≢ panic
unfolding varint_loop
calm_varint_loop value shift [] = λ e. cc
calm_varint_loop value shift (b ∷ src) =
    split (nat_beq (bit_and b 0x80) 0) (ltb 63 (shift + 7))
      (bit_or value (bit_and b 0x7f * 2 ^ shift % 2 ^ 64))
      (λ value'. calm_varint_loop value' (shift + 7) src)
  where
    split :
        (last late : Bool) (value' : ℕ)
        → ((v : ℕ) → varint_loop v (shift + 7) src ≢ panic)
        → (elim last [
          | true ↦ ok (value', src)
          | false ↦ elim late [ true ↦ err protocol | false ↦ varint_loop value' (shift + 7) src ]
        ])
          ≢ panic
    split true late value' more = λ e. cc
    split false true value' more = λ e. cc
    split false false value' more = more value'

pub calm_read_unsigned_varint : NeverPanics read_unsigned_varint
unfolding read_unsigned_varint
calm_read_unsigned_varint = record { calm = calm_varint_loop 0 0 }

-- `if` over what does not panic.
pub calm_if {ℓ} :
    {A : Type ℓ} (test : Bool) {p q : Reader A}
    → NeverPanics p
    → NeverPanics q
    → NeverPanics (if test then p else q)
calm_if true hp hq = hp
calm_if false hp hq = hq

pub calm_string : NeverPanics get_string
unfolding get_string
calm_string = calm_then _ calm_read_string (λ s. calm_returns _)

pub calm_compact_string : NeverPanics read_compact_string
unfolding read_compact_string
calm_compact_string = record {
  calm = λ src.
      bind-ne-panic (read_unsigned_varint src) _ (calm_read_unsigned_varint.calm src)
        (λ (len, rest). calm_branch (nat_beq len 0) _ _ (λ e. cc) (calm_text (len - 1) rest));
}

pub calm_compact_bytes : NeverPanics read_compact_bytes
unfolding read_compact_bytes
calm_compact_bytes = record {
  calm = λ src.
      bind-ne-panic (read_unsigned_varint src) _ (calm_read_unsigned_varint.calm src)
        (λ (len, rest).
          calm_branch (nat_beq len 0) _ _ (λ e. cc)
            (bind-ne-panic (read_body (len - 1) rest) _ (calm_body (len - 1) rest) (λ x. λ e. cc)));
}

pub calm_blob : (compact : Bool) → NeverPanics (get_blob compact)
unfolding get_blob
calm_blob compact =
    calm_then _ (calm_if compact calm_compact_bytes calm_read_bytes) (λ b. calm_returns _)

pub calm_tags : (flexible : Bool) → NeverPanics (skip_tags flexible)
unfolding skip_tags
calm_tags flexible = record {
  calm = λ src.
      calm_branch (flexible && ltb 0 (length src)) _ _
        ((calm_then _ calm_read_unsigned_varint (λ n. calm_returns tt)).calm src) (λ e. cc);
}

-- Lists whose number is checked.
calm_repeated {ℓ} :
    {A : Type ℓ} {item : Reader A} (n : ℕ) → NeverPanics item → NeverPanics (repeated n item)
unfolding repeated
calm_repeated zero h = calm_returns []
calm_repeated (suc n) h =
    calm_then _ h (λ x. calm_then _ (calm_repeated n h) (λ xs. calm_returns (x ∷ xs)))

calm_capacity : (n : ℕ) → n < 2 ^ 63 → NeverPanics (with_capacity n)
unfolding with_capacity
calm_capacity n h = record { calm = λ src. rw (room, with_capacity) (λ e. cc) }
  where
    room : ltb n (2 ^ 63) ≡ true
    room = ground (arith, h)

-- What a number of four bytes can be.
small_part : (w : ℕ) → pos_part (of_word (2 ^ 32) w) < 2 ^ 63
small_part w = ground arith

-- A reader of a number, with what the number is below.
record Within (p : Reader ℕ) : Type 0 where
  fine : (src : Bytes) → p src ≢ panic
  bounded : (src : Bytes) (n : ℕ) (rest : Bytes) → p src ≡ ok (n, rest) → n < 2 ^ 63

within_then {ℓ} :
    {A : Type ℓ} {p : Reader ℕ} (k : ℕ → Reader A)
    → Within p
    → ((n : ℕ) → n < 2 ^ 63 → NeverPanics (k n))
    → NeverPanics (p >>= k)
unfolding ◌>>=◌
within_then {p} k hp hk = record { calm = λ src. go (p src) (hp.fine src) (hp.bounded src) }
  where
    go :
        (r : Result (ℕ × Bytes))
        → r ≢ panic
        → ((n : ℕ) (rest : Bytes) → r ≡ ok (n, rest) → n < 2 ^ 63)
        → Result.◌>>=◌ r (λ (n, rest). k n rest) ≢ panic
    go (ok (n, rest)) hr hb = (hk n (hb n rest refl)).calm rest
    go (err fault) hr hb = λ e. cc
    go panic hr hb = λ e. hr refl

-- What the four bytes of a number can give.
size_of :
    (src : Bytes)
    → (guarded 4 get_i32 src ≡ err protocol)
      ⊎ ((w : ℕ) × (guarded 4 get_i32 src ≡ ok (of_word (2 ^ 32) w, drop 4 src)))
unfolding guarded get_i32
size_of src = elim (Bool-cases (ltb (length src) 4)) [
  | inl short ↦ inl (rw (short, guarded) refl)
  | inr enough ↦
      let (w, e) = get_u32_total src (ground (arith, enough)) in
      inr (w, rw (enough, guarded, e) refl)
]

same_value :
    (m n : ℕ) (r rest : Bytes)
    → ◌≡◌ {A = Result (ℕ × Bytes)} (ok (m, r)) (ok (n, rest))
    → m < 2 ^ 63
    → n < 2 ^ 63
same_value m n r rest e h = let same : m ≡ n = cc in omega (arith, h, same)

-- `if negative { Err } else { Ok(number) }`
size_answer :
    (negative : Bool) (m : ℕ) (src : Bytes)
    → m < 2 ^ 63
    → ((if negative then fail else returns m) src ≢ panic)
      × ((n : ℕ) (rest : Bytes)
          → (if negative then fail else returns m) src ≡ ok (n, rest)
          → n < 2 ^ 63)
unfolding fail returns
size_answer true m src h = ((λ e. cc), λ n rest e. absurd cc)
size_answer false m src h = ((λ e. cc), λ n rest e. same_value m n src rest e h)

get_bound-Within : Within get_bound
unfolding get_bound ◌>>=◌ returns
get_bound-Within = record {
  fine = λ src. elim (size_of src) [ inl e ↦ rw e (λ x. cc) | inr (w, e) ↦ rw e (λ x. cc) ];
  bounded = λ src n rest. elim (size_of src) [
    | inl e ↦ rw e (λ x. absurd cc)
    | inr (w, e) ↦ rw e (λ x. same_value _ n (drop 4 src) rest x (small_part w))
  ];
}

get_size-Within : Within get_size
unfolding get_size ◌>>=◌
get_size-Within = record {
  fine = λ src. elim (size_of src) [
    | inl e ↦ rw e (λ x. cc)
    | inr (w, e) ↦
        rw e (size_answer (ltb_ℤ (of_word (2 ^ 32) w) (pos 0)) _ (drop 4 src) (small_part w)).0
  ];
  bounded = λ src n rest. elim (size_of src) [
    | inl e ↦ rw e (λ x. absurd cc)
    | inr (w, e) ↦
        rw e (
          (size_answer (ltb_ℤ (of_word (2 ^ 32) w) (pos 0)) _ (drop 4 src) (small_part w)).1 n rest)
  ];
}

calm_many {ℓ} :
    {A : Type ℓ} {item : Reader A} {count : Reader ℕ}
    → Within count
    → NeverPanics item
    → NeverPanics (count >>= (λ n. with_capacity n >>= (λ _. repeated n item)))
calm_many hc hi =
    within_then _ hc (λ n h. calm_then _ (calm_capacity n h) (λ _. calm_repeated n hi))

pub calm_checked {ℓ} :
    {A : Type ℓ} {item : Reader A} → NeverPanics item → NeverPanics (get_checked item)
unfolding get_checked
calm_checked h = calm_many get_size-Within h

pub calm_lenient {ℓ} :
    {A : Type ℓ} {item : Reader A} → NeverPanics item → NeverPanics (get_lenient item)
unfolding get_lenient
calm_lenient h = calm_many get_bound-Within h

pub calm_names : NeverPanics get_names
unfolding get_names
calm_names = within_then _ get_size-Within (λ n h.
    calm_then _ (calm_capacity n h)
      (λ _. calm_then _ (calm_repeated n calm_read_string) (λ xs. calm_returns _)))

calm_or_fail : (s : Option Bytes) → NeverPanics (or_fail s)
unfolding or_fail
calm_or_fail (some s) = calm_returns s
calm_or_fail none = calm_fail

pub calm_required : NeverPanics get_required
unfolding get_required
calm_required = calm_then _ calm_read_string calm_or_fail

pub calm_rest_bool : (default : Bool) → NeverPanics (get_rest_bool default)
unfolding get_rest_bool
calm_rest_bool default = record {
  calm = λ src. elim (Bool-cases (ltb 0 (length src))) [
    | inl more ↦
        let (v, e) = takes_bool.some_value src (ground (arith, more)) in
        rw (more, get_rest_bool, e) (λ x. cc)
    | inr none_left ↦ rw (none_left, get_rest_bool) (λ x. cc)
  ];
}

-- Broker ids: so many numbers are read as four bytes each are there.
takes_repeated : (n : ℕ) → Consumes (n * 4) (repeated n get_i32)
unfolding repeated
takes_repeated zero = takes_nothing []
takes_repeated (suc n) =
    subst (λ t. Consumes t (repeated (suc n) get_i32)) (four n)
      (takes_then _ takes_i32 (λ x. takes_map (λ xs. x ∷ xs) (takes_repeated n)))
  where
    four : (n : ℕ) → 4 + n * 4 ≡ suc n * 4
    four n = omega arith

takes_capacity : (n : ℕ) → n < 2 ^ 63 → Consumes 0 (with_capacity n)
unfolding with_capacity
takes_capacity n h = record { some_value = λ src _. (tt, rw (room, with_capacity) refl) }
  where
    room : ltb n (2 ^ 63) ≡ true
    room = ground (arith, h)

pub calm_ids : (n : ℕ) → n < 2 ^ 63 → NeverPanics (get_ids n)
unfolding get_ids
calm_ids n h = calm_guarded (n * 4) (
    subst (λ t. Consumes t (with_capacity n >>= (λ _. repeated n get_i32))) (none_more n)
      (takes_then _ (takes_capacity n h) (λ _. takes_repeated n)))
  where
    none_more : (n : ℕ) → 0 + n * 4 ≡ n * 4
    none_more n = omega arith

-- Two numbers under one check, of which the second is a size.
pub calm_sizes_then {ℓ} :
    {A : Type ℓ} (k : ℤ × ℤ → Reader A)
    → ((a z : ℤ) → pos_part z < 2 ^ 63 → NeverPanics (k (a, z)))
    → NeverPanics (guarded 8 (pair get_i32 get_i32) >>= k)
unfolding ◌>>=◌ guarded pair get_i32 returns
calm_sizes_then k hk = record {
  calm = λ src. elim (Bool-cases (ltb (length src) 8)) [
    | inl short ↦ rw (short, guarded) (λ e. cc)
    | inr enough ↦
        let (w, e) = get_u32_total src (ground (arith, enough)) in
        let (w', e') = get_u32_total (drop 4 src) (ground (arith, enough, length-drop 4 src)) in
        rw (enough, guarded, e, e') ((hk (of_word (2 ^ 32) w) _ (small_part w')).calm _)
  ];
}
