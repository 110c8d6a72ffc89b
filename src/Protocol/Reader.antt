-- ===== src/Protocol/Reader.antt =====
-- Readers of the messages: the buffer `src: &mut Bytes` is passed along, and `?` and the panics of
-- the `bytes` reads are the results of Base.Result. A writer is the bytes that it puts into `dst`.
pub mod Laws
use oxide_mq.Base.{
  ℕ, zero, suc, ◌+◌, ◌%◌, ◌^◌, ◌<◌, ◌≡◌, List, [], ◌∷◌, ◌++◌, Option, none, some, Bool, true, false,
  length, nat_beq, All, not, ltb, if◌then◌else◌, arith,
}
use oxide_mq.Base.Int.{ℤ, pos, negsuc, pos_part, ltb_ℤ, int_beq, of_word, to_word, InWord}
use oxide_mq.Base.Result.{Result, ok, err, panic}
use oxide_mq.Base.Result
use oxide_mq.Bytes.{Bytes, get_u8, get_i16, get_i32, put_i16, put_i32}
use oxide_mq.Broker.Codes.{KafkaErrorCode, as_i16}
use oxide_mq.Protocol.ErrorCode.{from_i16}
use oxide_mq.Protocol.Parser.{read_string, write_string, read_bytes, write_bytes, is_utf8}

abbrev pub Reader {ℓ} : Type ℓ → Type ℓ
Reader A = Bytes → Result (A × Bytes)

infixl 5 ◌>>=◌
unfoldable pub ◌>>=◌ {ℓ κ} : {A : Type ℓ} {B : Type κ} → Reader A → (A → Reader B) → Reader B
(p >>= k) src = Result.◌>>=◌ (p src) (λ (v, rest). k v rest)

unfoldable pub returns {ℓ} : {A : Type ℓ} → A → Reader A
returns v src = ok (v, src)

-- First these bytes, then those.
infixr 60 ◌▸◌
abbrev pub ◌▸◌ : Bytes → Bytes → Bytes
first ▸ others = first ++ others

-- `if test { read } else { default }`, and a write under the same test.
abbrev pub read_if {ℓ} : {A : Type ℓ} → Bool → Reader A → A → Reader A
read_if test p default = if test then p else returns default

abbrev pub write_if : Bool → Bytes → Bytes
write_if test bytes = if test then bytes else []

unfoldable pub get_i8 : Reader ℤ
get_i8 = get_u8 >>= (λ b. returns (of_word (2 ^ 8) b))

unfoldable pub put_u8 : ℕ → Bytes
put_u8 v = (v % 2 ^ 8) ∷ []

unfoldable pub put_i8 : ℤ → Bytes
put_i8 z = put_u8 (to_word (2 ^ 8) z)

-- `src.get_u8() != 0` and `flag as u8`
unfoldable pub get_bool : Reader Bool
get_bool = get_u8 >>= (λ b. returns (not (nat_beq b 0)))

unfoldable pub put_bool : Bool → Bytes
put_bool true = put_u8 1
put_bool false = put_u8 0

-- `src.get_i8() != 0` and `if flag { 1 } else { 0 }`
unfoldable pub get_flag : Reader Bool
unfolding get_i8
get_flag = get_i8 >>= (λ b. returns (not (int_beq b (pos 0))))

unfoldable pub get_error : Reader KafkaErrorCode
unfolding from_i16
get_error = get_i16 >>= (λ code. returns (from_i16 code))

abbrev pub put_error : KafkaErrorCode → Bytes
put_error code = put_i16 (as_i16 code)

-- `read_string(src)?.unwrap_or_default()` and `write_string(dst, Some(&s))`
abbrev pub or_empty : Option Bytes → Bytes
or_empty (some s) = s
or_empty none = []

unfoldable pub get_string : Reader Bytes
get_string = read_string >>= (λ s. returns (or_empty s))

abbrev pub put_string : Bytes → Bytes
put_string s = write_string (some s)

-- `read_bytes(src)?.unwrap_or_default()` and `write_bytes(dst, Some(&b))`
unfoldable pub get_data : Reader Bytes
get_data = read_bytes >>= (λ b. returns (or_empty b))

abbrev pub put_data : Bytes → Bytes
put_data b = write_bytes (some b)

-- `for _ in 0..count`
unfoldable pub repeated {ℓ} : {A : Type ℓ} → ℕ → Reader A → Reader (List A)
repeated zero item = returns []
repeated (suc n) item = item >>= (λ x. repeated n item >>= (λ xs. returns (x ∷ xs)))

-- `src.get_i32() as usize`
unfoldable pub get_count : Reader ℕ
get_count = get_i32 >>= (λ n. returns (to_word (2 ^ 64) n))

-- `Vec::with_capacity(count)`, which panics past `isize::MAX`; memory is not modelled.
unfoldable pub with_capacity : ℕ → Reader (Unit {0})
with_capacity n src = if ltb n (2 ^ 63) then ok (tt, src) else panic

unfoldable pub get_vec {ℓ} : {A : Type ℓ} → Reader A → Reader (List A)
get_vec item = get_count >>= (λ n. with_capacity n >>= (λ _. repeated n item))

-- `items.len() as i32` and the items.
unfoldable pub put_each {ℓ} : {A : Type ℓ} → (A → Bytes) → List A → Bytes
put_each put [] = []
put_each put (x ∷ xs) = put x ++ put_each put xs

unfoldable pub put_vec {ℓ} : {A : Type ℓ} → (A → Bytes) → List A → Bytes
put_vec put xs = put_i32 (of_word (2 ^ 32) (length xs % 2 ^ 32)) ++ put_each put xs

-- A list that may be absent: its number is negative then.
unfoldable pub get_nullable_vec {ℓ} : {A : Type ℓ} → Reader A → Reader (Option (List A))
get_nullable_vec item = get_i32 >>= (λ n.
    if ltb_ℤ n (pos 0)
    then returns none
    else (with_capacity (pos_part n)
        >>= (λ _. repeated (pos_part n) item >>= (λ xs. returns (some xs)))))

unfoldable pub put_nullable_vec {ℓ} : {A : Type ℓ} → (A → Bytes) → Option (List A) → Bytes
unfolding put_vec
put_nullable_vec put (some xs) = put_vec put xs
put_nullable_vec put none = put_i32 (negsuc 0)

-- The values that the wire holds.
abbrev pub IsI8 : ℤ → Type 0
IsI8 = InWord (2 ^ 8)

abbrev pub IsI16 : ℤ → Type 0
IsI16 = InWord (2 ^ 16)

abbrev pub IsI32 : ℤ → Type 0
IsI32 = InWord (2 ^ 32)

abbrev pub IsText : Bytes → Type 0
IsText s = (is_utf8 s ≡ true) × (length s < 2 ^ 15)

abbrev pub IsOptionalText : Option Bytes → Type 0
IsOptionalText (some s) = IsText s
IsOptionalText none = Unit

abbrev pub IsData : Bytes → Type 0
IsData b = length b < 2 ^ 31

abbrev pub IsVec {ℓ κ} : {A : Type ℓ} → (A → Type κ) → List A → Type κ
IsVec P xs = (length xs < 2 ^ 31) × All P xs

abbrev pub IsNullable {ℓ κ} : {A : Type ℓ} → (A → Type κ) → Option (List A) → Type κ
IsNullable P (some xs) = IsVec P xs
IsNullable P none = Unit {κ}
