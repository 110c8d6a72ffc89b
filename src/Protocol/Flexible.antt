-- ===== src/Protocol/Flexible.antt =====
-- Readers for the newer messages of messages.rs: checks of the bytes left before a read, the compact
-- forms that `version >= k` selects (the test is an argument here), tagged fields, and lists whose
-- number is checked.
pub mod Laws
pub mod Checked
use oxide_mq.Base.{
  ℕ, ◌+◌, ◌-◌, ◌*◌, ◌%◌, ◌^◌, List, [], ◌∷◌, ◌++◌, Option, none, some, Bool, true, false, length,
  ltb, leb, ◌&&◌, not, if◌then◌else◌,
}
use oxide_mq.Base.Int.{ℤ, pos, pos_part, ltb_ℤ, of_word}
use oxide_mq.Base.Result.{Result, ok, err, protocol}
use oxide_mq.Bytes.{Bytes, get_i32, put_i32}
use oxide_mq.Protocol.Parser.{
  read_string, write_string, read_bytes, write_bytes, read_unsigned_varint, write_unsigned_varint,
  read_compact_string, write_compact_string, read_compact_bytes, write_compact_bytes,
}
use oxide_mq.Protocol.Reader.{
  Reader, ◌>>=◌, returns, or_empty, get_bool, repeated, get_count, with_capacity, put_each,
  write_if,
}

-- `if src.len() < n { return Err(..) }` before a read.
unfoldable pub guarded {ℓ} : {A : Type ℓ} → ℕ → Reader A → Reader A
guarded n p src = if ltb (length src) n then err protocol else p src

-- Two reads under one check.
unfoldable pub pair {ℓ κ} : {A : Type ℓ} {B : Type κ} → Reader A → Reader B → Reader (A × B)
pair p q = p >>= (λ a. q >>= (λ b. returns (a, b)))

unfoldable pub get_text : Bool → Reader (Option Bytes)
get_text compact = if compact then read_compact_string else read_string

unfoldable pub put_text : Bool → Option Bytes → Bytes
put_text compact s = if compact then write_compact_string s else write_string s

unfoldable pub get_name : Bool → Reader Bytes
get_name compact = get_text compact >>= (λ s. returns (or_empty s))

abbrev pub put_name : Bool → Bytes → Bytes
put_name compact s = put_text compact (some s)

unfoldable pub get_blob : Bool → Reader Bytes
get_blob compact =
    (if compact then read_compact_bytes else read_bytes) >>= (λ b. returns (or_empty b))

unfoldable pub put_blob : Bool → Bytes → Bytes
put_blob compact b = if compact then write_compact_bytes (some b) else write_bytes (some b)

-- `(read_unsigned_varint(src)? as usize).saturating_sub(1)`, or four bytes `as usize`
unfoldable pub get_items : Bool → Reader ℕ
get_items compact =
    if compact then (read_unsigned_varint >>= (λ n. returns (n - 1))) else guarded 4 get_count

unfoldable pub put_items : Bool → ℕ → Bytes
put_items compact n =
    if compact
    then write_unsigned_varint ((n + 1) % 2 ^ 64)
    else put_i32 (of_word (2 ^ 32) (n % 2 ^ 32))

unfoldable pub get_list {ℓ} : {A : Type ℓ} → Bool → Reader A → Reader (List A)
get_list compact item = get_items compact >>= (λ n. with_capacity n >>= (λ _. repeated n item))

unfoldable pub put_list {ℓ} : {A : Type ℓ} → Bool → (A → Bytes) → List A → Bytes
put_list compact put xs = put_items compact (length xs) ++ put_each put xs

-- `if version >= k && src.has_remaining() { read_unsigned_varint(src)? }`
unfoldable pub skip_tags : Bool → Reader (Unit {0})
skip_tags flexible src =
    if flexible && ltb 0 (length src)
    then (read_unsigned_varint >>= (λ _. returns tt)) src
    else ok (tt, src)

abbrev pub put_tags : Bool → Bytes
put_tags flexible = write_if flexible (write_unsigned_varint 0)

-- A number of four bytes that must not be negative.
unfoldable pub fail {ℓ} : {A : Type ℓ} → Reader A
fail src = err protocol

unfoldable pub get_size : Reader ℕ
get_size = guarded 4 get_i32 >>= (λ n. if ltb_ℤ n (pos 0) then fail else returns (pos_part n))

unfoldable pub get_checked {ℓ} : {A : Type ℓ} → Reader A → Reader (List A)
get_checked item = get_size >>= (λ n. with_capacity n >>= (λ _. repeated n item))

-- `if let Some(s) = read_string(src)? { items.push(s) }`
unfoldable pub somes : List (Option Bytes) → List Bytes
somes [] = []
somes (some s ∷ xs) = s ∷ somes xs
somes (none ∷ xs) = somes xs

unfoldable pub get_names : Reader (List Bytes)
get_names =
    get_size
    >>= (λ n. with_capacity n >>= (λ _. repeated n read_string >>= (λ xs. returns (somes xs))))

-- A number of four bytes of which a negative one counts as none: a list, and names without a place
-- kept for them.
unfoldable pub get_bound : Reader ℕ
get_bound = guarded 4 get_i32 >>= (λ n. returns (pos_part n))

unfoldable pub get_lenient {ℓ} : {A : Type ℓ} → Reader A → Reader (List A)
get_lenient item = get_bound >>= (λ n. with_capacity n >>= (λ _. repeated n item))

unfoldable pub get_bound_names : Reader (List Bytes)
get_bound_names = get_bound >>= (λ n. repeated n read_string >>= (λ xs. returns (somes xs)))

-- Broker ids, after the check that so many are there.
unfoldable pub get_ids : ℕ → Reader (List ℤ)
get_ids n = guarded (n * 4) (with_capacity n >>= (λ _. repeated n get_i32))

-- `if src.has_remaining() { src.get_u8() != 0 } else { default }`
unfoldable pub get_rest_bool : Bool → Reader Bool
get_rest_bool default src = if ltb 0 (length src) then get_bool src else ok (default, src)

-- `read_string(src)?.ok_or_else(..)?`
unfoldable pub or_fail : Option Bytes → Reader Bytes
or_fail (some s) = returns s
or_fail none = fail

unfoldable pub get_required : Reader Bytes
get_required = read_string >>= or_fail

-- A list whose number is not checked and that grows as it is read.
unfoldable pub get_plain_list {ℓ} : {A : Type ℓ} → Bool → Reader A → Reader (List A)
get_plain_list compact item =
    (if compact then (read_unsigned_varint >>= (λ n. returns (n - 1))) else get_count)
    >>= (λ n. repeated n item)
