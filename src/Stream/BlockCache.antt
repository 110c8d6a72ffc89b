-- ===== src/Stream/BlockCache.antt =====
-- crates/oxidemq-s3stream/src/block_cache.rs: the cache of decoded blocks with least-recently-used
-- eviction. `put` and `clear` hold the three locks to their end and are one step each. `get` lets
-- go of the entries before it takes the order; it is modelled as one step too, so a `put` between
-- its two halves is not.
pub mod Sound
use mathlib.Core.Option
use oxide_mq.Base.{
  ℕ, ◌+◌, ◌-◌, ◌%◌, ◌^◌, ◌≡◌, ◌↔◌, refl, List, [], ◌∷◌, ◌++◌, Option, none, some, Bool, true, false,
  ◌&&◌, length, ltb, if◌then◌else◌, String, arith,
}
use oxide_mq.Base.Eq.{Eq, ◌==◌, nat_eq, string_eq, int_eq}
use oxide_mq.Base.Int.{ℤ}
use oxide_mq.Base.Assoc.{get as lookup, insert, remove}
use oxide_mq.Bytes.{Bytes}

pub record BlockKey : Type 0 where
  pub object_key : String
  pub stream_id : ℕ
  pub start_offset : ℤ

abbrev pub key_beq : BlockKey → BlockKey → Bool
key_beq a b =
    (a.object_key == b.object_key)
    && (a.stream_id == b.stream_id)
    && (a.start_offset == b.start_offset)

pub key_beq_iff : (a b : BlockKey) → (key_beq a b ≡ true) ↔ (a ≡ b)
key_beq_iff a b = ground (
  arith,
  string_eq.beq_iff a.object_key b.object_key,
  nat_eq.beq_iff a.stream_id b.stream_id,
  int_eq.beq_iff a.start_offset b.start_offset,
)

instance abbrev pub key_eq : Eq BlockKey
key_eq = record { beq = key_beq; beq_iff = key_beq_iff }

pub record BlockCache : Type 0 where
  pub max_bytes : ℕ
  pub current_bytes : ℕ
  pub entries : List (BlockKey × Bytes)
  pub lru_order : List BlockKey
  pub hits : ℕ
  pub misses : ℕ

abbrev pub new : ℕ → BlockCache
new max_bytes = record {
  max_bytes = max_bytes;
  current_bytes = 0;
  entries = [];
  lru_order = [];
  hits = 0;
  misses = 0;
}

-- `if let Some(pos) = lru.iter().position(|k| k == key) { lru.remove(pos); }`
unfoldable pub remove_first : BlockKey → List BlockKey → List BlockKey
remove_first key [] = []
remove_first key (k ∷ ks) = if k == key then ks else k ∷ remove_first key ks

unfoldable pub get : BlockCache → BlockKey → BlockCache × Option Bytes
get c key = elim (lookup key c.entries) [
  | some block ↦ (
    record c {
      hits = (c.hits + 1) % 2 ^ 64;
      lru_order = remove_first key c.lru_order ++ (key ∷ []);
    },
    some block,
  )
  | none ↦ (record c { misses = (c.misses + 1) % 2 ^ 64 }, none)
]

-- The `while` loop of `put`, which runs once for each key of the order at most.
unfoldable pub evict :
    ℕ
    → ℕ
    → List (BlockKey × Bytes)
    → List BlockKey
    → ℕ
    → List (BlockKey × Bytes) × List BlockKey × ℕ
evict max_bytes data_len entries [] cur_bytes = (entries, [], cur_bytes)
evict max_bytes data_len entries (old_key ∷ lru) cur_bytes =
    elim (ltb max_bytes (cur_bytes + data_len)) [
      | false ↦ (entries, old_key ∷ lru, cur_bytes)
      | true ↦ elim (lookup old_key entries) [
        | none ↦ evict max_bytes data_len entries lru cur_bytes
        | some old_data ↦
            evict max_bytes data_len (remove old_key entries) lru (cur_bytes - length old_data)
      ]
    ]

unfoldable pub put : BlockCache → BlockKey → Bytes → BlockCache
put c key block =
    let (entries, lru, cur) =
      evict c.max_bytes (length block) c.entries c.lru_order c.current_bytes in
    elim (lookup key entries) [
      | none ↦ record c {
        current_bytes = cur + length block;
        entries = insert key block entries;
        lru_order = lru ++ (key ∷ []);
      }
      | some old ↦ record c {
        current_bytes = (cur - length old) + length block;
        entries = insert key block entries;
        lru_order = remove_first key lru ++ (key ∷ []);
      }
    ]

unfoldable pub clear : BlockCache → BlockCache
clear c = record c { current_bytes = 0; entries = []; lru_order = [] }
