-- ===== src/Stream/LogCache.antt =====
-- crates/oxidemq-s3stream/src/log_cache.rs: the cache of recent records. Each method holds its locks
-- to its end and is one step. A `BTreeMap` is a list in the order of its offsets.
pub mod Reads
use oxide_mq.Base.{
  ℕ, zero, suc, ◌+◌, ◌-◌, ◌%◌, ◌^◌, List, [], ◌∷◌, Option, none, some, Bool, true, false, ◌&&◌, not,
  length, filter, ltb, leb, if◌then◌else◌,
}
use oxide_mq.Base.Eq.{◌==◌, nat_eq, int_eq}
use oxide_mq.Base.Int.{ℤ, pos, ltb_ℤ, leb_ℤ, max_i64, add_i64}
use oxide_mq.Base.Assoc.{get, insert, remove, contains_key}
use oxide_mq.Bytes.{Bytes}

abbrev pub StreamMap : Type 0
StreamMap = List (ℤ × Bytes)

pub record LogCache : Type 0 where
  pub max_bytes : ℕ
  pub current_bytes : ℕ
  pub streams : List (ℕ × StreamMap)
  pub hits : ℕ
  pub misses : ℕ

abbrev pub new : ℕ → LogCache
new max_bytes = record {
  max_bytes = max_bytes;
  current_bytes = 0;
  streams = [];
  hits = 0;
  misses = 0;
}

-- `BTreeMap::insert`
unfoldable pub insert_at : ℤ → Bytes → StreamMap → StreamMap
insert_at offset payload [] = (offset, payload) ∷ []
insert_at offset payload ((o, p) ∷ m) =
    if offset == o
    then (offset, payload) ∷ m
    else if ltb_ℤ offset o
    then (offset, payload) ∷ (o, p) ∷ m
    else (o, p) ∷ insert_at offset payload m

-- The scan for the stream whose first record is the oldest: the stream found so far and its offset.
unfoldable pub find_oldest : List (ℕ × StreamMap) → Option ℕ → ℤ → Option ℕ
find_oldest [] oldest_stream oldest_offset = oldest_stream
find_oldest ((s_id, []) ∷ streams) oldest_stream oldest_offset =
    find_oldest streams oldest_stream oldest_offset
find_oldest ((s_id, (first_off, payload) ∷ m) ∷ streams) oldest_stream oldest_offset =
    let older = find_oldest streams (some s_id) first_off in
    let not_older = find_oldest streams oldest_stream oldest_offset in
    if ltb_ℤ first_off oldest_offset then older else not_older

-- `pop_first` on the stream, with the stream removed when it is empty then; the bytes that are left.
unfoldable pub pop_oldest : ℕ → List (ℕ × StreamMap) → ℕ → List (ℕ × StreamMap) × ℕ
pop_oldest s_id streams cur_bytes = elim (get s_id streams) [
  | none ↦ (streams, cur_bytes)
  | some m ↦ elim m [
    | [] ↦ (remove s_id streams, cur_bytes)
    | e ∷ rest ↦ elim rest [
      | [] ↦ (remove s_id streams, cur_bytes - length e.1)
      | f ∷ rest' ↦ (insert s_id (f ∷ rest') streams, cur_bytes - length e.1)
    ]
  ]
]

abbrev pub is_nil : List (ℕ × StreamMap) → Bool
is_nil [] = true
is_nil (x ∷ xs) = false

-- The `while` loop of `put`; each round takes a record away, so that one round more than there are
-- records is enough.
unfoldable pub evict : ℕ → ℕ → ℕ → List (ℕ × StreamMap) → ℕ → List (ℕ × StreamMap) × ℕ
unfolding find_oldest pop_oldest
evict zero max_bytes data_len streams cur_bytes = (streams, cur_bytes)
evict (suc fuel) max_bytes data_len streams cur_bytes =
    elim (ltb max_bytes (cur_bytes + data_len) && not (is_nil streams)) [
      | false ↦ (streams, cur_bytes)
      | true ↦ elim (find_oldest streams none max_i64) [
        | none ↦ (streams, cur_bytes)
        | some s_id ↦
            let (streams', cur_bytes') = pop_oldest s_id streams cur_bytes in
            evict fuel max_bytes data_len streams' cur_bytes'
      ]
    ]

abbrev pub record_count : List (ℕ × StreamMap) → ℕ
record_count [] = 0
record_count ((s_id, m) ∷ streams) = length m + record_count streams

-- `entry(stream_id).or_default()`
abbrev pub stream_or_empty : ℕ → List (ℕ × StreamMap) → StreamMap
stream_or_empty stream_id streams = elim (get stream_id streams) [ none ↦ [] | some m ↦ m ]

abbrev pub size_of : Option Bytes → ℕ
size_of none = 0
size_of (some p) = length p

unfoldable pub put : LogCache → ℕ → ℤ → Bytes → LogCache
unfolding evict insert_at
put c stream_id offset payload =
    let (streams, cur) =
      evict (suc (record_count c.streams)) c.max_bytes (length payload) c.streams c.current_bytes in
    let stream_map = stream_or_empty stream_id streams in
    record c {
      streams = insert stream_id (insert_at offset payload stream_map) streams;
      current_bytes = (cur - size_of (get offset stream_map)) + length payload;
    }

-- The loop of `read_range` from an offset on, over the records that are left; the offset expected
-- next goes up by one.
unfoldable pub read_loop : ℤ → ℕ → ℕ → StreamMap → StreamMap
read_loop expected_offset max_bytes total_bytes [] = []
read_loop expected_offset max_bytes total_bytes ((off, payload) ∷ m) =
    let more =
      read_loop (add_i64 expected_offset (pos 1)) max_bytes (total_bytes + length payload) m in
    if not (off == expected_offset)
    then []
    else (off, payload) ∷ (if leb max_bytes (total_bytes + length payload) then [] else more)

unfoldable pub read_range : LogCache → ℕ → ℤ → ℕ → LogCache × Option StreamMap
unfolding read_loop
read_range c stream_id start_offset max_bytes =
    let missed = record c { misses = (c.misses + 1) % 2 ^ 64 } in
    elim (get stream_id c.streams) [
      | none ↦ (missed, none)
      | some stream_map ↦
          if not (contains_key start_offset stream_map)
          then (missed, none)
          else elim (read_loop start_offset max_bytes 0
              (filter (λ e. leb_ℤ start_offset e.0) stream_map)) [
                | [] ↦ (missed, none)
                | e ∷ es ↦ (record c { hits = (c.hits + 1) % 2 ^ 64 }, some (e ∷ es))
              ]
    ]

-- The loop of `trim` on one stream.
unfoldable pub trim_loop : ℤ → StreamMap → ℕ → StreamMap × ℕ
trim_loop up_to_offset [] cur_bytes = ([], cur_bytes)
trim_loop up_to_offset ((first_off, evicted) ∷ m) cur_bytes =
    let rest = trim_loop up_to_offset m (cur_bytes - length evicted) in
    if ltb_ℤ first_off up_to_offset then rest else ((first_off, evicted) ∷ m, cur_bytes)

unfoldable pub trim : LogCache → ℕ → ℤ → LogCache
unfolding trim_loop
trim c stream_id up_to_offset = elim (get stream_id c.streams) [
  | none ↦ c
  | some m ↦
      let (left, cur) = trim_loop up_to_offset m c.current_bytes in
      record c { streams = insert stream_id left c.streams; current_bytes = cur }
]
