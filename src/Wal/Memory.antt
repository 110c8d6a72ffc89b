-- ===== src/Wal/Memory.antt =====
-- crates/oxidemq-wal/src/memory.rs: the log kept in memory. `append` takes the sequence number, the
-- lock of the records and that of the indexes one after the other, and `append_with_epoch` lets go
-- of the epochs before it appends: each such part is a definition of its own, `append` and
-- `append_with_epoch` are the parts run without another thread between them, and Wal.Memory.Lease
-- has the steps of several threads.
pub mod View
pub mod Append
pub mod Trim
pub mod Lease
use mathlib.Core.Option
use oxide_mq.Base.{
  ℕ, ◌+◌, ◌%◌, ◌^◌, List, [], ◌∷◌, ◌++◌, Option, none, some, Bool, true, false, length, ltb, leb,
  if◌then◌else◌,
}
use oxide_mq.Base.Eq.{nat_eq}
use oxide_mq.Base.Assoc.{get, insert, remove}
use oxide_mq.Base.Int.{ℤ, ltb_ℤ, leb_ℤ}
use oxide_mq.Base.Result.{Result, ok, err, panic, wal}
use oxide_mq.Bytes.{Bytes}
use oxide_mq.Wal.Frame.{WalRecord}

pub record MemoryWal : Type 0 where
  pub next_seq : ℕ
  pub records : List (ℕ × WalRecord)
  pub stream_indexes : List (ℕ × List ℕ)
  pub active_epochs : List (ℕ × ℕ)

abbrev pub new : MemoryWal
new = record { next_seq = 1; records = []; stream_indexes = []; active_epochs = [] }

abbrev pub index_of : MemoryWal → ℕ → List ℕ
index_of w stream_id = Option.get_or (get stream_id w.stream_indexes) []

-- The loop of `read_stream`; `total_bytes` is what has been taken so far.
unfoldable pub read_loop : List (ℕ × WalRecord) → ℤ → ℕ → ℕ → List ℕ → List WalRecord
read_loop records start_offset max_bytes total_bytes [] = []
read_loop records start_offset max_bytes total_bytes (seq ∷ seqs) =
    let passed = read_loop records start_offset max_bytes total_bytes seqs in
    elim (get seq records) [
      | none ↦ passed
      | some rec ↦
          let total = total_bytes + length rec.payload in
          let more = read_loop records start_offset max_bytes total seqs in
          if leb_ℤ start_offset rec.offset
          then rec ∷ (if leb max_bytes total then [] else more)
          else passed
    ]

unfoldable pub read_stream : MemoryWal → ℕ → ℤ → ℕ → List WalRecord
read_stream w stream_id start_offset max_bytes = elim (get stream_id w.stream_indexes) [
  | none ↦ []
  | some seqs ↦ read_loop w.records start_offset max_bytes 0 seqs
]

unfoldable pub len : MemoryWal → ℕ
len w = length w.records

-- The number that an append takes; `fetch_add` on a `u64` wraps.
abbrev pub take_seq : MemoryWal → MemoryWal × ℕ
take_seq w = (record w { next_seq = (w.next_seq + 1) % 2 ^ 64 }, w.next_seq)

abbrev pub put_record : MemoryWal → ℕ → ℕ → ℤ → Bytes → MemoryWal
put_record w seq stream_id offset payload =
    let rec : WalRecord = record {
      seq = seq;
      stream_id = stream_id;
      offset = offset;
      payload = payload;
    } in
    record w { records = insert seq rec w.records }

abbrev pub push_index : MemoryWal → ℕ → ℕ → MemoryWal
push_index w seq stream_id = record w {
  stream_indexes = insert stream_id (index_of w stream_id ++ (seq ∷ [])) w.stream_indexes;
}

unfoldable pub append : MemoryWal → ℕ → ℤ → Bytes → MemoryWal × Result ℕ
append w stream_id offset payload =
    let (w', seq) = take_seq w in
    (push_index (put_record w' seq stream_id offset payload) seq stream_id, ok seq)

unfoldable pub is_fenced : MemoryWal → ℕ → ℕ → Bool
is_fenced w stream_id epoch = elim (get stream_id w.active_epochs) [
  | none ↦ false
  | some active ↦ ltb epoch active
]

unfoldable pub acquire_lease : MemoryWal → ℕ → ℕ → MemoryWal × Result (Unit {0})
unfolding is_fenced
acquire_lease w stream_id epoch =
    if is_fenced w stream_id epoch
    then (w, err wal)
    else (record w { active_epochs = insert stream_id epoch w.active_epochs }, ok tt)

-- What `append_with_epoch` does while it holds the epochs.
unfoldable pub check_epoch : MemoryWal → ℕ → ℕ → Result (Unit {0})
unfolding is_fenced
check_epoch w stream_id epoch = if is_fenced w stream_id epoch then err wal else ok tt

unfoldable pub append_with_epoch : MemoryWal → ℕ → ℕ → ℤ → Bytes → MemoryWal × Result ℕ
unfolding check_epoch append
append_with_epoch w stream_id epoch offset payload = elim (check_epoch w stream_id epoch) [
  | err e ↦ (w, err e)
  | panic ↦ (w, panic)
  | ok _ ↦ append w stream_id offset payload
]

-- The loop of `trim`: the records left, and the sequence numbers retained so far.
unfoldable pub trim_loop :
    ℤ → List ℕ → List (ℕ × WalRecord) → List ℕ → List (ℕ × WalRecord) × List ℕ
trim_loop up_to_offset [] records retained = (records, retained)
trim_loop up_to_offset (seq ∷ seqs) records retained =
    let gone = trim_loop up_to_offset seqs (remove seq records) retained in
    let kept = trim_loop up_to_offset seqs records (retained ++ (seq ∷ [])) in
    let skipped = trim_loop up_to_offset seqs records retained in
    elim (get seq records) [
      | none ↦ skipped
      | some rec ↦ if ltb_ℤ rec.offset up_to_offset then gone else kept
    ]

unfoldable pub trim : MemoryWal → ℕ → ℤ → MemoryWal
trim w stream_id up_to_offset = elim (get stream_id w.stream_indexes) [
  | none ↦ w
  | some seqs ↦
      let (records, retained) = trim_loop up_to_offset seqs w.records [] in
      record w { records = records; stream_indexes = insert stream_id retained w.stream_indexes }
]
