-- ===== src/Wal/Memory/View.antt =====
-- What a stream of the in-memory log holds, and that `read_stream` reads it.
use oxide_mq.Base.{
  ℕ, ◌+◌, ◌<◌, ◌≡◌, refl, List, [], ◌∷◌, none, some, length, All, filter, leb, if◌then◌else◌, arith,
  Option-cases, inl, inr,
}
use oxide_mq.Base.Eq.{nat_eq}
use oxide_mq.Base.Assoc.{get}
use oxide_mq.Base.Int.{ℤ, leb_ℤ}
use oxide_mq.Wal.Frame.{WalRecord}
use oxide_mq.Wal.Memory.{MemoryWal, index_of, read_loop, read_stream}

-- The records at the given sequence numbers, in that order.
unfoldable pub lookup_all : List (ℕ × WalRecord) → List ℕ → List WalRecord
lookup_all records [] = []
lookup_all records (seq ∷ seqs) =
    let rest = lookup_all records seqs in
    elim (get seq records) [ none ↦ rest | some rec ↦ rec ∷ rest ]

-- The abstract state: each stream is a list of records.
unfoldable pub view : MemoryWal → ℕ → List WalRecord
view w stream_id = lookup_all w.records (index_of w stream_id)

-- The records taken until `max_bytes` is reached; the one that reaches it is the last.
unfoldable pub take_bytes : ℕ → ℕ → List WalRecord → List WalRecord
take_bytes max_bytes total [] = []
take_bytes max_bytes total (r ∷ rs) =
    let more = take_bytes max_bytes (total + length r.payload) rs in
    r ∷ (if leb max_bytes (total + length r.payload) then [] else more)

read_loop-take_bytes :
    (records : List (ℕ × WalRecord)) (start : ℤ) (max_bytes total : ℕ) (seqs : List ℕ)
    → read_loop records start max_bytes total seqs
      ≡ take_bytes max_bytes total (filter (λ r. leb_ℤ start r.offset) (lookup_all records seqs))
unfolding read_loop take_bytes lookup_all
read_loop-take_bytes records start max_bytes total [] = refl
read_loop-take_bytes records start max_bytes total (seq ∷ seqs) =
    elim (Option-cases (get seq records)) [
      | inl e ↦
          rw (e, read_loop, lookup_all) (read_loop-take_bytes records start max_bytes total seqs)
      | inr (r, e) ↦
          rw (e, read_loop, lookup_all)
            (ground (
              arith,
              read_loop-take_bytes records start max_bytes total seqs,
              read_loop-take_bytes records start max_bytes (total + length r.payload) seqs,
            ))
    ]

-- A read returns the stream's records from the start offset on, in the order in which they were
-- appended, up to and including the one that fills the byte budget.
pub read_stream-view :
    (w : MemoryWal) (stream_id : ℕ) (start : ℤ) (max_bytes : ℕ)
    → read_stream w stream_id start max_bytes
      ≡ take_bytes max_bytes 0 (filter (λ r. leb_ℤ start r.offset) (view w stream_id))
unfolding read_stream view take_bytes lookup_all
read_stream-view w stream_id start max_bytes =
    elim (Option-cases (get stream_id w.stream_indexes)) [
      | inl e ↦ rw (e, read_stream) refl
      | inr (seqs, e) ↦ rw (e, read_stream) (read_loop-take_bytes w.records start max_bytes 0 seqs)
    ]

-- A record of the log at `seq` that belongs to the stream.
abbrev pub Owned : List (ℕ × WalRecord) → ℕ → ℕ → Type 0
Owned records stream_id seq =
    (r : WalRecord) × (get seq records ≡ some r) × (r.stream_id ≡ stream_id)

-- Sequence numbers of the log are in use, and an index names only records of its own stream.
pub record IsValid (w : MemoryWal) : Type 0 where
  pub fresh : (seq : ℕ) (r : WalRecord) → get seq w.records ≡ some r → seq < w.next_seq
  pub owned : (stream_id : ℕ) → All (Owned w.records stream_id) (index_of w stream_id)
