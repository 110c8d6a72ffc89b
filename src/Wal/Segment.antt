-- ===== src/Wal/Segment.antt =====
-- crates/oxidemq-wal/src/segment.rs: segment files. A directory maps the base sequence number in a
-- file's name to the file's bytes. Only files whose names parse are in it.
use oxide_mq.Base.{ℕ, ◌+◌, List, [], ◌++◌, none, some, length, take}
use oxide_mq.Base.Eq.{nat_eq}
use oxide_mq.Base.Assoc.{get, insert}
use oxide_mq.Base.Result.{Result, ok, err, io}
use oxide_mq.Bytes.{Bytes}

abbrev pub Dir : Type 0
Dir = List (ℕ × Bytes)

-- An open segment. The file is the directory's entry for `base_seq`.
pub record WalSegment : Type 0 where
  pub base_seq : ℕ
  pub size : ℕ

-- `File::create` with `truncate(true)`: an old file of that name is emptied.
unfoldable pub create : Dir → ℕ → Dir × WalSegment
create dir base_seq = (insert base_seq [] dir, record { base_seq = base_seq; size = 0 })

unfoldable pub open_append : Dir → ℕ → Result WalSegment
open_append dir base_seq = elim (get base_seq dir) [
  | none ↦ err io
  | some bytes ↦ ok (record { base_seq = base_seq; size = length bytes })
]

-- A file that has been unlinked while it was open takes writes that no reader of the directory sees.
unfoldable pub append : Dir → WalSegment → Bytes → Dir × WalSegment
append dir segment new =
    let segment' : WalSegment = record segment { size = segment.size + length new } in
    elim (get segment.base_seq dir) [
      | none ↦ (dir, segment')
      | some old ↦ (insert segment.base_seq (old ++ new) dir, segment')
    ]

unfoldable pub truncate : Dir → WalSegment → ℕ → Dir × WalSegment
truncate dir segment valid_len =
    let segment' : WalSegment = record segment { size = valid_len } in
    elim (get segment.base_seq dir) [
      | none ↦ (dir, segment')
      | some old ↦ (insert segment.base_seq (take valid_len old) dir, segment')
    ]

unfoldable pub read_all : Dir → WalSegment → Bytes
read_all dir segment = elim (get segment.base_seq dir) [ none ↦ [] | some bytes ↦ bytes ]
