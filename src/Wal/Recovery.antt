-- ===== src/Wal/Recovery.antt =====
-- crates/oxidemq-wal/src/recovery.rs: the scan of the segments after a crash.
pub mod Scan
pub mod Torn
pub mod Reconcile
pub mod TakeRun
pub mod Groups
pub mod Run
use oxide_mq.Base.{
  ℕ, zero, suc, ◌+◌, ◌-◌, ◌*◌, ◌<◌, ◌≤◌, List, [], ◌∷◌, ◌++◌, Option, none, some, Bool, true, false,
  length, take, drop, ltb, leb, if◌then◌else◌,
}
use oxide_mq.Base.Eq.{nat_eq}
use oxide_mq.Base.Assoc.{get, insert}
use oxide_mq.Base.Int.{ℤ, pos, add_i64, leb_ℤ}
use oxide_mq.Base.Result.{Result, ok, err, panic, ◌>>=◌}
use oxide_mq.Base.Sort.{sort}
use oxide_mq.Bytes.{Bytes}
use oxide_mq.Wal.Frame.{WalRecord, decode}
use oxide_mq.Wal.Segment.{Dir, WalSegment, open_append, truncate, read_all}

pub record StreamWatermark : Type 0 where
  pub stream_id : ℕ
  pub start_offset : ℤ
  pub next_offset : ℤ
  pub record_count : ℕ

pub record RecoveryReport : Type 0 where
  pub segment_files_scanned : ℕ
  pub total_records_recovered : ℕ
  pub highest_seq : ℕ
  pub stream_watermarks : List (ℕ × StreamWatermark)
  pub truncated_bytes : ℕ

abbrev pub no_report : RecoveryReport
no_report = record {
  segment_files_scanned = 0;
  total_records_recovered = 0;
  highest_seq = 0;
  stream_watermarks = [];
  truncated_bytes = 0;
}

-- The entry of the record's stream, or a new one (`or_insert`).
watermark_entry : List (ℕ × StreamWatermark) → WalRecord → StreamWatermark
watermark_entry marks r = elim (get r.stream_id marks) [
  | none ↦ record {
    stream_id = r.stream_id;
    start_offset = r.offset;
    next_offset = add_i64 r.offset (pos 1);
    record_count = 0;
  }
  | some wm ↦ wm
]

unfoldable pub bump_watermark : StreamWatermark → WalRecord → StreamWatermark
bump_watermark wm r = record wm {
  record_count = wm.record_count + 1;
  next_offset = if leb_ℤ wm.next_offset r.offset then add_i64 r.offset (pos 1) else wm.next_offset;
}

-- The bookkeeping for one decoded record.
unfoldable pub note_record : RecoveryReport → WalRecord → RecoveryReport
unfolding watermark_entry bump_watermark
note_record report r = record report {
  total_records_recovered = report.total_records_recovered + 1;
  highest_seq = if ltb report.highest_seq r.seq then r.seq else report.highest_seq;
  stream_watermarks =
      insert r.stream_id (bump_watermark (watermark_entry report.stream_watermarks r) r)
        report.stream_watermarks;
}

-- `segment.truncate(cursor)`, and the bytes given up.
cut : Dir → WalSegment → RecoveryReport → (cursor total_len : ℕ) → RecoveryReport × Dir
cut dir segment report cursor total_len =
    let (dir', segment') = truncate dir segment cursor in
    (record report { truncated_bytes = report.truncated_bytes + (total_len - cursor) }, dir')

-- `while cursor < total_len`. A torn record and a corrupted one both end the scan and cut the file.
-- `panic` also stands for fuel that has run out.
unfoldable pub scan :
    ℕ → Dir → WalSegment → Bytes → ℕ → RecoveryReport → Result (RecoveryReport × Dir)
unfolding cut
scan zero dir segment raw cursor report = panic
scan (suc fuel) dir segment raw cursor report =
    if ltb cursor (length raw)
    then elim (decode (drop cursor raw)) [
      | ok (some (r, consumed)) ↦
          scan fuel dir segment raw (cursor + consumed) (note_record report r)
      | ok none ↦ ok (cut dir segment report cursor (length raw))
      | err _ ↦ ok (cut dir segment report cursor (length raw))
      | panic ↦ panic
    ]
    else ok (report, dir)

-- A round that goes on takes 36 bytes, so `length raw + 1` rounds are enough.
unfoldable pub recover_segment : Dir → ℕ → RecoveryReport → Result (RecoveryReport × Dir)
recover_segment dir base_seq report = do
  segment ← open_append dir base_seq
  let raw = read_all dir segment
  scan (suc (length raw)) dir segment raw 0 report

unfoldable pub recover_segments :
    Dir → List (ℕ × Bytes) → RecoveryReport → Result (RecoveryReport × Dir)
recover_segments dir [] report = ok (report, dir)
recover_segments dir ((base_seq, _) ∷ rest) report = do
  (report', dir') ← recover_segment dir base_seq report
  recover_segments dir' rest report'

-- The files in the order of their base sequence numbers.
unfoldable pub segment_paths : Dir → Dir
segment_paths dir = sort (λ a b. leb a.0 b.0) dir

unfoldable pub recover : Dir → Result (RecoveryReport × Dir)
recover dir =
    let paths = segment_paths dir in
    recover_segments dir paths (record no_report { segment_files_scanned = length paths })
