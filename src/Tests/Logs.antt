-- ===== src/Tests/Logs.antt =====
-- The write-ahead log and the block cache at concrete inputs.
use oxide_mq.Base.{
  All, ℕ, ◌+◌, ◌<◌, ◌≤◌, ◌≡◌, ◌≢◌, refl, List, [], ◌∷◌, ◌++◌, take, drop, get_or, length, filter,
  none, some, if◌then◌else◌, max, ltb, arith,
}
use oxide_mq.Base.Eq.{◌==◌, nat_eq}
use oxide_mq.Base.Int.{ℤ, pos, leb_ℤ}
use oxide_mq.Base.Assoc.{get}
use oxide_mq.Base.Result.{ok, err, wal}
use oxide_mq.Bytes.{overwrite, put_u32, put_u64, put_i64}
use oxide_mq.Wal.Frame.{WalRecord, IsWalRecord, encode, decode, header_size}
use oxide_mq.Wal.Frame.RoundTrip.{decode-encode, decode_torn}
use oxide_mq.Wal.Segment.{Dir}
use oxide_mq.Wal.Recovery.{RecoveryReport, no_report, note_record, recover, recover_segment}
use oxide_mq.Wal.Recovery.Scan.{recover_total}
use oxide_mq.Wal.Recovery.Torn.{encode_all, recover_segment_torn}
use oxide_mq.Wal.Recovery.Run.{recovered, Gives, recovered_run}
use oxide_mq.Wal.Memory.{
  MemoryWal, append, append_with_epoch, check_epoch, is_fenced, take_seq, acquire_lease,
  read_stream, trim, new,
}
use oxide_mq.Wal.Memory.View.{view, take_bytes, IsValid, read_stream-view}
use oxide_mq.Wal.Memory.Append.{append_lem}
use oxide_mq.Wal.Memory.Trim.{trim_lem}
use oxide_mq.Wal.Memory.Lease.{
  active_epoch, here, then_, take as take_step, superseded_lem, granted_lem,
}
use oxide_mq.Stream.LogCache.{LogCache, StreamMap, read_range, read_loop, stream_or_empty}
use oxide_mq.Stream.LogCache.Reads as LogReads
use oxide_mq.Stream.LogCache.Reads.{read_range_lem}
use oxide_mq.Base.Assoc.{contains_key}
use oxide_mq.Base.Int.{add_i64}
use oxide_mq.Stream.BlockCache.{BlockKey, key_eq, put, remove_first, new as new_cache}
use oxide_mq.Stream.BlockCache.Sound.{IsSound, NoRoom, count, put_lem}

abbrev first : WalRecord
first = record { seq = 1; stream_id = 7; offset = pos 0; payload = 1 ∷ 2 ∷ [] }

abbrev second : WalRecord
second = record { seq = 2; stream_id = 7; offset = pos 1; payload = 3 ∷ [] }

first-IsWalRecord : IsWalRecord first
first-IsWalRecord = record {
  seq_range = omega arith;
  stream_range = omega arith;
  offset_range = omega arith;
  payload_range = omega arith;
}

second-IsWalRecord : IsWalRecord second
second-IsWalRecord = record {
  seq_range = omega arith;
  stream_range = omega arith;
  offset_range = omega arith;
  payload_range = omega arith;
}

second_cut :
    encode second []
    ≡ take 10 (encode second []) ++ (get_or (encode second []) 10 0 ∷ drop 11 (encode second []))
unfolding encode overwrite put_u32 put_u64 put_i64
second_cut = refl

abbrev log : Dir
log = (1, encode_all (first ∷ []) [] ++ take 10 (encode second [])) ∷ []

log-get : get 1 log ≡ some (encode_all (first ∷ []) [] ++ take 10 (encode second []))
unfolding get
log-get = refl

decode-encode_example :
    decode (drop (length {A = ℕ} []) (encode first [] ++ (9 ∷ [])))
    ≡ ok (some (first, header_size + length first.payload))
decode-encode_example = decode-encode first [] (9 ∷ []) first-IsWalRecord

decode_torn_example : decode (take 10 (encode second [])) ≡ ok none
decode_torn_example =
    decode_torn second (take 10 (encode second [])) (drop 11 (encode second []))
      (get_or (encode second []) 10 0) second-IsWalRecord second_cut

recover_segment_torn_example :
    (p : RecoveryReport × Dir) × (recover_segment log 1 no_report ≡ ok p)
    × (p.0 ≡ record (note_record no_report first) {
      truncated_bytes =
          (note_record no_report first).truncated_bytes + length (take 10 (encode second []));
    })
    × (p.0.total_records_recovered ≡ 1)
    × All (λ r. r.seq ≤ p.0.highest_seq) (first ∷ [])
    × ((b : ℕ) → get b p.1 ≡ (if 1 == b then some (encode_all (first ∷ []) []) else get b log))
recover_segment_torn_example =
    recover_segment_torn log 1 (first ∷ []) second (take 10 (encode second []))
      (drop 11 (encode second [])) (get_or (encode second []) 10 0) no_report
      (first-IsWalRecord, tt) second-IsWalRecord second_cut log-get

recover_total_example : (p : RecoveryReport × Dir) × (recover log ≡ ok p)
recover_total_example = recover_total log

abbrev ends : List (ℕ × ℤ)
ends = (7, pos 1) ∷ []

ends-get : get 7 ends ≡ some (pos 1)
unfolding get
ends-get = refl

recovered_run_example :
    Gives
      (second ∷ first ∷ [])
      ends
      7
      (λ r. 0 < r.seq)
      (pos 1)
      (recovered (second ∷ first ∷ []) ends 7)
recovered_run_example =
    recovered_run (second ∷ first ∷ []) ends 7 (λ r. 0 < r.seq) (pos 1)
      (
        record { in_range = omega arith; below_max = omega arith },
        (record { in_range = omega arith; below_max = omega arith }, tt),
      )
      (omega arith, (omega arith, tt)) ends-get

new-IsValid : IsValid new
unfolding get
new-IsValid = record { fresh = λ s r h. absurd (cc h); owned = λ j. tt }

append_lem_example :
    ((append new 7 (pos 0) (1 ∷ [])).1 ≡ ok 1)
    × IsValid (append new 7 (pos 0) (1 ∷ [])).0
    × ((j : ℕ)
        → view (append new 7 (pos 0) (1 ∷ [])).0 j ≡ (
            if 7 == j
            then view new j
              ++ (record { seq = 1; stream_id = 7; offset = pos 0; payload = 1 ∷ [] } ∷ [])
            else view new j))
append_lem_example = append_lem new 7 (pos 0) (1 ∷ []) new-IsValid (omega arith)

one_record : MemoryWal
one_record = (append new 7 (pos 0) (1 ∷ [])).0

one_record-IsValid : IsValid one_record
unfolding one_record
one_record-IsValid = append_lem_example.1

trim_lem_example :
    IsValid (trim one_record 7 (pos 1))
    × ((j : ℕ)
        → view (trim one_record 7 (pos 1)) j ≡ (
            if 7 == j
            then filter (λ r. leb_ℤ (pos 1) r.offset) (view one_record j)
            else view one_record j))
trim_lem_example = trim_lem one_record 7 (pos 1) one_record-IsValid

read_stream-view_example :
    read_stream one_record 7 (pos 0) 100
    ≡ take_bytes 100 0 (filter (λ r. leb_ℤ (pos 0) r.offset) (view one_record 7))
read_stream-view_example = read_stream-view one_record 7 (pos 0) 100

abbrev leased : MemoryWal
leased = record new { active_epochs = (7, 5) ∷ [] }

-- The log after a newer holder has taken the lease and a sequence number.
abbrev taken_over : MemoryWal
taken_over = (take_seq (acquire_lease leased 7 6).0).0

newer_granted : (acquire_lease leased 7 6).1 ≡ ok tt
unfolding acquire_lease is_fenced get
newer_granted = refl

superseded_lem_example :
    (acquire_lease taken_over 7 5 ≡ (taken_over, err wal))
    × (check_epoch taken_over 7 5 ≡ err wal)
    × (append_with_epoch taken_over 7 5 (pos 0) [] ≡ (taken_over, err wal))
superseded_lem_example =
    superseded_lem leased taken_over 7 6 5 (pos 0) [] newer_granted
      (then_ here (take_step (acquire_lease leased 7 6).0)) (omega arith)

leased_high : active_epoch leased 7 ≤ 6
unfolding get
leased_high = omega arith

granted_lem_example :
    ((acquire_lease leased 7 6).1 ≡ ok tt)
    × (active_epoch (acquire_lease leased 7 6).0 7 ≡ 6)
    × ((j : ℕ) → active_epoch leased j ≤ active_epoch (acquire_lease leased 7 6).0 j)
    × (append_with_epoch leased 7 6 (pos 0) [] ≡ append leased 7 (pos 0) [])
granted_lem_example = granted_lem leased 7 6 (pos 0) [] leased_high

abbrev block_key : BlockKey
block_key = record { object_key = "object"; stream_id = 1; start_offset = pos 0 }

cache-IsSound : IsSound (new_cache 50)
unfolding get
cache-IsSound = record { unique = tt; ordered = λ k. refl; counted = refl }

put_lem_example :
    IsSound (put (new_cache 50) block_key (1 ∷ 2 ∷ []))
    × ((put (new_cache 50) block_key (1 ∷ 2 ∷ [])).current_bytes ≤ max 50 2)
    × ((gone : List BlockKey) × (rest : List BlockKey) × ([] ≡ gone ++ rest)
        × NoRoom 50 2 gone (new_cache 50).entries
        × ((put (new_cache 50) block_key (1 ∷ 2 ∷ [])).lru_order
            ≡ remove_first block_key rest ++ (block_key ∷ []))
        × ((j : BlockKey)
            → get j (put (new_cache 50) block_key (1 ∷ 2 ∷ [])).entries ≡ (
                if block_key == j
                then some (1 ∷ 2 ∷ [])
                else if ltb 0 (count j gone)
                then none
                else get j (new_cache 50).entries)))
put_lem_example = put_lem (new_cache 50) block_key (1 ∷ 2 ∷ []) cache-IsSound

abbrev cached : LogCache
cached = record {
  max_bytes = 100;
  current_bytes = 3;
  streams = (1, (pos 0, 5 ∷ []) ∷ (pos 1, 6 ∷ []) ∷ (pos 3, 7 ∷ []) ∷ []) ∷ [];
  hits = 0;
  misses = 0;
}

abbrev hit_run : StreamMap
hit_run = (pos 0, 5 ∷ []) ∷ (pos 1, 6 ∷ []) ∷ []

cached-hit : (read_range cached 1 (pos 0) 100).1 ≡ some hit_run
unfolding read_range get contains_key read_loop add_i64
cached-hit = refl

read_range_lem_example :
    LogReads.Consecutive (pos 0) hit_run
    × (hit_run ≢ [])
    × ((n : ℕ) × (hit_run
          ≡ take n (filter (λ e. leb_ℤ (pos 0) e.0) (stream_or_empty 1 cached.streams))))
read_range_lem_example = read_range_lem cached 1 (pos 0) 100 hit_run cached-hit
