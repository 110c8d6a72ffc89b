-- ===== src/Broker/Partition.antt =====
-- crates/oxidemq-broker/src/partition.rs: a partition over its stream. The stream is an interface; the
-- clock's answer is an argument. Each method is one step: the appends hold a lock to their end;
-- `record_aborted_txn` takes the ongoing and the aborted transactions one after the other, and it, a
-- completion or a read in the middle of an append or of one another is not modelled.
pub mod Idempotent
pub mod Stable
use Prim.Native.Nat.{bit_and}
use oxide_mq.Base.{
  ℕ, zero, suc, ◌+◌, ◌-◌, ◌%◌, ◌^◌, List, [], ◌∷◌, ◌++◌, Option, none, some, Bool, true, false, not,
  ◌&&◌, length, take, drop, ltb, leb, nat_beq, get_or, if◌then◌else◌, map,
}
use oxide_mq.Base.Int.{
  ℤ, pos, negsuc, pos_part, ltb_ℤ, leb_ℤ, int_beq, add_i64, of_word, to_word, ◌+ℤ◌,
}
use oxide_mq.Base.Eq.{int_eq}
use oxide_mq.Base.Assoc.{get, insert, remove}
use oxide_mq.Base.Result.{Result, ok, err, panic, protocol, ◌>>=◌}
use oxide_mq.Bytes.{Bytes, get_i16, get_i32, get_i64, put_i64, put_u32, slice, overwrite}
use oxide_mq.Crc.{compute_crc32c}

-- What a partition uses of its stream (crates/oxidemq-s3stream/src/stream.rs).
pub record StreamOps (S : Type 0) : Type 0 where
  pub next_offset : S → ℤ
  pub start_offset : S → ℤ
  pub append_with_count : S → Bytes → ℤ → S × Result (Unit {0})
  pub fetch : S → ℤ → ℕ → Result (List (ℤ × Bytes))
  pub advance_start_offset : S → ℤ → S × ℤ

-- The epoch, the sequence number and the base offset of a producer's last batch.
abbrev pub ProducerEntry : Type 0
ProducerEntry = ℤ × ℤ × ℤ

pub record Partition (S : Type 0) : Type 0 where
  pub stream : S
  pub producer_states : List (ℤ × ProducerEntry)
  pub ongoing_txns : List (ℤ × ℤ)
  pub aborted_txns : List (ℤ × ℤ)

unfoldable pub new : {S : Type 0} → S → Partition S
new stream = record { stream = stream; producer_states = []; ongoing_txns = []; aborted_txns = [] }

-- A number in a range of the buffer, which must be there.
unfoldable pub i32_at : ℕ → Bytes → Result ℤ
i32_at at buf = do src ← slice at (at + 4) buf; (z, _) ← get_i32 src; ok z

unfoldable pub i16_at : ℕ → Bytes → Result ℤ
i16_at at buf = do src ← slice at (at + 2) buf; (z, _) ← get_i16 src; ok z

unfoldable pub i64_at : ℕ → Bytes → Result ℤ
i64_at at buf = do src ← slice at (at + 8) buf; (z, _) ← get_i64 src; ok z

-- `(delta as i64).max(0) + 1`, where the delta is in the buffer.
unfoldable pub record_count : ℕ → Bytes → Result ℤ
unfolding i32_at
record_count cursor buf =
    if leb (cursor + 27) (length buf)
    then (do delta ← i32_at (cursor + 23) buf; ok (pos (pos_part delta + 1)))
    else ok (pos 1)

-- One batch of a known size: its base offset and its checksum are written.
unfoldable pub patch_batch : Bytes → ℕ → ℕ → ℤ → Result Bytes
patch_batch buf cursor total_batch_size current_offset =
    let stamped = overwrite cursor (put_i64 current_offset) buf in
    (do
      body ← slice (cursor + 21) (cursor + total_batch_size) stamped
      ok (overwrite (cursor + 17) (put_u32 (compute_crc32c body)) stamped))

-- The loop of `patch_record_batches`, on fuel; sizes wrap as on `usize`.
unfoldable pub patch_loop : ℕ → Bytes → ℕ → ℤ → Result (Bytes × ℤ)
unfolding patch_batch record_count i32_at
patch_loop zero buf cursor current_offset = ok (buf, current_offset)
patch_loop (suc fuel) buf cursor current_offset =
    if leb (cursor + 21) (length buf) && nat_beq (get_or buf (cursor + 16) 0) 2
    then (do
      batch_len ← i32_at (cursor + 8) buf
      let total_batch_size = (12 + to_word (2 ^ 64) batch_len) % 2 ^ 64
      elim (ltb (length buf) ((cursor + total_batch_size) % 2 ^ 64)) [
        | true ↦ ok (buf, current_offset)
        | false ↦ (do
          patched ← patch_batch buf cursor total_batch_size current_offset
          count ← record_count cursor patched
          patch_loop fuel patched (cursor + total_batch_size) (add_i64 current_offset count))
      ])
    else ok (buf, current_offset)

-- Each round that goes on moves past the 21 bytes at least, so that a round per byte is enough.
unfoldable pub patch_record_batches : Bytes → ℤ → Result (Bytes × ℤ)
unfolding patch_loop
patch_record_batches records base_offset =
    if ltb (length records) 21 then ok (records, pos 1) else (do
      (buf, current_offset) ← patch_loop (length records) records 0 base_offset
      let total =
          of_word (2 ^ 64)
            ((to_word (2 ^ 64) current_offset + 2 ^ 64 - to_word (2 ^ 64) base_offset) % 2 ^ 64)
      ok (buf, if ltb_ℤ total (pos 1) then pos 1 else total))

-- `entry(pid).or_insert(base_offset)`
unfoldable pub or_insert : ℤ → ℤ → List (ℤ × ℤ) → List (ℤ × ℤ)
or_insert pid base_offset txns = elim (get pid txns) [
  | some _ ↦ txns
  | none ↦ insert pid base_offset txns
]

-- The transactions that are open once a batch has come in.
unfoldable pub note_txn : Bytes → ℤ → List (ℤ × ℤ) → Result (List (ℤ × ℤ))
unfolding or_insert i16_at i64_at
note_txn patched base_offset txns =
    if leb 61 (length patched) && nat_beq (get_or patched 16 0) 2
    then (do
      attr ← i16_at 21 patched
      pid ← i64_at 39 patched
      let is_tx = not (nat_beq (bit_and (to_word (2 ^ 16) attr) 0x10) 0)
      let is_ctrl = not (nat_beq (bit_and (to_word (2 ^ 16) attr) 0x20) 0)
      ok (
          if is_tx && not is_ctrl && not (int_beq pid (negsuc 0))
          then or_insert pid base_offset txns
          else txns))
    else ok txns

-- `last_seq + 1` on `i32`, which wraps where overflow checks are off.
abbrev pub add_i32 : ℤ → ℤ → ℤ
add_i32 a b = of_word (2 ^ 32) (to_word (2 ^ 32) (a +ℤ b))

-- What `append_idempotent` does with a producer's batch.
pub data Verdict : Type 0 where
  accept : Verdict
  duplicate : ℤ → Verdict
  refuse : Verdict

unfoldable pub judge : Option ProducerEntry → ℤ → ℤ → Verdict
judge none producer_epoch sequence = accept
judge (some (last_epoch, last_seq, last_offset)) producer_epoch sequence =
    if ltb_ℤ producer_epoch last_epoch
    then refuse
    else if int_beq producer_epoch last_epoch
    then if leb_ℤ sequence last_seq
      then duplicate last_offset
      else if ltb_ℤ (add_i32 last_seq (pos 1)) sequence
      then refuse
      else accept
    else accept

-- The least first offset of the open transactions, none above `bound`.
unfoldable pub least : ℤ → List (ℤ × ℤ) → ℤ
least bound [] = bound
least bound ((pid, first) ∷ txns) =
    let rest = least bound txns in if ltb_ℤ first rest then first else rest

module _ {S : Type 0} (ops : StreamOps S) where
  unfoldable pub store_batch :
      Partition S → Bytes → ℤ → List (ℤ × ℤ) → ℤ → Partition S × Result (ℤ × ℤ)
  store_batch p patched count txns now =
      let (stream, answer) = ops.append_with_count p.stream patched count in
      (
        record p { stream = stream; ongoing_txns = txns },
        (do _ ← answer; ok (ops.next_offset p.stream, now)),
      )

  unfoldable pub append_records : Partition S → Bytes → ℤ → Partition S × Result (ℤ × ℤ)
  unfolding patch_record_batches note_txn store_batch
  append_records p records now =
      let base_offset = ops.next_offset p.stream in
      elim (patch_record_batches records base_offset) [
        | ok (patched, count) ↦ elim (note_txn patched base_offset p.ongoing_txns) [
          | ok txns ↦ store_batch p patched count txns now
          | err e ↦ (p, err e)
          | panic ↦ (p, panic)
        ]
        | err e ↦ (p, err e)
        | panic ↦ (p, panic)
      ]

  -- The producer's entry once its batch is stored.
  unfoldable pub remember :
      Partition S → ℤ → ℤ → ℤ → Result (ℤ × ℤ) → Partition S × Result (ℤ × ℤ × Bool)
  remember p producer_id producer_epoch sequence (ok (base_offset, now)) = (
    record p {
      producer_states =
          insert producer_id (producer_epoch, sequence, base_offset) p.producer_states;
    },
    ok (base_offset, now, false),
  )
  remember p producer_id producer_epoch sequence (err e) = (p, err e)
  remember p producer_id producer_epoch sequence panic = (p, panic)

  unfoldable pub append_idempotent :
      Partition S → ℤ → ℤ → ℤ → Bytes → ℤ → Partition S × Result (ℤ × ℤ × Bool)
  unfolding judge append_records remember
  append_idempotent p producer_id producer_epoch sequence records now =
      elim (judge (get producer_id p.producer_states) producer_epoch sequence) [
        | refuse ↦ (p, err protocol)
        | duplicate last_offset ↦ (p, ok (last_offset, now, true))
        | accept ↦
            let (p', answer) = append_records p records now in
            remember p' producer_id producer_epoch sequence answer
      ]

  unfoldable pub read_records : Partition S → ℤ → ℕ → Result (List (ℤ × Bytes))
  read_records p fetch_offset max_bytes = ops.fetch p.stream fetch_offset max_bytes

  unfoldable pub high_watermark : Partition S → ℤ
  high_watermark p = ops.next_offset p.stream

  unfoldable pub log_start_offset : Partition S → ℤ
  log_start_offset p = ops.start_offset p.stream

  unfoldable pub advance_log_start_offset : Partition S → ℤ → Partition S × ℤ
  advance_log_start_offset p new_offset =
      let (stream, start) = ops.advance_start_offset p.stream new_offset in
      (record p { stream = stream }, start)

  -- `ongoing.values().min()` against the high watermark.
  unfoldable pub last_stable_offset : Partition S → ℤ
  unfolding least high_watermark
  last_stable_offset p = least (high_watermark p) p.ongoing_txns

abbrev pub unwrap_or : Option ℤ → ℤ → ℤ
unwrap_or (some z) default = z
unwrap_or none default = default

module _ {S : Type 0} where
  unfoldable pub complete_txn : Partition S → ℤ → Partition S
  complete_txn p producer_id = record p { ongoing_txns = remove producer_id p.ongoing_txns }

  unfoldable pub record_aborted_txn : Partition S → ℤ → ℤ → Partition S
  record_aborted_txn p producer_id first_offset =
      let actual_first = unwrap_or (get producer_id p.ongoing_txns) first_offset in
      record p {
        ongoing_txns = remove producer_id p.ongoing_txns;
        aborted_txns = p.aborted_txns ++ ((producer_id, actual_first) ∷ []);
      }

  unfoldable pub aborted_transactions : Partition S → List (ℤ × ℤ)
  aborted_transactions p = p.aborted_txns
