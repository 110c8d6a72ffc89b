-- ===== src/Tests/Partitions.antt =====
-- The partition and the checked decoders at concrete inputs.
use oxide_mq.Base.{◌≡◌, ◌≢◌, refl, [], ◌∷◌, All, true, false, arith}
use oxide_mq.Base.Int.{ℤ, pos, add_i64, ◌≤ℤ◌}
use oxide_mq.Base.Result.{ok, err, panic, protocol}
use oxide_mq.Base.Assoc.{get, insert}
use oxide_mq.Bytes.{Bytes}
use oxide_mq.Broker.Partition.{
  StreamOps, Partition, new, append_idempotent, last_stable_offset, high_watermark, complete_txn,
}
use oxide_mq.Broker.Partition.Idempotent.{retry_lem}
use oxide_mq.Broker.Partition.Stable.{last_stable_offset_lem}
use oxide_mq.Protocol.Robust.{requests_total}
use oxide_mq.Protocol.Messages.DeleteTopics
use oxide_mq.Protocol.Messages.DescribeGroups
use oxide_mq.Protocol.Messages.DeleteGroups
use oxide_mq.Protocol.Messages.AlterConfigs
use oxide_mq.Protocol.Messages.DeleteRecords
use oxide_mq.Protocol.Messages.CreateTopics
use oxide_mq.Protocol.Messages.SaslHandshake
use oxide_mq.Protocol.Messages.SaslAuthenticate

-- A stream that only counts.
abbrev counting : StreamOps ℤ
counting = record {
  next_offset = λ next. next;
  start_offset = λ next. pos 0;
  append_with_count = λ next records count. (add_i64 next count, ok tt);
  fetch = λ next from max_bytes. ok [];
  advance_start_offset = λ next to. (next, to);
}

abbrev stored : Partition ℤ
stored = record {
  stream = pos 1;
  producer_states = (pos 7, (pos 1, pos 0, pos 0)) ∷ [];
  ongoing_txns = [];
  aborted_txns = [];
}

first_batch :
    append_idempotent counting (new (pos 0)) (pos 7) (pos 1) (pos 0) (1 ∷ []) (pos 5)
    ≡ (stored, ok (pos 0, pos 5, false))
unfolding append_idempotent new get insert add_i64
first_batch = refl

retry_lem_example :
    (append_idempotent counting stored (pos 7) (pos 1) (pos 0) (1 ∷ []) (pos 6)
      ≡ (stored, ok (pos 0, pos 6, true)))
    × (append_idempotent counting stored (pos 7) (pos 0) (pos 2) (1 ∷ []) (pos 6)
        ≡ (stored, err protocol))
    × (append_idempotent counting stored (pos 7) (pos 1) (pos 2) (1 ∷ []) (pos 6)
        ≡ (stored, err protocol))
retry_lem_example =
    retry_lem counting (new (pos 0)) stored (pos 7) (pos 1) (pos 0) (pos 0) (pos 5) (pos 5) (pos 0)
      (pos 2) (pos 6) (1 ∷ []) (1 ∷ []) first_batch (omega arith) (omega arith) (omega arith)

abbrev with_txn : Partition ℤ
with_txn = record {
  stream = pos 9;
  producer_states = [];
  ongoing_txns = (pos 7, pos 4) ∷ (pos 8, pos 6) ∷ [];
  aborted_txns = [];
}

last_stable_offset_lem_example :
    (last_stable_offset counting with_txn ≤ℤ high_watermark counting with_txn)
    × All (λ (producer, first). last_stable_offset counting with_txn ≤ℤ first) with_txn.ongoing_txns
    × (last_stable_offset counting with_txn
        ≤ℤ last_stable_offset counting (complete_txn with_txn (pos 7)))
last_stable_offset_lem_example = last_stable_offset_lem counting with_txn (pos 7)

-- A count of names with nothing after it.
abbrev cut_short : Bytes
cut_short = 0 ∷ 0 ∷ 0 ∷ 2 ∷ 0 ∷ []

requests_total_example :
    (CreateTopics.decode_request (pos 1) cut_short ≢ panic)
    × (DeleteTopics.decode_request (pos 1) cut_short ≢ panic)
    × (DeleteRecords.decode_request (pos 1) cut_short ≢ panic)
    × (AlterConfigs.decode_request (pos 1) cut_short ≢ panic)
    × (DescribeGroups.decode_request (pos 1) cut_short ≢ panic)
    × (DeleteGroups.decode_request (pos 1) cut_short ≢ panic)
    × (SaslHandshake.decode_request (pos 1) cut_short ≢ panic)
    × (SaslAuthenticate.decode_request (pos 1) cut_short ≢ panic)
requests_total_example = requests_total (pos 1) cut_short
