-- ===== src/Broker/Transaction.antt =====
-- crates/oxidemq-broker/src/transaction.rs: the coordinator of transactions. Each method holds the
-- lock of the map to its end and is one step, or takes the next number alone, which is one atomic
-- step. The time of the last update, which is only stored,
-- and the log lines are left out. The partitions are an interface, `Cluster`: of them `end_txn`
-- uses `get_or_create_partition` with `append_records` of a control batch, `complete_txn` and
-- `record_aborted_txn`.
pub mod Fencing
pub mod Producers
use mathlib.Core.Option
use oxide_mq.Base.{
  ℕ, ◌+◌, ◌^◌, List, [], ◌∷◌, Option, none, some, Bool, true, false, not, if◌then◌else◌, String,
}
use oxide_mq.Base.Eq.{◌==◌, string_eq, int_eq}
use oxide_mq.Base.Int.{ℤ, pos, ltb_ℤ, leb_ℤ, add_i64, of_word, to_word, ◌+ℤ◌}
use oxide_mq.Base.Assoc.{get, insert, contains_key}
use oxide_mq.Broker.Codes.{
  KafkaErrorCode, invalid_producer_id_mapping, producer_fenced, invalid_producer_epoch,
  unknown_server, TopicPartition, tp_eq,
}

pub data TransactionState : Type 0 where
  empty ongoing prepare_commit prepare_abort complete_commit complete_abort dead : TransactionState

-- The set of partitions is a list without repetition, in the order in which it is drained.
pub record TransactionMetadata : Type 0 where
  pub transactional_id : String
  pub producer_id : ℤ
  pub producer_epoch : ℤ
  pub txn_timeout_ms : ℤ
  pub state : TransactionState
  pub partitions : List TopicPartition

pub record TransactionCoordinator : Type 0 where
  pub transactions : List (String × TransactionMetadata)
  pub next_producer_id : ℤ

abbrev pub new : TransactionCoordinator
new = record { transactions = []; next_producer_id = pos 1000 }

pub data Answer {ℓ} (A : Type ℓ) : Type ℓ where
  ok : A → Answer A
  err : KafkaErrorCode → Answer A

-- An `i16` addition, which wraps where overflow checks are off.
abbrev pub add_i16 : ℤ → ℤ → ℤ
add_i16 a b = of_word (2 ^ 16) (to_word (2 ^ 16) (a +ℤ b))

-- A transactional identifier that is known: the epoch goes up and the transaction is forgotten.
unfoldable pub bump : TransactionMetadata → TransactionMetadata
bump meta = record meta {
  producer_epoch = add_i16 meta.producer_epoch (pos 1);
  partitions = [];
  state = empty;
}

unfoldable pub init_producer_id :
    TransactionCoordinator → Option String → ℤ → TransactionCoordinator × Answer (ℤ × ℤ)
unfolding bump
init_producer_id c none transaction_timeout_ms = (
  record c { next_producer_id = add_i64 c.next_producer_id (pos 1) },
  ok (c.next_producer_id, pos 0),
)
init_producer_id c (some tx_id) transaction_timeout_ms = elim (get tx_id c.transactions) [
  | some meta ↦ (
    record c { transactions = insert tx_id (bump meta) c.transactions },
    ok (meta.producer_id, (bump meta).producer_epoch),
  )
  | none ↦
      let pid = c.next_producer_id in
      let meta : TransactionMetadata = record {
        transactional_id = tx_id;
        producer_id = pid;
        producer_epoch = pos 0;
        txn_timeout_ms =
            if leb_ℤ transaction_timeout_ms (pos 0) then pos 60000 else transaction_timeout_ms;
        state = empty;
        partitions = [];
      } in
      (
        record {
          transactions = insert tx_id meta c.transactions;
          next_producer_id = add_i64 pid (pos 1);
        },
        ok (pid, pos 0),
      )
]

-- The checks that open the three requests of a producer.
unfoldable pub refusal : TransactionMetadata → ℤ → ℤ → Option KafkaErrorCode
refusal meta producer_id producer_epoch =
    if not (meta.producer_id == producer_id)
    then some invalid_producer_id_mapping
    else if ltb_ℤ producer_epoch meta.producer_epoch
    then some producer_fenced
    else if ltb_ℤ meta.producer_epoch producer_epoch
    then some invalid_producer_epoch
    else none

abbrev pub has_partition : List TopicPartition → TopicPartition → Bool
has_partition [] tp = false
has_partition (x ∷ xs) tp = if x == tp then true else has_partition xs tp

-- `insert` of each partition into the set.
unfoldable pub add_all : List TopicPartition → List TopicPartition → List TopicPartition
add_all set [] = set
add_all set (tp ∷ tps) = add_all (if has_partition set tp then set else tp ∷ set) tps

unfoldable pub add_partitions_to_txn :
    TransactionCoordinator
    → String
    → ℤ
    → ℤ
    → List TopicPartition
    → TransactionCoordinator × Answer (Unit {0})
unfolding refusal add_all
add_partitions_to_txn c transactional_id producer_id producer_epoch partitions =
    elim (get transactional_id c.transactions) [
      | none ↦ (c, err invalid_producer_id_mapping)
      | some meta ↦ elim (refusal meta producer_id producer_epoch) [
        | some code ↦ (c, err code)
        | none ↦
            let meta' = record meta {
              state = ongoing;
              partitions = add_all meta.partitions partitions;
            } in
            (record c { transactions = insert transactional_id meta' c.transactions }, ok tt)
      ]
    ]

unfoldable pub add_offsets_to_txn :
    TransactionCoordinator → String → ℤ → ℤ → String → Answer (Unit {0})
unfolding refusal
add_offsets_to_txn c transactional_id producer_id producer_epoch group_id =
    elim (get transactional_id c.transactions) [
      | none ↦ err invalid_producer_id_mapping
      | some meta ↦ elim (refusal meta producer_id producer_epoch) [
        | some code ↦ err code
        | none ↦ ok tt
      ]
    ]

-- What `end_txn` uses of the partitions: the control batch goes to the end of the partition and
-- its offset comes back, or the append fails and may have changed the state.
pub record Cluster (C : Type 0) : Type 0 where
  pub append_control : C → TopicPartition → ℤ → ℤ → Bool → C × Option ℤ
  pub complete_txn : C → TopicPartition → ℤ → C
  pub record_aborted_txn : C → TopicPartition → ℤ → ℤ → C

module _ {C : Type 0} (cluster : Cluster C) where
  -- One partition: the marker, and the end of the transaction there; `none` where the append fails.
  unfoldable pub end_partition : C → ℤ → ℤ → Bool → TopicPartition → C × Option (Unit {0})
  end_partition s producer_id producer_epoch committed tp =
      let (s', offset) = cluster.append_control s tp producer_id producer_epoch committed in
      elim offset [
        | none ↦ (s', none)
        | some base_offset ↦ (
          if committed
              then cluster.complete_txn s' tp producer_id
              else cluster.record_aborted_txn s' tp producer_id base_offset,
          some tt,
        )
      ]

  -- The loop over the partitions, which a failed append ends.
  unfoldable pub end_partitions : C → ℤ → ℤ → Bool → List TopicPartition → C × Option (Unit {0})
  unfolding end_partition
  end_partitions s producer_id producer_epoch committed [] = (s, some tt)
  end_partitions s producer_id producer_epoch committed (tp ∷ tps) =
      let (s', done) = end_partition s producer_id producer_epoch committed tp in
      elim done [
        | none ↦ (s', none)
        | some _ ↦ end_partitions s' producer_id producer_epoch committed tps
      ]

  unfoldable pub end_txn :
      TransactionCoordinator
      → C
      → String
      → ℤ
      → ℤ
      → Bool
      → TransactionCoordinator × C × Answer (Unit {0})
  unfolding refusal end_partitions
  end_txn c s transactional_id producer_id producer_epoch committed =
      elim (get transactional_id c.transactions) [
        | none ↦ (c, s, err invalid_producer_id_mapping)
        | some meta ↦ elim (refusal meta producer_id producer_epoch) [
          | some code ↦ (c, s, err code)
          | none ↦
              let (s', done) =
                end_partitions s producer_id producer_epoch committed meta.partitions in
              let prepared = record meta {
                partitions = [];
                state = if committed then prepare_commit else prepare_abort;
              } in
              elim done [
                | none ↦ (
                  record c { transactions = insert transactional_id prepared c.transactions },
                  s',
                  err unknown_server,
                )
                | some _ ↦ (
                  record c {
                    transactions =
                        insert transactional_id (record prepared { state = empty }) c.transactions;
                  },
                  s',
                  ok tt,
                )
              ]
        ]
      ]
