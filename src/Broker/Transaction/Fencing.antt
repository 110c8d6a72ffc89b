-- ===== src/Broker/Transaction/Fencing.antt =====
-- Which producers the coordinator of transactions still listens to, and how often a transaction
-- ends.
use oxide_mq.Base.{
  ◌-◌, ◌^◌, ◌≡◌, refl, ap, ◌∙◌, List, [], none, some, Bool, if◌then◌else◌, String, arith,
  Option-cases, inl, inr,
}
use oxide_mq.Base.Eq.{string_eq, int_eq, ==-refl}
use oxide_mq.Base.Int.{ℤ, pos, ◌≤ℤ◌, ◌<ℤ◌}
use oxide_mq.Base.Assoc.{get, insert, get-insert}
use oxide_mq.Broker.Codes.{KafkaErrorCode, producer_fenced, TopicPartition}
use oxide_mq.Broker.Transaction.{
  TransactionMetadata, TransactionCoordinator, ok, err, add_i16, bump, init_producer_id, refusal,
  add_partitions_to_txn, add_offsets_to_txn, Cluster, end_partitions, end_txn, prepare_commit,
  prepare_abort, empty,
}

-- The three requests of a producer that the coordinator refuses change nothing.
module _ (c : TransactionCoordinator) (tx_id : String) (meta : TransactionMetadata) (pid epoch : ℤ)
    (code : KafkaErrorCode) (known : get tx_id c.transactions ≡ some meta)
    (refused : refusal meta pid epoch ≡ some code) where
  add_partitions_refused :
      (tps : List TopicPartition) → add_partitions_to_txn c tx_id pid epoch tps ≡ (c, err code)
  unfolding add_partitions_to_txn
  add_partitions_refused tps =
      rw (known, add_partitions_to_txn) (rw (refused, add_partitions_to_txn) refl)

  add_offsets_refused :
      (group_id : String) → add_offsets_to_txn c tx_id pid epoch group_id ≡ err code
  unfolding add_offsets_to_txn
  add_offsets_refused group_id =
      rw (known, add_offsets_to_txn) (rw (refused, add_offsets_to_txn) refl)

  end_txn_refused :
      {C : Type 0} (cluster : Cluster C) (s : C) (committed : Bool)
      → end_txn cluster c s tx_id pid epoch committed ≡ (c, s, err code)
  unfolding end_txn
  end_txn_refused cluster s committed = rw (known, end_txn) (rw (refused, end_txn) refl)

add_i16_one : (n : ℤ) → pos 0 ≤ℤ n → n <ℤ pos (2 ^ 15 - 1) → n <ℤ add_i16 n (pos 1)
add_i16_one n h0 h1 = ground arith

refusal_fenced :
    (meta : TransactionMetadata) (epoch : ℤ)
    → epoch <ℤ meta.producer_epoch
    → refusal meta meta.producer_id epoch ≡ some producer_fenced
unfolding refusal
refusal_fenced meta epoch h = rw (==-refl meta.producer_id) (ground (arith, h))

init_known :
    (c : TransactionCoordinator) (tx_id : String) (meta : TransactionMetadata) (timeout : ℤ)
    → get tx_id c.transactions ≡ some meta
    → (init_producer_id c (some tx_id) timeout).0
      ≡ record c { transactions = insert tx_id (bump meta) c.transactions }
unfolding init_producer_id
init_known c tx_id meta timeout known = rw (known, init_producer_id) refl

-- Once a transactional identifier has been initialised again, its producer's requests with the
-- epoch before or an earlier one are refused as fenced, and change neither the coordinator nor the
-- partitions. The epoch before is not the last that 16 bits hold.
pub fencing_lem :
    {C : Type 0} (cluster : Cluster C) (s : C) (c : TransactionCoordinator) (tx_id : String)
    (meta : TransactionMetadata) (epoch timeout : ℤ) (tps : List TopicPartition) (group_id : String)
    (committed : Bool)
    → get tx_id c.transactions ≡ some meta
    → pos 0 ≤ℤ meta.producer_epoch
    → meta.producer_epoch <ℤ pos (2 ^ 15 - 1)
    → epoch ≤ℤ meta.producer_epoch
    → let c' = (init_producer_id c (some tx_id) timeout).0 in
      (add_partitions_to_txn c' tx_id meta.producer_id epoch tps ≡ (c', err producer_fenced))
      × (add_offsets_to_txn c' tx_id meta.producer_id epoch group_id ≡ err producer_fenced)
      × (end_txn cluster c' s tx_id meta.producer_id epoch committed ≡ (c', s, err producer_fenced))
fencing_lem cluster s c tx_id meta epoch timeout tps group_id committed known room room' old = (
  add_partitions_refused c' tx_id (bump meta) meta.producer_id epoch producer_fenced bumped refused
      tps,
  add_offsets_refused c' tx_id (bump meta) meta.producer_id epoch producer_fenced bumped refused
      group_id,
  end_txn_refused c' tx_id (bump meta) meta.producer_id epoch producer_fenced bumped refused cluster
      s committed,
)
  where
    c' : TransactionCoordinator
    c' = (init_producer_id c (some tx_id) timeout).0

    is_c' : c' ≡ record c { transactions = insert tx_id (bump meta) c.transactions }
    is_c' = init_known c tx_id meta timeout known

    bumped : get tx_id c'.transactions ≡ some (bump meta)
    bumped =
        ap (λ (d : TransactionCoordinator). get tx_id d.transactions) is_c'
        ∙ get-insert tx_id tx_id (bump meta) c.transactions
        ∙ rw (==-refl tx_id) refl

    above : epoch <ℤ add_i16 meta.producer_epoch (pos 1)
    above = omega (arith, old, add_i16_one meta.producer_epoch room room')

    refused : refusal (bump meta) meta.producer_id epoch ≡ some producer_fenced
    refused =
        unfold bump in
        refusal_fenced
          (record meta {
            producer_epoch = add_i16 meta.producer_epoch (pos 1);
            partitions = [];
            state = empty;
          })
          epoch above

end_txn_emptied :
    {C : Type 0} (cluster : Cluster C) (c : TransactionCoordinator) (s : C) (tx_id : String)
    (meta : TransactionMetadata) (pid epoch : ℤ) (committed : Bool)
    → get tx_id c.transactions ≡ some meta
    → refusal meta pid epoch ≡ none
    → (meta' : TransactionMetadata) × (get tx_id
          (end_txn cluster c s tx_id pid epoch committed).0.transactions
        ≡ some meta')
      × (meta'.partitions ≡ [])
      × (refusal meta' pid epoch ≡ none)
unfolding end_txn refusal
end_txn_emptied cluster c s tx_id meta pid epoch committed known heard =
    elim (Option-cases (end_partitions cluster s pid epoch committed meta.partitions).1) [
      | inl failed ↦
          rw (known, end_txn)
            (rw (heard, end_txn)
              (rw (failed, end_txn)
                (
                  prepared,
                  get-insert tx_id tx_id prepared c.transactions ∙ rw (==-refl tx_id) refl,
                  refl,
                  heard,
                )))
      | inr (_, done) ↦
          rw (known, end_txn)
            (rw (heard, end_txn)
              (rw (done, end_txn)
                (
                  ended,
                  get-insert tx_id tx_id ended c.transactions ∙ rw (==-refl tx_id) refl,
                  refl,
                  heard,
                )))
    ]
  where
    prepared : TransactionMetadata
    prepared = record meta {
      partitions = [];
      state = if committed then prepare_commit else prepare_abort;
    }

    ended : TransactionMetadata
    ended = record meta { partitions = []; state = empty }

end_txn_nothing :
    {C : Type 0} (cluster : Cluster C) (c : TransactionCoordinator) (s : C) (tx_id : String)
    (meta : TransactionMetadata) (pid epoch : ℤ) (committed : Bool)
    → get tx_id c.transactions ≡ some meta
    → refusal meta pid epoch ≡ none
    → meta.partitions ≡ []
    → ((end_txn cluster c s tx_id pid epoch committed).1 ≡ s)
      × ((end_txn cluster c s tx_id pid epoch committed).2 ≡ ok tt)
unfolding end_txn
end_txn_nothing cluster c s tx_id meta pid epoch committed known heard none_left =
    rw (known, end_txn)
      (rw (heard, end_txn) (rw (empty_run, end_txn) (ap (λ p. p.0) empty_run, refl)))
  where
    nothing : end_partitions cluster s pid epoch committed [] ≡ (s, some tt)
    nothing = unfold end_partitions in refl

    empty_run : end_partitions cluster s pid epoch committed meta.partitions ≡ (s, some tt)
    empty_run = ap (end_partitions cluster s pid epoch committed) none_left ∙ nothing

-- Of two requests in a row to end a transaction, made by the producer that the coordinator listens
-- to, the second writes to no partition and is accepted, whatever the answer to the first: also
-- when a failed append has left partitions of the transaction without their marker.
pub end_txn-end_txn :
    {C : Type 0} (cluster : Cluster C) (c : TransactionCoordinator) (s s' : C) (tx_id : String)
    (meta : TransactionMetadata) (pid epoch : ℤ) (committed committed' : Bool)
    → get tx_id c.transactions ≡ some meta
    → refusal meta pid epoch ≡ none
    → let c' = (end_txn cluster c s tx_id pid epoch committed).0 in
      ((end_txn cluster c' s' tx_id pid epoch committed').1 ≡ s')
      × ((end_txn cluster c' s' tx_id pid epoch committed').2 ≡ ok tt)
end_txn-end_txn cluster c s s' tx_id meta pid epoch committed committed' known heard =
    let (meta', known', none_left, heard') =
      end_txn_emptied cluster c s tx_id meta pid epoch committed known heard in
    end_txn_nothing cluster (end_txn cluster c s tx_id pid epoch committed).0 s' tx_id meta' pid
      epoch committed' known' heard' none_left
