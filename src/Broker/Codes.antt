-- ===== src/Broker/Codes.antt =====
-- The codes that the broker's handlers answer with, and the name of a partition.
use oxide_mq.Base.{◌≡◌, ◌↔◌, Bool, true, ◌&&◌, String, arith}
use oxide_mq.Base.Eq.{Eq, ◌==◌, string_eq, int_eq}
use oxide_mq.Base.Int.{ℤ, pos, negsuc}

-- KafkaErrorCode (crates/oxidemq-protocol/src/error_code.rs); `no_error` is its `None`.
pub data KafkaErrorCode : Type 0 where
  no_error offset_out_of_range corrupt_message : KafkaErrorCode
  unknown_topic_or_partition invalid_fetch_size leader_not_available : KafkaErrorCode
  not_leader_or_follower request_timed_out broker_not_available : KafkaErrorCode
  replica_not_available message_too_large stale_controller_epoch : KafkaErrorCode
  offset_metadata_too_large network_exception coordinator_load_in_progress : KafkaErrorCode
  coordinator_not_available not_coordinator invalid_topic_exception : KafkaErrorCode
  record_list_too_large not_enough_replicas not_enough_replicas_after_append : KafkaErrorCode
  invalid_required_acks illegal_generation inconsistent_group_protocol : KafkaErrorCode
  invalid_group_id unknown_member_id invalid_session_timeout : KafkaErrorCode
  rebalance_in_progress invalid_commit_offset_size topic_authorization_failed : KafkaErrorCode
  group_authorization_failed cluster_authorization_failed invalid_timestamp : KafkaErrorCode
  unsupported_sasl_mechanism illegal_sasl_state unsupported_version : KafkaErrorCode
  topic_already_exists invalid_partitions invalid_replication_factor : KafkaErrorCode
  invalid_config invalid_request invalid_producer_epoch : KafkaErrorCode
  invalid_txn_state invalid_producer_id_mapping concurrent_transactions : KafkaErrorCode
  producer_fenced transactional_id_authorization_failed sasl_authentication_failed : KafkaErrorCode
  non_empty_group group_id_not_found invalid_record : KafkaErrorCode
  unknown_server : KafkaErrorCode

-- `as i16`
abbrev pub as_i16 : KafkaErrorCode → ℤ
as_i16 no_error = pos 0
as_i16 offset_out_of_range = pos 1
as_i16 corrupt_message = pos 2
as_i16 unknown_topic_or_partition = pos 3
as_i16 invalid_fetch_size = pos 4
as_i16 leader_not_available = pos 5
as_i16 not_leader_or_follower = pos 6
as_i16 request_timed_out = pos 7
as_i16 broker_not_available = pos 8
as_i16 replica_not_available = pos 9
as_i16 message_too_large = pos 10
as_i16 stale_controller_epoch = pos 11
as_i16 offset_metadata_too_large = pos 12
as_i16 network_exception = pos 13
as_i16 coordinator_load_in_progress = pos 14
as_i16 coordinator_not_available = pos 15
as_i16 not_coordinator = pos 16
as_i16 invalid_topic_exception = pos 17
as_i16 record_list_too_large = pos 18
as_i16 not_enough_replicas = pos 19
as_i16 not_enough_replicas_after_append = pos 20
as_i16 invalid_required_acks = pos 21
as_i16 illegal_generation = pos 22
as_i16 inconsistent_group_protocol = pos 23
as_i16 invalid_group_id = pos 24
as_i16 unknown_member_id = pos 25
as_i16 invalid_session_timeout = pos 26
as_i16 rebalance_in_progress = pos 27
as_i16 invalid_commit_offset_size = pos 28
as_i16 topic_authorization_failed = pos 29
as_i16 group_authorization_failed = pos 30
as_i16 cluster_authorization_failed = pos 31
as_i16 invalid_timestamp = pos 32
as_i16 unsupported_sasl_mechanism = pos 33
as_i16 illegal_sasl_state = pos 34
as_i16 unsupported_version = pos 35
as_i16 topic_already_exists = pos 36
as_i16 invalid_partitions = pos 37
as_i16 invalid_replication_factor = pos 38
as_i16 invalid_config = pos 40
as_i16 invalid_request = pos 42
as_i16 invalid_producer_epoch = pos 47
as_i16 invalid_txn_state = pos 48
as_i16 invalid_producer_id_mapping = pos 49
as_i16 concurrent_transactions = pos 51
as_i16 producer_fenced = pos 52
as_i16 transactional_id_authorization_failed = pos 53
as_i16 sasl_authentication_failed = pos 58
as_i16 non_empty_group = pos 68
as_i16 group_id_not_found = pos 69
as_i16 invalid_record = pos 87
as_i16 unknown_server = negsuc 0

-- TopicPartition (crates/oxidemq-core/src/types.rs).
pub record TopicPartition : Type 0 where
  pub topic : String
  pub partition : ℤ

abbrev pub tp_beq : TopicPartition → TopicPartition → Bool
tp_beq a b = (a.topic == b.topic) && (a.partition == b.partition)

pub tp_beq_iff : (a b : TopicPartition) → (tp_beq a b ≡ true) ↔ (a ≡ b)
tp_beq_iff a b =
    ground (arith, string_eq.beq_iff a.topic b.topic, int_eq.beq_iff a.partition b.partition)

instance abbrev pub tp_eq : Eq TopicPartition
tp_eq = record { beq = tp_beq; beq_iff = tp_beq_iff }
