-- ===== src/Protocol/ErrorCode.antt =====
-- crates/oxidemq-protocol/src/error_code.rs: the codes read from the wire.
use oxide_mq.Base.{ℕ, ◌≡◌, refl, Option, none, some, List, [], ◌∷◌, ◌^◌, arith}
use oxide_mq.Base.Int.{ℤ, pos, negsuc, InWord}
use oxide_mq.Base.Eq.{nat_eq}
use oxide_mq.Base.Assoc.{get}
use oxide_mq.Broker.Codes.{
  KafkaErrorCode, as_i16, unknown_server, no_error, offset_out_of_range, corrupt_message,
  unknown_topic_or_partition, invalid_fetch_size, leader_not_available, not_leader_or_follower,
  request_timed_out, broker_not_available, replica_not_available, message_too_large,
  stale_controller_epoch, offset_metadata_too_large, network_exception,
  coordinator_load_in_progress, coordinator_not_available, not_coordinator, invalid_topic_exception,
  record_list_too_large, not_enough_replicas, not_enough_replicas_after_append,
  invalid_required_acks, illegal_generation, inconsistent_group_protocol, invalid_group_id,
  unknown_member_id, invalid_session_timeout, rebalance_in_progress, invalid_commit_offset_size,
  topic_authorization_failed, group_authorization_failed, cluster_authorization_failed,
  invalid_timestamp, unsupported_sasl_mechanism, illegal_sasl_state, unsupported_version,
  topic_already_exists, invalid_partitions, invalid_replication_factor, invalid_config,
  invalid_request, invalid_producer_epoch, invalid_txn_state, invalid_producer_id_mapping,
  concurrent_transactions, producer_fenced, transactional_id_authorization_failed,
  sasl_authentication_failed, non_empty_group, group_id_not_found, invalid_record,
}

-- The numbers that have a code of their own.
abbrev pub code_table : List (ℕ × KafkaErrorCode)
code_table =
    (0, no_error)
    ∷ (1, offset_out_of_range)
    ∷ (2, corrupt_message)
    ∷ (3, unknown_topic_or_partition)
    ∷ (4, invalid_fetch_size)
    ∷ (5, leader_not_available)
    ∷ (6, not_leader_or_follower)
    ∷ (7, request_timed_out)
    ∷ (8, broker_not_available)
    ∷ (9, replica_not_available)
    ∷ (10, message_too_large)
    ∷ (11, stale_controller_epoch)
    ∷ (12, offset_metadata_too_large)
    ∷ (13, network_exception)
    ∷ (14, coordinator_load_in_progress)
    ∷ (15, coordinator_not_available)
    ∷ (16, not_coordinator)
    ∷ (17, invalid_topic_exception)
    ∷ (18, record_list_too_large)
    ∷ (19, not_enough_replicas)
    ∷ (20, not_enough_replicas_after_append)
    ∷ (21, invalid_required_acks)
    ∷ (22, illegal_generation)
    ∷ (23, inconsistent_group_protocol)
    ∷ (24, invalid_group_id)
    ∷ (25, unknown_member_id)
    ∷ (26, invalid_session_timeout)
    ∷ (27, rebalance_in_progress)
    ∷ (28, invalid_commit_offset_size)
    ∷ (29, topic_authorization_failed)
    ∷ (30, group_authorization_failed)
    ∷ (31, cluster_authorization_failed)
    ∷ (32, invalid_timestamp)
    ∷ (33, unsupported_sasl_mechanism)
    ∷ (34, illegal_sasl_state)
    ∷ (35, unsupported_version)
    ∷ (36, topic_already_exists)
    ∷ (37, invalid_partitions)
    ∷ (38, invalid_replication_factor)
    ∷ (40, invalid_config)
    ∷ (42, invalid_request)
    ∷ (47, invalid_producer_epoch)
    ∷ (48, invalid_txn_state)
    ∷ (49, invalid_producer_id_mapping)
    ∷ (51, concurrent_transactions)
    ∷ (52, producer_fenced)
    ∷ (53, transactional_id_authorization_failed)
    ∷ (58, sasl_authentication_failed)
    ∷ (68, non_empty_group)
    ∷ (69, group_id_not_found)
    ∷ (87, invalid_record)
    ∷ []

abbrev pub or_unknown : Option KafkaErrorCode → KafkaErrorCode
or_unknown (some code) = code
or_unknown none = unknown_server

unfoldable pub from_i16 : ℤ → KafkaErrorCode
from_i16 (pos n) = or_unknown (get n code_table)
from_i16 (negsuc n) = unknown_server

pub codes :
    (code : KafkaErrorCode) → InWord (2 ^ 16) (as_i16 code) × (from_i16 (as_i16 code) ≡ code)
unfolding from_i16 get
codes no_error = (omega arith, refl)
codes offset_out_of_range = (omega arith, refl)
codes corrupt_message = (omega arith, refl)
codes unknown_topic_or_partition = (omega arith, refl)
codes invalid_fetch_size = (omega arith, refl)
codes leader_not_available = (omega arith, refl)
codes not_leader_or_follower = (omega arith, refl)
codes request_timed_out = (omega arith, refl)
codes broker_not_available = (omega arith, refl)
codes replica_not_available = (omega arith, refl)
codes message_too_large = (omega arith, refl)
codes stale_controller_epoch = (omega arith, refl)
codes offset_metadata_too_large = (omega arith, refl)
codes network_exception = (omega arith, refl)
codes coordinator_load_in_progress = (omega arith, refl)
codes coordinator_not_available = (omega arith, refl)
codes not_coordinator = (omega arith, refl)
codes invalid_topic_exception = (omega arith, refl)
codes record_list_too_large = (omega arith, refl)
codes not_enough_replicas = (omega arith, refl)
codes not_enough_replicas_after_append = (omega arith, refl)
codes invalid_required_acks = (omega arith, refl)
codes illegal_generation = (omega arith, refl)
codes inconsistent_group_protocol = (omega arith, refl)
codes invalid_group_id = (omega arith, refl)
codes unknown_member_id = (omega arith, refl)
codes invalid_session_timeout = (omega arith, refl)
codes rebalance_in_progress = (omega arith, refl)
codes invalid_commit_offset_size = (omega arith, refl)
codes topic_authorization_failed = (omega arith, refl)
codes group_authorization_failed = (omega arith, refl)
codes cluster_authorization_failed = (omega arith, refl)
codes invalid_timestamp = (omega arith, refl)
codes unsupported_sasl_mechanism = (omega arith, refl)
codes illegal_sasl_state = (omega arith, refl)
codes unsupported_version = (omega arith, refl)
codes topic_already_exists = (omega arith, refl)
codes invalid_partitions = (omega arith, refl)
codes invalid_replication_factor = (omega arith, refl)
codes invalid_config = (omega arith, refl)
codes invalid_request = (omega arith, refl)
codes invalid_producer_epoch = (omega arith, refl)
codes invalid_txn_state = (omega arith, refl)
codes invalid_producer_id_mapping = (omega arith, refl)
codes concurrent_transactions = (omega arith, refl)
codes producer_fenced = (omega arith, refl)
codes transactional_id_authorization_failed = (omega arith, refl)
codes sasl_authentication_failed = (omega arith, refl)
codes non_empty_group = (omega arith, refl)
codes group_id_not_found = (omega arith, refl)
codes invalid_record = (omega arith, refl)
codes unknown_server = (omega arith, refl)
