-- ===== src/Protocol/Messages/CreateTopics.antt =====
-- crates/oxidemq-protocol/src/messages.rs: CreateTopics.
use oxide_mq.Base.{◌≡◌, refl, List, ◌++◌, map, Option, none, Bool, false, if◌then◌else◌}
use oxide_mq.Base.Int.{ℤ, pos, pos_part, leb_ℤ}
use oxide_mq.Base.Result.{ok}
use oxide_mq.Bytes.{Bytes, get_i16, get_i32, put_i16, put_i32}
use oxide_mq.Broker.Codes.{KafkaErrorCode}
use oxide_mq.Protocol.Parser.{read_string, write_string}
use oxide_mq.Protocol.Reader.{
  Reader, ◌>>=◌, returns, ◌▸◌, read_if, write_if, put_bool, get_error, put_error, get_string,
  put_string, put_vec, IsI16, IsI32, IsText, IsOptionalText, IsVec,
}
use oxide_mq.Protocol.Reader.Laws.{
  Reads, reads_then, reads_last, reads_if, reads_string, reads_text,
}
use oxide_mq.Protocol.Flexible.{guarded, pair, get_checked, get_lenient, get_ids, get_rest_bool}
use oxide_mq.Protocol.Flexible.Laws.{
  guarded_i32, guarded_error, reads_checked_list, reads_same_checked_list, guarded_i32_i16,
  guarded_i32s, reads_rest_bool, reads_same_lenient_list, reads_ids,
}
use oxide_mq.Base.{◌%◌, ◌^◌, length}
use oxide_mq.Base.Int.{of_word}
use oxide_mq.Protocol.Reader.{put_each}

pub record CreateTopicsReplicaAssignment : Type 0 where
  pub partition_index : ℤ
  pub broker_ids : List ℤ

unfoldable pub encode_assignment : CreateTopicsReplicaAssignment → Bytes
unfolding put_vec
encode_assignment m =
    (put_i32 m.partition_index ▸ put_i32 (of_word (2 ^ 32) (length m.broker_ids % 2 ^ 32)))
    ▸ put_each put_i32 m.broker_ids

unfoldable pub decode_assignment : Reader CreateTopicsReplicaAssignment
decode_assignment = do
  (partition_index, brokers_count) ← guarded 8 (pair get_i32 get_i32)
  broker_ids ← get_ids (pos_part brokers_count)
  returns (record { partition_index = partition_index; broker_ids = broker_ids })

pub record IsCreateTopicsReplicaAssignment (m : CreateTopicsReplicaAssignment) : Type 0 where
  pub partition_index_in : IsI32 m.partition_index
  pub broker_ids_in : IsVec IsI32 m.broker_ids

reads_assignment :
    (m : CreateTopicsReplicaAssignment)
    → IsCreateTopicsReplicaAssignment m
    → Reads decode_assignment (encode_assignment m) m
unfolding decode_assignment encode_assignment
reads_assignment m h =
    reads_then _
      (guarded_i32s m.partition_index (length m.broker_ids) h.partition_index_in h.broker_ids_in.0)
      (reads_last _ (reads_ids m.broker_ids h.broker_ids_in) refl)

pub record CreateTopicsConfig : Type 0 where
  pub name : Bytes
  pub value : Option Bytes

unfoldable pub encode_config : CreateTopicsConfig → Bytes
encode_config m = put_string m.name ▸ write_string m.value

unfoldable pub decode_config : Reader CreateTopicsConfig
decode_config = do
  name ← get_string
  value ← read_string
  returns (record { name = name; value = value })

pub record IsCreateTopicsConfig (m : CreateTopicsConfig) : Type 0 where
  pub name_in : IsText m.name
  pub value_in : IsOptionalText m.value

reads_config :
    (m : CreateTopicsConfig) → IsCreateTopicsConfig m → Reads decode_config (encode_config m) m
unfolding decode_config encode_config
reads_config m h =
    reads_then _ (reads_string _ h.name_in) (reads_last _ (reads_text _ h.value_in) refl)

pub record CreatableTopic : Type 0 where
  pub name : Bytes
  pub num_partitions : ℤ
  pub replication_factor : ℤ
  pub assignments : List CreateTopicsReplicaAssignment
  pub configs : List CreateTopicsConfig

unfoldable pub encode_topic : CreatableTopic → Bytes
encode_topic m =
    put_string m.name
    ▸ (put_i32 m.num_partitions ▸ put_i16 m.replication_factor)
    ▸ put_vec encode_assignment m.assignments
    ▸ put_vec encode_config m.configs

unfoldable pub decode_topic : Reader CreatableTopic
decode_topic = do
  name ← get_string
  (num_partitions, replication_factor) ← guarded 6 (pair get_i32 get_i16)
  assignments ← get_lenient decode_assignment
  configs ← get_lenient decode_config
  returns (record {
    name = name;
    num_partitions = num_partitions;
    replication_factor = replication_factor;
    assignments = assignments;
    configs = configs;
  })

pub record IsCreatableTopic (m : CreatableTopic) : Type 0 where
  pub name_in : IsText m.name
  pub num_partitions_in : IsI32 m.num_partitions
  pub replication_factor_in : IsI16 m.replication_factor
  pub assignments_in : IsVec IsCreateTopicsReplicaAssignment m.assignments
  pub configs_in : IsVec IsCreateTopicsConfig m.configs

reads_topic : (m : CreatableTopic) → IsCreatableTopic m → Reads decode_topic (encode_topic m) m
unfolding decode_topic encode_topic
reads_topic m h = reads_then _ (reads_string _ h.name_in) (
    reads_then _
      (guarded_i32_i16 m.num_partitions m.replication_factor h.num_partitions_in
        h.replication_factor_in)
      (reads_then _ (reads_same_lenient_list _ _ _ reads_assignment _ h.assignments_in)
        (reads_last _ (reads_same_lenient_list _ _ _ reads_config _ h.configs_in) refl)))

pub record CreateTopicsRequest : Type 0 where
  pub topics : List CreatableTopic
  pub timeout_ms : ℤ
  pub validate_only : Bool

unfoldable pub encode_request : ℤ → CreateTopicsRequest → Bytes
encode_request version m =
    put_vec encode_topic m.topics
    ▸ put_i32 m.timeout_ms
    ▸ write_if (leb_ℤ (pos 1) version) (put_bool m.validate_only)

unfoldable pub decode_request : ℤ → Reader CreateTopicsRequest
decode_request version = do
  topics ← get_checked decode_topic
  timeout_ms ← guarded 4 get_i32
  validate_only ← read_if (leb_ℤ (pos 1) version) (get_rest_bool false) false
  returns (record { topics = topics; timeout_ms = timeout_ms; validate_only = validate_only })

pub record IsCreateTopicsRequest (m : CreateTopicsRequest) : Type 0 where
  pub topics_in : IsVec IsCreatableTopic m.topics
  pub timeout_ms_in : IsI32 m.timeout_ms

-- What a version carries of it; the decoder's defaults stand for the rest.
unfoldable pub request_at : ℤ → CreateTopicsRequest → CreateTopicsRequest
request_at version m = record {
  topics = m.topics;
  timeout_ms = m.timeout_ms;
  validate_only = if leb_ℤ (pos 1) version then m.validate_only else false;
}

reads_request :
    (version : ℤ) (m : CreateTopicsRequest)
    → IsCreateTopicsRequest m
    → Reads (decode_request version) (encode_request version m) (request_at version m)
unfolding decode_request encode_request request_at
reads_request version m h = reads_then _ (reads_same_checked_list _ _ _ reads_topic _ h.topics_in) (
    reads_then _ (guarded_i32 _ h.timeout_ms_in)
      (reads_last _ (reads_if _ _ (reads_rest_bool false _)) refl))

pub record CreatableTopicResult : Type 0 where
  pub name : Bytes
  pub error_code : KafkaErrorCode
  pub error_message : Option Bytes

unfoldable pub encode_result : ℤ → CreatableTopicResult → Bytes
encode_result version m =
    put_string m.name
    ▸ put_error m.error_code
    ▸ write_if (leb_ℤ (pos 1) version) (write_string m.error_message)

unfoldable pub decode_result : ℤ → Reader CreatableTopicResult
decode_result version = do
  name ← get_string
  error_code ← guarded 2 get_error
  error_message ← read_if (leb_ℤ (pos 1) version) read_string none
  returns (record { name = name; error_code = error_code; error_message = error_message })

pub record IsCreatableTopicResult (m : CreatableTopicResult) : Type 0 where
  pub name_in : IsText m.name
  pub error_message_in : IsOptionalText m.error_message

-- What a version carries of it; the decoder's defaults stand for the rest.
unfoldable pub result_at : ℤ → CreatableTopicResult → CreatableTopicResult
result_at version m = record {
  name = m.name;
  error_code = m.error_code;
  error_message = if leb_ℤ (pos 1) version then m.error_message else none;
}

reads_result :
    (version : ℤ) (m : CreatableTopicResult)
    → IsCreatableTopicResult m
    → Reads (decode_result version) (encode_result version m) (result_at version m)
unfolding decode_result encode_result result_at
reads_result version m h = reads_then _ (reads_string _ h.name_in) (
    reads_then _ (guarded_error _)
      (reads_last _ (reads_if _ _ (reads_text _ h.error_message_in)) refl))

pub record CreateTopicsResponse : Type 0 where
  pub throttle_time_ms : ℤ
  pub topics : List CreatableTopicResult

unfoldable pub encode_response : ℤ → CreateTopicsResponse → Bytes
encode_response version m =
    write_if (leb_ℤ (pos 2) version) (put_i32 m.throttle_time_ms)
    ▸ put_vec (encode_result version) m.topics

unfoldable pub decode_response : ℤ → Reader CreateTopicsResponse
decode_response version = do
  throttle_time_ms ← read_if (leb_ℤ (pos 2) version) (guarded 4 get_i32) (pos 0)
  topics ← get_checked (decode_result version)
  returns (record { throttle_time_ms = throttle_time_ms; topics = topics })

pub record IsCreateTopicsResponse (m : CreateTopicsResponse) : Type 0 where
  pub throttle_time_ms_in : IsI32 m.throttle_time_ms
  pub topics_in : IsVec IsCreatableTopicResult m.topics

-- What a version carries of it; the decoder's defaults stand for the rest.
unfoldable pub response_at : ℤ → CreateTopicsResponse → CreateTopicsResponse
response_at version m = record {
  throttle_time_ms = if leb_ℤ (pos 2) version then m.throttle_time_ms else pos 0;
  topics = map (result_at version) m.topics;
}

reads_response :
    (version : ℤ) (m : CreateTopicsResponse)
    → IsCreateTopicsResponse m
    → Reads (decode_response version) (encode_response version m) (response_at version m)
unfolding decode_response encode_response response_at
reads_response version m h =
    reads_then _ (reads_if _ _ (guarded_i32 _ h.throttle_time_ms_in))
      (reads_last _ (reads_checked_list _ _ _ _ (reads_result version) _ h.topics_in) refl)

-- A CreateTopics request and its answer that fit the wire are read back from their bytes in any version,
-- whatever follows, which is left, with what that version carries.
pub decode-encode_create_topics :
    (version : ℤ) (req : CreateTopicsRequest) (resp : CreateTopicsResponse) (rest : Bytes)
    → IsCreateTopicsRequest req
    → IsCreateTopicsResponse resp
    → (decode_request version (encode_request version req ++ rest)
        ≡ ok (request_at version req, rest))
      × (decode_response version (encode_response version resp ++ rest)
          ≡ ok (response_at version resp, rest))
decode-encode_create_topics version req resp rest h_req h_resp =
    ((reads_request version req h_req).taken rest, (reads_response version resp h_resp).taken rest)
