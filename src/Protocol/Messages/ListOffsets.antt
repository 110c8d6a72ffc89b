-- ===== src/Protocol/Messages/ListOffsets.antt =====
-- crates/oxidemq-protocol/src/messages.rs: ListOffsets.
use oxide_mq.Base.{◌≡◌, refl, List, ◌++◌, map, if◌then◌else◌}
use oxide_mq.Base.Int.{ℤ, pos, negsuc, leb_ℤ, IsI64}
use oxide_mq.Base.Result.{ok}
use oxide_mq.Bytes.{Bytes, get_i32, get_i64, put_i32, put_i64}
use oxide_mq.Broker.Codes.{KafkaErrorCode}
use oxide_mq.Protocol.Reader.{
  Reader, ◌>>=◌, returns, ◌▸◌, read_if, write_if, get_i8, put_i8, get_error, put_error, get_string,
  put_string, get_vec, put_vec, IsI8, IsI32, IsText, IsVec,
}
use oxide_mq.Protocol.Reader.Laws.{
  Reads, reads_then, reads_last, reads_if, reads_i8, reads_i32, reads_i64, reads_error,
  reads_string, reads_list,
}

pub record ListOffsetsPartition : Type 0 where
  pub partition : ℤ
  pub current_leader_epoch : ℤ
  pub timestamp : ℤ

unfoldable pub encode_partition : ℤ → ListOffsetsPartition → Bytes
encode_partition version m =
    put_i32 m.partition
    ▸ write_if (leb_ℤ (pos 4) version) (put_i32 m.current_leader_epoch)
    ▸ put_i64 m.timestamp

unfoldable pub decode_partition : ℤ → Reader ListOffsetsPartition
decode_partition version = do
  partition ← get_i32
  current_leader_epoch ← read_if (leb_ℤ (pos 4) version) get_i32 (negsuc 0)
  timestamp ← get_i64
  returns (record {
    partition = partition;
    current_leader_epoch = current_leader_epoch;
    timestamp = timestamp;
  })

pub record IsListOffsetsPartition (m : ListOffsetsPartition) : Type 0 where
  pub partition_in : IsI32 m.partition
  pub current_leader_epoch_in : IsI32 m.current_leader_epoch
  pub timestamp_in : IsI64 m.timestamp

-- What a version carries of it; the decoder's defaults stand for the rest.
unfoldable pub partition_at : ℤ → ListOffsetsPartition → ListOffsetsPartition
partition_at version m = record {
  partition = m.partition;
  current_leader_epoch = if leb_ℤ (pos 4) version then m.current_leader_epoch else negsuc 0;
  timestamp = m.timestamp;
}

reads_partition :
    (version : ℤ) (m : ListOffsetsPartition)
    → IsListOffsetsPartition m
    → Reads (decode_partition version) (encode_partition version m) (partition_at version m)
unfolding decode_partition encode_partition partition_at
reads_partition version m h = reads_then _ (reads_i32 _ h.partition_in) (
    reads_then _ (reads_if _ _ (reads_i32 _ h.current_leader_epoch_in))
      (reads_last _ (reads_i64 _ h.timestamp_in) refl))

pub record ListOffsetsTopic : Type 0 where
  pub topic : Bytes
  pub partitions : List ListOffsetsPartition

unfoldable pub encode_topic : ℤ → ListOffsetsTopic → Bytes
encode_topic version m = put_string m.topic ▸ put_vec (encode_partition version) m.partitions

unfoldable pub decode_topic : ℤ → Reader ListOffsetsTopic
decode_topic version = do
  topic ← get_string
  partitions ← get_vec (decode_partition version)
  returns (record { topic = topic; partitions = partitions })

pub record IsListOffsetsTopic (m : ListOffsetsTopic) : Type 0 where
  pub topic_in : IsText m.topic
  pub partitions_in : IsVec IsListOffsetsPartition m.partitions

-- What a version carries of it; the decoder's defaults stand for the rest.
unfoldable pub topic_at : ℤ → ListOffsetsTopic → ListOffsetsTopic
topic_at version m = record {
  topic = m.topic;
  partitions = map (partition_at version) m.partitions;
}

reads_topic :
    (version : ℤ) (m : ListOffsetsTopic)
    → IsListOffsetsTopic m
    → Reads (decode_topic version) (encode_topic version m) (topic_at version m)
unfolding decode_topic encode_topic topic_at
reads_topic version m h =
    reads_then _ (reads_string _ h.topic_in)
      (reads_last _ (reads_list _ _ _ _ (reads_partition version) _ h.partitions_in) refl)

pub record ListOffsetsRequest : Type 0 where
  pub replica_id : ℤ
  pub isolation_level : ℤ
  pub topics : List ListOffsetsTopic

unfoldable pub encode_request : ℤ → ListOffsetsRequest → Bytes
encode_request version m =
    put_i32 m.replica_id
    ▸ write_if (leb_ℤ (pos 2) version) (put_i8 m.isolation_level)
    ▸ put_vec (encode_topic version) m.topics

unfoldable pub decode_request : ℤ → Reader ListOffsetsRequest
decode_request version = do
  replica_id ← get_i32
  isolation_level ← read_if (leb_ℤ (pos 2) version) get_i8 (pos 0)
  topics ← get_vec (decode_topic version)
  returns (record { replica_id = replica_id; isolation_level = isolation_level; topics = topics })

pub record IsListOffsetsRequest (m : ListOffsetsRequest) : Type 0 where
  pub replica_id_in : IsI32 m.replica_id
  pub isolation_level_in : IsI8 m.isolation_level
  pub topics_in : IsVec IsListOffsetsTopic m.topics

-- What a version carries of it; the decoder's defaults stand for the rest.
unfoldable pub request_at : ℤ → ListOffsetsRequest → ListOffsetsRequest
request_at version m = record {
  replica_id = m.replica_id;
  isolation_level = if leb_ℤ (pos 2) version then m.isolation_level else pos 0;
  topics = map (topic_at version) m.topics;
}

reads_request :
    (version : ℤ) (m : ListOffsetsRequest)
    → IsListOffsetsRequest m
    → Reads (decode_request version) (encode_request version m) (request_at version m)
unfolding decode_request encode_request request_at
reads_request version m h = reads_then _ (reads_i32 _ h.replica_id_in) (
    reads_then _ (reads_if _ _ (reads_i8 _ h.isolation_level_in))
      (reads_last _ (reads_list _ _ _ _ (reads_topic version) _ h.topics_in) refl))

pub record ListOffsetsPartitionResponse : Type 0 where
  pub partition : ℤ
  pub error_code : KafkaErrorCode
  pub timestamp : ℤ
  pub offset : ℤ
  pub leader_epoch : ℤ

unfoldable pub encode_partition_response : ℤ → ListOffsetsPartitionResponse → Bytes
encode_partition_response version m =
    put_i32 m.partition
    ▸ put_error m.error_code
    ▸ put_i64 m.timestamp
    ▸ put_i64 m.offset
    ▸ write_if (leb_ℤ (pos 4) version) (put_i32 m.leader_epoch)

unfoldable pub decode_partition_response : ℤ → Reader ListOffsetsPartitionResponse
decode_partition_response version = do
  partition ← get_i32
  error_code ← get_error
  timestamp ← get_i64
  offset ← get_i64
  leader_epoch ← read_if (leb_ℤ (pos 4) version) get_i32 (negsuc 0)
  returns (record {
    partition = partition;
    error_code = error_code;
    timestamp = timestamp;
    offset = offset;
    leader_epoch = leader_epoch;
  })

pub record IsListOffsetsPartitionResponse (m : ListOffsetsPartitionResponse) : Type 0 where
  pub partition_in : IsI32 m.partition
  pub timestamp_in : IsI64 m.timestamp
  pub offset_in : IsI64 m.offset
  pub leader_epoch_in : IsI32 m.leader_epoch

-- What a version carries of it; the decoder's defaults stand for the rest.
unfoldable pub partition_response_at :
    ℤ → ListOffsetsPartitionResponse → ListOffsetsPartitionResponse
partition_response_at version m = record {
  partition = m.partition;
  error_code = m.error_code;
  timestamp = m.timestamp;
  offset = m.offset;
  leader_epoch = if leb_ℤ (pos 4) version then m.leader_epoch else negsuc 0;
}

reads_partition_response :
    (version : ℤ) (m : ListOffsetsPartitionResponse)
    → IsListOffsetsPartitionResponse m
    → Reads
        (decode_partition_response version)
        (encode_partition_response version m)
        (partition_response_at version m)
unfolding decode_partition_response encode_partition_response partition_response_at
reads_partition_response version m h = reads_then _ (reads_i32 _ h.partition_in) (
    reads_then _ (reads_error _) (
      reads_then _ (reads_i64 _ h.timestamp_in) (
        reads_then _ (reads_i64 _ h.offset_in)
          (reads_last _ (reads_if _ _ (reads_i32 _ h.leader_epoch_in)) refl))))

pub record ListOffsetsTopicResponse : Type 0 where
  pub topic : Bytes
  pub partitions : List ListOffsetsPartitionResponse

unfoldable pub encode_topic_response : ℤ → ListOffsetsTopicResponse → Bytes
encode_topic_response version m =
    put_string m.topic ▸ put_vec (encode_partition_response version) m.partitions

unfoldable pub decode_topic_response : ℤ → Reader ListOffsetsTopicResponse
decode_topic_response version = do
  topic ← get_string
  partitions ← get_vec (decode_partition_response version)
  returns (record { topic = topic; partitions = partitions })

pub record IsListOffsetsTopicResponse (m : ListOffsetsTopicResponse) : Type 0 where
  pub topic_in : IsText m.topic
  pub partitions_in : IsVec IsListOffsetsPartitionResponse m.partitions

-- What a version carries of it; the decoder's defaults stand for the rest.
unfoldable pub topic_response_at : ℤ → ListOffsetsTopicResponse → ListOffsetsTopicResponse
topic_response_at version m = record {
  topic = m.topic;
  partitions = map (partition_response_at version) m.partitions;
}

reads_topic_response :
    (version : ℤ) (m : ListOffsetsTopicResponse)
    → IsListOffsetsTopicResponse m
    → Reads
        (decode_topic_response version)
        (encode_topic_response version m)
        (topic_response_at version m)
unfolding decode_topic_response encode_topic_response topic_response_at
reads_topic_response version m h =
    reads_then _ (reads_string _ h.topic_in)
      (reads_last _ (reads_list _ _ _ _ (reads_partition_response version) _ h.partitions_in) refl)

pub record ListOffsetsResponse : Type 0 where
  pub throttle_time_ms : ℤ
  pub topics : List ListOffsetsTopicResponse

unfoldable pub encode_response : ℤ → ListOffsetsResponse → Bytes
encode_response version m =
    write_if (leb_ℤ (pos 2) version) (put_i32 m.throttle_time_ms)
    ▸ put_vec (encode_topic_response version) m.topics

unfoldable pub decode_response : ℤ → Reader ListOffsetsResponse
decode_response version = do
  throttle_time_ms ← read_if (leb_ℤ (pos 2) version) get_i32 (pos 0)
  topics ← get_vec (decode_topic_response version)
  returns (record { throttle_time_ms = throttle_time_ms; topics = topics })

pub record IsListOffsetsResponse (m : ListOffsetsResponse) : Type 0 where
  pub throttle_time_ms_in : IsI32 m.throttle_time_ms
  pub topics_in : IsVec IsListOffsetsTopicResponse m.topics

-- What a version carries of it; the decoder's defaults stand for the rest.
unfoldable pub response_at : ℤ → ListOffsetsResponse → ListOffsetsResponse
response_at version m = record {
  throttle_time_ms = if leb_ℤ (pos 2) version then m.throttle_time_ms else pos 0;
  topics = map (topic_response_at version) m.topics;
}

reads_response :
    (version : ℤ) (m : ListOffsetsResponse)
    → IsListOffsetsResponse m
    → Reads (decode_response version) (encode_response version m) (response_at version m)
unfolding decode_response encode_response response_at
reads_response version m h =
    reads_then _ (reads_if _ _ (reads_i32 _ h.throttle_time_ms_in))
      (reads_last _ (reads_list _ _ _ _ (reads_topic_response version) _ h.topics_in) refl)

-- A ListOffsets request and its answer that fit the wire are read back from their bytes in any
-- version, whatever follows, which is left, with what that version carries.
pub decode-encode_list_offsets :
    (version : ℤ) (req : ListOffsetsRequest) (resp : ListOffsetsResponse) (rest : Bytes)
    → IsListOffsetsRequest req
    → IsListOffsetsResponse resp
    → (decode_request version (encode_request version req ++ rest)
        ≡ ok (request_at version req, rest))
      × (decode_response version (encode_response version resp ++ rest)
          ≡ ok (response_at version resp, rest))
decode-encode_list_offsets version req resp rest h_req h_resp =
    ((reads_request version req h_req).taken rest, (reads_response version resp h_resp).taken rest)
