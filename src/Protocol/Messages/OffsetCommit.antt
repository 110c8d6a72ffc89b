-- ===== src/Protocol/Messages/OffsetCommit.antt =====
-- crates/oxidemq-protocol/src/messages.rs: OffsetCommit. An `if` over the version with several reads or
-- writes under it is that test on each of them.
use oxide_mq.Base.{◌≡◌, refl, List, [], ◌++◌, Option, ◌&&◌, if◌then◌else◌, arith}
use oxide_mq.Base.Int.{ℤ, pos, negsuc, leb_ℤ, IsI64}
use oxide_mq.Base.Result.{ok}
use oxide_mq.Bytes.{Bytes, get_i32, get_i64, put_i32, put_i64}
use oxide_mq.Broker.Codes.{KafkaErrorCode}
use oxide_mq.Protocol.Parser.{read_string, write_string}
use oxide_mq.Protocol.Reader.{
  Reader, ◌>>=◌, returns, ◌▸◌, read_if, write_if, get_error, put_error, get_string, put_string,
  get_vec, put_vec, IsI32, IsText, IsOptionalText, IsVec,
}
use oxide_mq.Protocol.Reader.Laws.{
  Reads, reads_then, reads_last, reads_if, reads_i32, reads_i64, reads_error, reads_string,
  reads_text, reads_same_list,
}

pub record OffsetCommitPartition : Type 0 where
  pub partition : ℤ
  pub committed_offset : ℤ
  pub metadata : Option Bytes

unfoldable pub encode_partition : OffsetCommitPartition → Bytes
encode_partition m = put_i32 m.partition ▸ put_i64 m.committed_offset ▸ write_string m.metadata

unfoldable pub decode_partition : Reader OffsetCommitPartition
decode_partition = do
  partition ← get_i32
  committed_offset ← get_i64
  metadata ← read_string
  returns
      (record { partition = partition; committed_offset = committed_offset; metadata = metadata })

pub record IsOffsetCommitPartition (m : OffsetCommitPartition) : Type 0 where
  pub partition_in : IsI32 m.partition
  pub committed_offset_in : IsI64 m.committed_offset
  pub metadata_in : IsOptionalText m.metadata

reads_partition :
    (m : OffsetCommitPartition)
    → IsOffsetCommitPartition m
    → Reads decode_partition (encode_partition m) m
unfolding decode_partition encode_partition
reads_partition m h = reads_then _ (reads_i32 _ h.partition_in) (
    reads_then _ (reads_i64 _ h.committed_offset_in)
      (reads_last _ (reads_text _ h.metadata_in) refl))

pub record OffsetCommitTopic : Type 0 where
  pub topic : Bytes
  pub partitions : List OffsetCommitPartition

unfoldable pub encode_topic : OffsetCommitTopic → Bytes
encode_topic m = put_string m.topic ▸ put_vec encode_partition m.partitions

unfoldable pub decode_topic : Reader OffsetCommitTopic
decode_topic = do
  topic ← get_string
  partitions ← get_vec decode_partition
  returns (record { topic = topic; partitions = partitions })

pub record IsOffsetCommitTopic (m : OffsetCommitTopic) : Type 0 where
  pub topic_in : IsText m.topic
  pub partitions_in : IsVec IsOffsetCommitPartition m.partitions

reads_topic :
    (m : OffsetCommitTopic) → IsOffsetCommitTopic m → Reads decode_topic (encode_topic m) m
unfolding decode_topic encode_topic
reads_topic m h =
    reads_then _ (reads_string _ h.topic_in)
      (reads_last _ (reads_same_list _ _ _ reads_partition _ h.partitions_in) refl)

pub record OffsetCommitRequest : Type 0 where
  pub group_id : Bytes
  pub generation_id : ℤ
  pub member_id : Bytes
  pub topics : List OffsetCommitTopic

unfoldable pub encode_request : ℤ → OffsetCommitRequest → Bytes
encode_request version m =
    put_string m.group_id
    ▸ write_if (leb_ℤ (pos 1) version) (put_i32 m.generation_id)
    ▸ write_if (leb_ℤ (pos 1) version) (put_string m.member_id)
    ▸ write_if (leb_ℤ (pos 2) version && leb_ℤ version (pos 4)) (put_i64 (negsuc 0))
    ▸ put_vec encode_topic m.topics

unfoldable pub decode_request : ℤ → Reader OffsetCommitRequest
decode_request version = do
  group_id ← get_string
  generation_id ← read_if (leb_ℤ (pos 1) version) get_i32 (pos 0)
  member_id ← read_if (leb_ℤ (pos 1) version) get_string []
  _ ← read_if (leb_ℤ (pos 2) version && leb_ℤ version (pos 4)) get_i64 (pos 0)
  topics ← get_vec decode_topic
  returns (record {
    group_id = group_id;
    generation_id = generation_id;
    member_id = member_id;
    topics = topics;
  })

pub record IsOffsetCommitRequest (m : OffsetCommitRequest) : Type 0 where
  pub group_id_in : IsText m.group_id
  pub generation_id_in : IsI32 m.generation_id
  pub member_id_in : IsText m.member_id
  pub topics_in : IsVec IsOffsetCommitTopic m.topics

-- What a version carries of it; the decoder's defaults stand for the rest.
unfoldable pub request_at : ℤ → OffsetCommitRequest → OffsetCommitRequest
request_at version m = record {
  group_id = m.group_id;
  generation_id = if leb_ℤ (pos 1) version then m.generation_id else pos 0;
  member_id = if leb_ℤ (pos 1) version then m.member_id else [];
  topics = m.topics;
}

reads_request :
    (version : ℤ) (m : OffsetCommitRequest)
    → IsOffsetCommitRequest m
    → Reads (decode_request version) (encode_request version m) (request_at version m)
unfolding decode_request encode_request request_at
reads_request version m h = reads_then _ (reads_string _ h.group_id_in) (
    reads_then _ (reads_if _ _ (reads_i32 _ h.generation_id_in)) (
      reads_then _ (reads_if _ _ (reads_string _ h.member_id_in)) (
        reads_then _ (reads_if _ _ (reads_i64 (negsuc 0) (omega arith)))
          (reads_last _ (reads_same_list _ _ _ reads_topic _ h.topics_in) refl))))

pub record OffsetCommitPartitionResponse : Type 0 where
  pub partition : ℤ
  pub error_code : KafkaErrorCode

unfoldable pub encode_partition_response : OffsetCommitPartitionResponse → Bytes
encode_partition_response m = put_i32 m.partition ▸ put_error m.error_code

unfoldable pub decode_partition_response : Reader OffsetCommitPartitionResponse
decode_partition_response = do
  partition ← get_i32
  error_code ← get_error
  returns (record { partition = partition; error_code = error_code })

pub record IsOffsetCommitPartitionResponse (m : OffsetCommitPartitionResponse) : Type 0 where
  pub partition_in : IsI32 m.partition

reads_partition_response :
    (m : OffsetCommitPartitionResponse)
    → IsOffsetCommitPartitionResponse m
    → Reads decode_partition_response (encode_partition_response m) m
unfolding decode_partition_response encode_partition_response
reads_partition_response m h =
    reads_then _ (reads_i32 _ h.partition_in) (reads_last _ (reads_error _) refl)

pub record OffsetCommitTopicResponse : Type 0 where
  pub topic : Bytes
  pub partitions : List OffsetCommitPartitionResponse

unfoldable pub encode_topic_response : OffsetCommitTopicResponse → Bytes
encode_topic_response m = put_string m.topic ▸ put_vec encode_partition_response m.partitions

unfoldable pub decode_topic_response : Reader OffsetCommitTopicResponse
decode_topic_response = do
  topic ← get_string
  partitions ← get_vec decode_partition_response
  returns (record { topic = topic; partitions = partitions })

pub record IsOffsetCommitTopicResponse (m : OffsetCommitTopicResponse) : Type 0 where
  pub topic_in : IsText m.topic
  pub partitions_in : IsVec IsOffsetCommitPartitionResponse m.partitions

reads_topic_response :
    (m : OffsetCommitTopicResponse)
    → IsOffsetCommitTopicResponse m
    → Reads decode_topic_response (encode_topic_response m) m
unfolding decode_topic_response encode_topic_response
reads_topic_response m h =
    reads_then _ (reads_string _ h.topic_in)
      (reads_last _ (reads_same_list _ _ _ reads_partition_response _ h.partitions_in) refl)

pub record OffsetCommitResponse : Type 0 where
  pub throttle_time_ms : ℤ
  pub topics : List OffsetCommitTopicResponse

unfoldable pub encode_response : ℤ → OffsetCommitResponse → Bytes
encode_response version m =
    write_if (leb_ℤ (pos 3) version) (put_i32 m.throttle_time_ms)
    ▸ put_vec encode_topic_response m.topics

unfoldable pub decode_response : ℤ → Reader OffsetCommitResponse
decode_response version = do
  throttle_time_ms ← read_if (leb_ℤ (pos 3) version) get_i32 (pos 0)
  topics ← get_vec decode_topic_response
  returns (record { throttle_time_ms = throttle_time_ms; topics = topics })

pub record IsOffsetCommitResponse (m : OffsetCommitResponse) : Type 0 where
  pub throttle_time_ms_in : IsI32 m.throttle_time_ms
  pub topics_in : IsVec IsOffsetCommitTopicResponse m.topics

-- What a version carries of it; the decoder's defaults stand for the rest.
unfoldable pub response_at : ℤ → OffsetCommitResponse → OffsetCommitResponse
response_at version m = record {
  throttle_time_ms = if leb_ℤ (pos 3) version then m.throttle_time_ms else pos 0;
  topics = m.topics;
}

reads_response :
    (version : ℤ) (m : OffsetCommitResponse)
    → IsOffsetCommitResponse m
    → Reads (decode_response version) (encode_response version m) (response_at version m)
unfolding decode_response encode_response response_at
reads_response version m h =
    reads_then _ (reads_if _ _ (reads_i32 _ h.throttle_time_ms_in))
      (reads_last _ (reads_same_list _ _ _ reads_topic_response _ h.topics_in) refl)

-- An OffsetCommit request and its answer that fit the wire are read back from their bytes in any
-- version, whatever follows, which is left, with what that version carries.
pub decode-encode_offset_commit :
    (version : ℤ) (req : OffsetCommitRequest) (resp : OffsetCommitResponse) (rest : Bytes)
    → IsOffsetCommitRequest req
    → IsOffsetCommitResponse resp
    → (decode_request version (encode_request version req ++ rest)
        ≡ ok (request_at version req, rest))
      × (decode_response version (encode_response version resp ++ rest)
          ≡ ok (response_at version resp, rest))
decode-encode_offset_commit version req resp rest h_req h_resp =
    ((reads_request version req h_req).taken rest, (reads_response version resp h_resp).taken rest)
