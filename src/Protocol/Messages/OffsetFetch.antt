-- ===== src/Protocol/Messages/OffsetFetch.antt =====
-- crates/oxidemq-protocol/src/messages.rs: OffsetFetch.
use oxide_mq.Base.{◌≡◌, refl, List, ◌++◌, Option, if◌then◌else◌, arith}
use oxide_mq.Base.Int.{ℤ, pos, negsuc, leb_ℤ, IsI64}
use oxide_mq.Base.Result.{ok}
use oxide_mq.Bytes.{Bytes, get_i32, get_i64, put_i32, put_i64}
use oxide_mq.Broker.Codes.{KafkaErrorCode, no_error}
use oxide_mq.Protocol.Parser.{read_string, write_string}
use oxide_mq.Protocol.Reader.{
  Reader, ◌>>=◌, returns, ◌▸◌, read_if, write_if, get_error, put_error, get_string, put_string,
  get_vec, put_vec, get_nullable_vec, put_nullable_vec, IsI32, IsText, IsOptionalText, IsVec,
  IsNullable,
}
use oxide_mq.Protocol.Reader.Laws.{
  Reads, reads_then, reads_last, reads_if, reads_i32, reads_i64, reads_error, reads_string,
  reads_text, reads_i32s, reads_same_list, reads_nullable,
}

pub record OffsetFetchTopic : Type 0 where
  pub topic : Bytes
  pub partitions : List ℤ

unfoldable pub encode_topic : OffsetFetchTopic → Bytes
encode_topic m = put_string m.topic ▸ put_vec put_i32 m.partitions

unfoldable pub decode_topic : Reader OffsetFetchTopic
decode_topic = do
  topic ← get_string
  partitions ← get_vec get_i32
  returns (record { topic = topic; partitions = partitions })

pub record IsOffsetFetchTopic (m : OffsetFetchTopic) : Type 0 where
  pub topic_in : IsText m.topic
  pub partitions_in : IsVec IsI32 m.partitions

reads_topic : (m : OffsetFetchTopic) → IsOffsetFetchTopic m → Reads decode_topic (encode_topic m) m
unfolding decode_topic encode_topic
reads_topic m h =
    reads_then _ (reads_string _ h.topic_in) (reads_last _ (reads_i32s _ h.partitions_in) refl)

pub record OffsetFetchRequest : Type 0 where
  pub group_id : Bytes
  pub topics : Option (List OffsetFetchTopic)

unfoldable pub encode_request : ℤ → OffsetFetchRequest → Bytes
encode_request _ m = put_string m.group_id ▸ put_nullable_vec encode_topic m.topics

unfoldable pub decode_request : ℤ → Reader OffsetFetchRequest
decode_request _ = do
  group_id ← get_string
  topics ← get_nullable_vec decode_topic
  returns (record { group_id = group_id; topics = topics })

pub record IsOffsetFetchRequest (m : OffsetFetchRequest) : Type 0 where
  pub group_id_in : IsText m.group_id
  pub topics_in : IsNullable IsOffsetFetchTopic m.topics

reads_request :
    (version : ℤ) (m : OffsetFetchRequest)
    → IsOffsetFetchRequest m
    → Reads (decode_request version) (encode_request version m) m
unfolding decode_request encode_request
reads_request version m h =
    reads_then _ (reads_string _ h.group_id_in)
      (reads_last _ (reads_nullable _ _ _ reads_topic _ h.topics_in) refl)

pub record OffsetFetchPartitionResponse : Type 0 where
  pub partition : ℤ
  pub offset : ℤ
  pub metadata : Option Bytes
  pub error_code : KafkaErrorCode

unfoldable pub encode_partition_response : ℤ → OffsetFetchPartitionResponse → Bytes
encode_partition_response version m =
    put_i32 m.partition
    ▸ put_i64 m.offset
    ▸ write_if (leb_ℤ (pos 5) version) (put_i32 (negsuc 0))
    ▸ write_string m.metadata
    ▸ put_error m.error_code

unfoldable pub decode_partition_response : ℤ → Reader OffsetFetchPartitionResponse
decode_partition_response version = do
  partition ← get_i32
  offset ← get_i64
  _ ← read_if (leb_ℤ (pos 5) version) get_i32 (pos 0)
  metadata ← read_string
  error_code ← get_error
  returns (record {
    partition = partition;
    offset = offset;
    metadata = metadata;
    error_code = error_code;
  })

pub record IsOffsetFetchPartitionResponse (m : OffsetFetchPartitionResponse) : Type 0 where
  pub partition_in : IsI32 m.partition
  pub offset_in : IsI64 m.offset
  pub metadata_in : IsOptionalText m.metadata

reads_partition_response :
    (version : ℤ) (m : OffsetFetchPartitionResponse)
    → IsOffsetFetchPartitionResponse m
    → Reads (decode_partition_response version) (encode_partition_response version m) m
unfolding decode_partition_response encode_partition_response
reads_partition_response version m h = reads_then _ (reads_i32 _ h.partition_in) (
    reads_then _ (reads_i64 _ h.offset_in) (
      reads_then _ (reads_if _ _ (reads_i32 (negsuc 0) (omega arith)))
        (reads_then _ (reads_text _ h.metadata_in) (reads_last _ (reads_error _) refl))))

pub record OffsetFetchTopicResponse : Type 0 where
  pub topic : Bytes
  pub partitions : List OffsetFetchPartitionResponse

unfoldable pub encode_topic_response : ℤ → OffsetFetchTopicResponse → Bytes
encode_topic_response version m =
    put_string m.topic ▸ put_vec (encode_partition_response version) m.partitions

unfoldable pub decode_topic_response : ℤ → Reader OffsetFetchTopicResponse
decode_topic_response version = do
  topic ← get_string
  partitions ← get_vec (decode_partition_response version)
  returns (record { topic = topic; partitions = partitions })

pub record IsOffsetFetchTopicResponse (m : OffsetFetchTopicResponse) : Type 0 where
  pub topic_in : IsText m.topic
  pub partitions_in : IsVec IsOffsetFetchPartitionResponse m.partitions

reads_topic_response :
    (version : ℤ) (m : OffsetFetchTopicResponse)
    → IsOffsetFetchTopicResponse m
    → Reads (decode_topic_response version) (encode_topic_response version m) m
unfolding decode_topic_response encode_topic_response
reads_topic_response version m h =
    reads_then _ (reads_string _ h.topic_in) (
      reads_last _ (reads_same_list _ _ _ (reads_partition_response version) _ h.partitions_in)
        refl)

pub record OffsetFetchResponse : Type 0 where
  pub throttle_time_ms : ℤ
  pub topics : List OffsetFetchTopicResponse
  pub error_code : KafkaErrorCode

unfoldable pub encode_response : ℤ → OffsetFetchResponse → Bytes
encode_response version m =
    write_if (leb_ℤ (pos 3) version) (put_i32 m.throttle_time_ms)
    ▸ put_vec (encode_topic_response version) m.topics
    ▸ write_if (leb_ℤ (pos 2) version) (put_error m.error_code)

unfoldable pub decode_response : ℤ → Reader OffsetFetchResponse
decode_response version = do
  throttle_time_ms ← read_if (leb_ℤ (pos 3) version) get_i32 (pos 0)
  topics ← get_vec (decode_topic_response version)
  error_code ← read_if (leb_ℤ (pos 2) version) get_error no_error
  returns (record { throttle_time_ms = throttle_time_ms; topics = topics; error_code = error_code })

pub record IsOffsetFetchResponse (m : OffsetFetchResponse) : Type 0 where
  pub throttle_time_ms_in : IsI32 m.throttle_time_ms
  pub topics_in : IsVec IsOffsetFetchTopicResponse m.topics

-- What a version carries of it; the decoder's defaults stand for the rest.
unfoldable pub response_at : ℤ → OffsetFetchResponse → OffsetFetchResponse
response_at version m = record {
  throttle_time_ms = if leb_ℤ (pos 3) version then m.throttle_time_ms else pos 0;
  topics = m.topics;
  error_code = if leb_ℤ (pos 2) version then m.error_code else no_error;
}

reads_response :
    (version : ℤ) (m : OffsetFetchResponse)
    → IsOffsetFetchResponse m
    → Reads (decode_response version) (encode_response version m) (response_at version m)
unfolding decode_response encode_response response_at
reads_response version m h = reads_then _ (reads_if _ _ (reads_i32 _ h.throttle_time_ms_in)) (
    reads_then _ (reads_same_list _ _ _ (reads_topic_response version) _ h.topics_in)
      (reads_last _ (reads_if _ _ (reads_error _)) refl))

-- An OffsetFetch request and its answer that fit the wire are read back from their bytes in any
-- version, whatever follows, which is left: the request whole, absent topics included, the answer
-- with what that version carries.
pub decode-encode_offset_fetch :
    (version : ℤ) (req : OffsetFetchRequest) (resp : OffsetFetchResponse) (rest : Bytes)
    → IsOffsetFetchRequest req
    → IsOffsetFetchResponse resp
    → (decode_request version (encode_request version req ++ rest) ≡ ok (req, rest))
      × (decode_response version (encode_response version resp ++ rest)
          ≡ ok (response_at version resp, rest))
decode-encode_offset_fetch version req resp rest h_req h_resp =
    ((reads_request version req h_req).taken rest, (reads_response version resp h_resp).taken rest)
