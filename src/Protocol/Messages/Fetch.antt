-- ===== src/Protocol/Messages/Fetch.antt =====
-- crates/oxidemq-protocol/src/messages.rs: Fetch. An `if` over the version with several reads or writes under
-- it is that test on each of them.
use oxide_mq.Base.{◌≡◌, refl, List, ◌++◌, map, if◌then◌else◌, arith}
use oxide_mq.Base.Int.{ℤ, pos, negsuc, pos_part, leb_ℤ, ltb_ℤ, IsI64}
use oxide_mq.Base.Result.{ok}
use oxide_mq.Bytes.{Bytes, get_i32, get_i64, put_i32, put_i64}
use oxide_mq.Broker.Codes.{KafkaErrorCode, no_error}
use oxide_mq.Protocol.Reader.{
  Reader, ◌>>=◌, returns, ◌▸◌, read_if, write_if, get_i8, put_i8, get_error, put_error, get_string,
  put_string, get_data, put_data, get_vec, put_vec, repeated, IsI8, IsI32, IsText, IsData, IsVec,
}
use oxide_mq.Protocol.Reader.Laws.{
  Reads, reads_then, reads_last, reads_if, reads_i8, reads_i32, reads_i64, reads_error,
  reads_string, reads_data, reads_list, reads_same_list,
}

-- The aborted transactions of a fetched partition, which are read and dropped.
unfoldable pub skip_aborted : Reader (Unit {0})
skip_aborted = do
  aborted_count ← get_i32
  if ltb_ℤ (pos 0) aborted_count
      then (do _ ← repeated (pos_part aborted_count) (do _ ← get_i64; get_i64); returns tt)
      else returns tt

reads_no_aborted : Reads skip_aborted (put_i32 (negsuc 0)) tt
unfolding skip_aborted
reads_no_aborted = reads_last _ (reads_i32 (negsuc 0) (omega arith)) refl

pub record FetchPartition : Type 0 where
  pub partition : ℤ
  pub fetch_offset : ℤ
  pub partition_max_bytes : ℤ

unfoldable pub encode_partition : ℤ → FetchPartition → Bytes
encode_partition version m =
    put_i32 m.partition
    ▸ write_if (leb_ℤ (pos 9) version) (put_i32 (negsuc 0))
    ▸ put_i64 m.fetch_offset
    ▸ write_if (leb_ℤ (pos 5) version) (put_i64 (pos 0))
    ▸ put_i32 m.partition_max_bytes

unfoldable pub decode_partition : ℤ → Reader FetchPartition
decode_partition version = do
  partition ← get_i32
  _ ← read_if (leb_ℤ (pos 9) version) get_i32 (pos 0)
  fetch_offset ← get_i64
  _ ← read_if (leb_ℤ (pos 5) version) get_i64 (pos 0)
  partition_max_bytes ← get_i32
  returns (record {
    partition = partition;
    fetch_offset = fetch_offset;
    partition_max_bytes = partition_max_bytes;
  })

pub record IsFetchPartition (m : FetchPartition) : Type 0 where
  pub partition_in : IsI32 m.partition
  pub fetch_offset_in : IsI64 m.fetch_offset
  pub partition_max_bytes_in : IsI32 m.partition_max_bytes

reads_partition :
    (version : ℤ) (m : FetchPartition)
    → IsFetchPartition m
    → Reads (decode_partition version) (encode_partition version m) m
unfolding decode_partition encode_partition
reads_partition version m h = reads_then _ (reads_i32 _ h.partition_in) (
    reads_then _ (reads_if _ _ (reads_i32 (negsuc 0) (omega arith))) (
      reads_then _ (reads_i64 _ h.fetch_offset_in) (
        reads_then _ (reads_if _ _ (reads_i64 (pos 0) (omega arith)))
          (reads_last _ (reads_i32 _ h.partition_max_bytes_in) refl))))

pub record FetchTopic : Type 0 where
  pub topic : Bytes
  pub partitions : List FetchPartition

unfoldable pub encode_topic : ℤ → FetchTopic → Bytes
encode_topic version m = put_string m.topic ▸ put_vec (encode_partition version) m.partitions

unfoldable pub decode_topic : ℤ → Reader FetchTopic
decode_topic version = do
  topic ← get_string
  partitions ← get_vec (decode_partition version)
  returns (record { topic = topic; partitions = partitions })

pub record IsFetchTopic (m : FetchTopic) : Type 0 where
  pub topic_in : IsText m.topic
  pub partitions_in : IsVec IsFetchPartition m.partitions

reads_topic :
    (version : ℤ) (m : FetchTopic)
    → IsFetchTopic m
    → Reads (decode_topic version) (encode_topic version m) m
unfolding decode_topic encode_topic
reads_topic version m h =
    reads_then _ (reads_string _ h.topic_in)
      (reads_last _ (reads_same_list _ _ _ (reads_partition version) _ h.partitions_in) refl)

pub record FetchRequest : Type 0 where
  pub max_wait_ms : ℤ
  pub min_bytes : ℤ
  pub max_bytes : ℤ
  pub isolation_level : ℤ
  pub topics : List FetchTopic

unfoldable pub encode_request : ℤ → FetchRequest → Bytes
encode_request version m =
    put_i32 (negsuc 0)
    ▸ put_i32 m.max_wait_ms
    ▸ put_i32 m.min_bytes
    ▸ write_if (leb_ℤ (pos 3) version) (put_i32 m.max_bytes)
    ▸ write_if (leb_ℤ (pos 4) version) (put_i8 m.isolation_level)
    ▸ write_if (leb_ℤ (pos 7) version) (put_i32 (pos 0))
    ▸ write_if (leb_ℤ (pos 7) version) (put_i32 (pos 0))
    ▸ put_vec (encode_topic version) m.topics

unfoldable pub decode_request : ℤ → Reader FetchRequest
decode_request version = do
  _ ← get_i32
  max_wait_ms ← get_i32
  min_bytes ← get_i32
  max_bytes ← read_if (leb_ℤ (pos 3) version) get_i32 (pos 0x7fffffff)
  isolation_level ← read_if (leb_ℤ (pos 4) version) get_i8 (pos 0)
  _ ← read_if (leb_ℤ (pos 7) version) get_i32 (pos 0)
  _ ← read_if (leb_ℤ (pos 7) version) get_i32 (pos 0)
  topics ← get_vec (decode_topic version)
  returns (record {
    max_wait_ms = max_wait_ms;
    min_bytes = min_bytes;
    max_bytes = max_bytes;
    isolation_level = isolation_level;
    topics = topics;
  })

pub record IsFetchRequest (m : FetchRequest) : Type 0 where
  pub max_wait_ms_in : IsI32 m.max_wait_ms
  pub min_bytes_in : IsI32 m.min_bytes
  pub max_bytes_in : IsI32 m.max_bytes
  pub isolation_level_in : IsI8 m.isolation_level
  pub topics_in : IsVec IsFetchTopic m.topics

-- What a version carries of it; the decoder's defaults stand for the rest.
unfoldable pub request_at : ℤ → FetchRequest → FetchRequest
request_at version m = record {
  max_wait_ms = m.max_wait_ms;
  min_bytes = m.min_bytes;
  max_bytes = if leb_ℤ (pos 3) version then m.max_bytes else pos 0x7fffffff;
  isolation_level = if leb_ℤ (pos 4) version then m.isolation_level else pos 0;
  topics = m.topics;
}

reads_request :
    (version : ℤ) (m : FetchRequest)
    → IsFetchRequest m
    → Reads (decode_request version) (encode_request version m) (request_at version m)
unfolding decode_request encode_request request_at
reads_request version m h = reads_then _ (reads_i32 (negsuc 0) (omega arith)) (
    reads_then _ (reads_i32 _ h.max_wait_ms_in) (
      reads_then _ (reads_i32 _ h.min_bytes_in) (
        reads_then _ (reads_if _ _ (reads_i32 _ h.max_bytes_in)) (
          reads_then _ (reads_if _ _ (reads_i8 _ h.isolation_level_in)) (
            reads_then _ (reads_if _ _ (reads_i32 (pos 0) (omega arith))) (
              reads_then _ (reads_if _ _ (reads_i32 (pos 0) (omega arith))) (
                reads_last _ (reads_same_list _ _ _ (reads_topic version) _ h.topics_in) refl)))))))

pub record FetchPartitionResponse : Type 0 where
  pub partition_index : ℤ
  pub error_code : KafkaErrorCode
  pub high_watermark : ℤ
  pub last_stable_offset : ℤ
  pub records : Bytes

unfoldable pub encode_partition_response : ℤ → FetchPartitionResponse → Bytes
encode_partition_response version m =
    put_i32 m.partition_index
    ▸ put_error m.error_code
    ▸ put_i64 m.high_watermark
    ▸ write_if (leb_ℤ (pos 4) version) (put_i64 m.last_stable_offset)
    ▸ write_if (leb_ℤ (pos 4) version) (put_i64 (pos 0))
    ▸ write_if (leb_ℤ (pos 4) version) (put_i32 (negsuc 0))
    ▸ put_data m.records

unfoldable pub decode_partition_response : ℤ → Reader FetchPartitionResponse
decode_partition_response version = do
  partition_index ← get_i32
  error_code ← get_error
  high_watermark ← get_i64
  last_stable_offset ← read_if (leb_ℤ (pos 4) version) get_i64 high_watermark
  _ ← read_if (leb_ℤ (pos 4) version) get_i64 (pos 0)
  _ ← read_if (leb_ℤ (pos 4) version) skip_aborted tt
  records ← get_data
  returns (record {
    partition_index = partition_index;
    error_code = error_code;
    high_watermark = high_watermark;
    last_stable_offset = last_stable_offset;
    records = records;
  })

pub record IsFetchPartitionResponse (m : FetchPartitionResponse) : Type 0 where
  pub partition_index_in : IsI32 m.partition_index
  pub high_watermark_in : IsI64 m.high_watermark
  pub last_stable_offset_in : IsI64 m.last_stable_offset
  pub records_in : IsData m.records

-- What a version carries of it; the decoder's defaults stand for the rest.
unfoldable pub partition_response_at : ℤ → FetchPartitionResponse → FetchPartitionResponse
partition_response_at version m = record {
  partition_index = m.partition_index;
  error_code = m.error_code;
  high_watermark = m.high_watermark;
  last_stable_offset = if leb_ℤ (pos 4) version then m.last_stable_offset else m.high_watermark;
  records = m.records;
}

reads_partition_response :
    (version : ℤ) (m : FetchPartitionResponse)
    → IsFetchPartitionResponse m
    → Reads
        (decode_partition_response version)
        (encode_partition_response version m)
        (partition_response_at version m)
unfolding decode_partition_response encode_partition_response partition_response_at
reads_partition_response version m h = reads_then _ (reads_i32 _ h.partition_index_in) (
    reads_then _ (reads_error _) (
      reads_then _ (reads_i64 _ h.high_watermark_in) (
        reads_then _ (reads_if _ _ (reads_i64 _ h.last_stable_offset_in)) (
          reads_then _ (reads_if _ _ (reads_i64 (pos 0) (omega arith))) (
            reads_then _ (reads_if _ _ (reads_no_aborted))
              (reads_last _ (reads_data _ h.records_in) refl))))))

pub record FetchTopicResponse : Type 0 where
  pub topic : Bytes
  pub partitions : List FetchPartitionResponse

unfoldable pub encode_topic_response : ℤ → FetchTopicResponse → Bytes
encode_topic_response version m =
    put_string m.topic ▸ put_vec (encode_partition_response version) m.partitions

unfoldable pub decode_topic_response : ℤ → Reader FetchTopicResponse
decode_topic_response version = do
  topic ← get_string
  partitions ← get_vec (decode_partition_response version)
  returns (record { topic = topic; partitions = partitions })

pub record IsFetchTopicResponse (m : FetchTopicResponse) : Type 0 where
  pub topic_in : IsText m.topic
  pub partitions_in : IsVec IsFetchPartitionResponse m.partitions

-- What a version carries of it; the decoder's defaults stand for the rest.
unfoldable pub topic_response_at : ℤ → FetchTopicResponse → FetchTopicResponse
topic_response_at version m = record {
  topic = m.topic;
  partitions = map (partition_response_at version) m.partitions;
}

reads_topic_response :
    (version : ℤ) (m : FetchTopicResponse)
    → IsFetchTopicResponse m
    → Reads
        (decode_topic_response version)
        (encode_topic_response version m)
        (topic_response_at version m)
unfolding decode_topic_response encode_topic_response topic_response_at
reads_topic_response version m h =
    reads_then _ (reads_string _ h.topic_in)
      (reads_last _ (reads_list _ _ _ _ (reads_partition_response version) _ h.partitions_in) refl)

pub record FetchResponse : Type 0 where
  pub throttle_time_ms : ℤ
  pub error_code : KafkaErrorCode
  pub responses : List FetchTopicResponse

unfoldable pub encode_response : ℤ → FetchResponse → Bytes
encode_response version m =
    write_if (leb_ℤ (pos 1) version) (put_i32 m.throttle_time_ms)
    ▸ write_if (leb_ℤ (pos 7) version) (put_error m.error_code)
    ▸ write_if (leb_ℤ (pos 7) version) (put_i32 (pos 0))
    ▸ put_vec (encode_topic_response version) m.responses

unfoldable pub decode_response : ℤ → Reader FetchResponse
decode_response version = do
  throttle_time_ms ← read_if (leb_ℤ (pos 1) version) get_i32 (pos 0)
  error_code ← read_if (leb_ℤ (pos 7) version) get_error no_error
  _ ← read_if (leb_ℤ (pos 7) version) get_i32 (pos 0)
  responses ← get_vec (decode_topic_response version)
  returns (record {
    throttle_time_ms = throttle_time_ms;
    error_code = error_code;
    responses = responses;
  })

pub record IsFetchResponse (m : FetchResponse) : Type 0 where
  pub throttle_time_ms_in : IsI32 m.throttle_time_ms
  pub responses_in : IsVec IsFetchTopicResponse m.responses

-- What a version carries of it; the decoder's defaults stand for the rest.
unfoldable pub response_at : ℤ → FetchResponse → FetchResponse
response_at version m = record {
  throttle_time_ms = if leb_ℤ (pos 1) version then m.throttle_time_ms else pos 0;
  error_code = if leb_ℤ (pos 7) version then m.error_code else no_error;
  responses = map (topic_response_at version) m.responses;
}

reads_response :
    (version : ℤ) (m : FetchResponse)
    → IsFetchResponse m
    → Reads (decode_response version) (encode_response version m) (response_at version m)
unfolding decode_response encode_response response_at
reads_response version m h = reads_then _ (reads_if _ _ (reads_i32 _ h.throttle_time_ms_in)) (
    reads_then _ (reads_if _ _ (reads_error _)) (
      reads_then _ (reads_if _ _ (reads_i32 (pos 0) (omega arith)))
        (reads_last _ (reads_list _ _ _ _ (reads_topic_response version) _ h.responses_in) refl)))

-- A fetch request and its answer whose numbers, texts and lists fit the wire are read back from
-- their bytes in any version, whatever follows, which is left, with what that version carries; the
-- last stable offset is the high watermark where the version has none.
pub decode-encode_fetch :
    (version : ℤ) (req : FetchRequest) (resp : FetchResponse) (rest : Bytes)
    → IsFetchRequest req
    → IsFetchResponse resp
    → (decode_request version (encode_request version req ++ rest)
        ≡ ok (request_at version req, rest))
      × (decode_response version (encode_response version resp ++ rest)
          ≡ ok (response_at version resp, rest))
decode-encode_fetch version req resp rest h_req h_resp =
    ((reads_request version req h_req).taken rest, (reads_response version resp h_resp).taken rest)
