-- ===== src/Protocol/Messages/Produce.antt =====
-- crates/oxidemq-protocol/src/messages.rs: Produce. An `if` over the version with several reads or writes
-- under it is that test on each of them.
use oxide_mq.Base.{◌≡◌, refl, List, ◌++◌, map, none, if◌then◌else◌}
use oxide_mq.Base.Int.{ℤ, pos, negsuc, leb_ℤ, IsI64}
use oxide_mq.Base.Result.{ok}
use oxide_mq.Bytes.{Bytes, get_i16, get_i32, get_i64, put_i16, put_i32, put_i64}
use oxide_mq.Broker.Codes.{KafkaErrorCode}
use oxide_mq.Protocol.Parser.{read_string, write_string}
use oxide_mq.Protocol.Reader.{
  Reader, ◌>>=◌, returns, ◌▸◌, read_if, write_if, get_error, put_error, get_string, put_string,
  get_data, put_data, get_vec, put_vec, IsI16, IsI32, IsText, IsData, IsVec,
}
use oxide_mq.Protocol.Reader.Laws.{
  Reads, reads_then, reads_last, reads_if, reads_i16, reads_i32, reads_i64, reads_error,
  reads_string, reads_text, reads_data, reads_list, reads_same_list,
}

pub record PartitionProduceData : Type 0 where
  pub partition : ℤ
  pub records : Bytes

unfoldable pub encode_partition : PartitionProduceData → Bytes
encode_partition m = put_i32 m.partition ▸ put_data m.records

unfoldable pub decode_partition : Reader PartitionProduceData
decode_partition = do
  partition ← get_i32
  records ← get_data
  returns (record { partition = partition; records = records })

pub record IsPartitionProduceData (m : PartitionProduceData) : Type 0 where
  pub partition_in : IsI32 m.partition
  pub records_in : IsData m.records

reads_partition :
    (m : PartitionProduceData)
    → IsPartitionProduceData m
    → Reads decode_partition (encode_partition m) m
unfolding decode_partition encode_partition
reads_partition m h =
    reads_then _ (reads_i32 _ h.partition_in) (reads_last _ (reads_data _ h.records_in) refl)

pub record TopicProduceData : Type 0 where
  pub topic : Bytes
  pub partitions : List PartitionProduceData

unfoldable pub encode_topic : TopicProduceData → Bytes
encode_topic m = put_string m.topic ▸ put_vec encode_partition m.partitions

unfoldable pub decode_topic : Reader TopicProduceData
decode_topic = do
  topic ← get_string
  partitions ← get_vec decode_partition
  returns (record { topic = topic; partitions = partitions })

pub record IsTopicProduceData (m : TopicProduceData) : Type 0 where
  pub topic_in : IsText m.topic
  pub partitions_in : IsVec IsPartitionProduceData m.partitions

reads_topic : (m : TopicProduceData) → IsTopicProduceData m → Reads decode_topic (encode_topic m) m
unfolding decode_topic encode_topic
reads_topic m h =
    reads_then _ (reads_string _ h.topic_in)
      (reads_last _ (reads_same_list _ _ _ reads_partition _ h.partitions_in) refl)

pub record ProduceRequest : Type 0 where
  pub acks : ℤ
  pub timeout_ms : ℤ
  pub topic_data : List TopicProduceData

unfoldable pub encode_request : ℤ → ProduceRequest → Bytes
encode_request version m =
    write_if (leb_ℤ (pos 3) version) (write_string none)
    ▸ put_i16 m.acks
    ▸ put_i32 m.timeout_ms
    ▸ put_vec encode_topic m.topic_data

unfoldable pub decode_request : ℤ → Reader ProduceRequest
decode_request version = do
  _ ← read_if (leb_ℤ (pos 3) version) read_string none
  acks ← get_i16
  timeout_ms ← get_i32
  topic_data ← get_vec decode_topic
  returns (record { acks = acks; timeout_ms = timeout_ms; topic_data = topic_data })

pub record IsProduceRequest (m : ProduceRequest) : Type 0 where
  pub acks_in : IsI16 m.acks
  pub timeout_ms_in : IsI32 m.timeout_ms
  pub topic_data_in : IsVec IsTopicProduceData m.topic_data

reads_request :
    (version : ℤ) (m : ProduceRequest)
    → IsProduceRequest m
    → Reads (decode_request version) (encode_request version m) m
unfolding decode_request encode_request
reads_request version m h = reads_then _ (reads_if _ _ (reads_text none tt)) (
    reads_then _ (reads_i16 _ h.acks_in) (
      reads_then _ (reads_i32 _ h.timeout_ms_in)
        (reads_last _ (reads_same_list _ _ _ reads_topic _ h.topic_data_in) refl)))

pub record PartitionProduceResponse : Type 0 where
  pub partition : ℤ
  pub error_code : KafkaErrorCode
  pub base_offset : ℤ
  pub log_append_time_ms : ℤ
  pub log_start_offset : ℤ

unfoldable pub encode_partition_response : ℤ → PartitionProduceResponse → Bytes
encode_partition_response version m =
    put_i32 m.partition
    ▸ put_error m.error_code
    ▸ put_i64 m.base_offset
    ▸ write_if (leb_ℤ (pos 2) version) (put_i64 m.log_append_time_ms)
    ▸ write_if (leb_ℤ (pos 5) version) (put_i64 m.log_start_offset)

unfoldable pub decode_partition_response : ℤ → Reader PartitionProduceResponse
decode_partition_response version = do
  partition ← get_i32
  error_code ← get_error
  base_offset ← get_i64
  log_append_time_ms ← read_if (leb_ℤ (pos 2) version) get_i64 (negsuc 0)
  log_start_offset ← read_if (leb_ℤ (pos 5) version) get_i64 (pos 0)
  returns (record {
    partition = partition;
    error_code = error_code;
    base_offset = base_offset;
    log_append_time_ms = log_append_time_ms;
    log_start_offset = log_start_offset;
  })

pub record IsPartitionProduceResponse (m : PartitionProduceResponse) : Type 0 where
  pub partition_in : IsI32 m.partition
  pub base_offset_in : IsI64 m.base_offset
  pub log_append_time_ms_in : IsI64 m.log_append_time_ms
  pub log_start_offset_in : IsI64 m.log_start_offset

-- What a version carries of it; the decoder's defaults stand for the rest.
unfoldable pub partition_response_at : ℤ → PartitionProduceResponse → PartitionProduceResponse
partition_response_at version m = record {
  partition = m.partition;
  error_code = m.error_code;
  base_offset = m.base_offset;
  log_append_time_ms = if leb_ℤ (pos 2) version then m.log_append_time_ms else negsuc 0;
  log_start_offset = if leb_ℤ (pos 5) version then m.log_start_offset else pos 0;
}

reads_partition_response :
    (version : ℤ) (m : PartitionProduceResponse)
    → IsPartitionProduceResponse m
    → Reads
        (decode_partition_response version)
        (encode_partition_response version m)
        (partition_response_at version m)
unfolding decode_partition_response encode_partition_response partition_response_at
reads_partition_response version m h = reads_then _ (reads_i32 _ h.partition_in) (
    reads_then _ (reads_error _) (
      reads_then _ (reads_i64 _ h.base_offset_in) (
        reads_then _ (reads_if _ _ (reads_i64 _ h.log_append_time_ms_in))
          (reads_last _ (reads_if _ _ (reads_i64 _ h.log_start_offset_in)) refl))))

pub record TopicProduceResponse : Type 0 where
  pub topic : Bytes
  pub partitions : List PartitionProduceResponse

unfoldable pub encode_topic_response : ℤ → TopicProduceResponse → Bytes
encode_topic_response version m =
    put_string m.topic ▸ put_vec (encode_partition_response version) m.partitions

unfoldable pub decode_topic_response : ℤ → Reader TopicProduceResponse
decode_topic_response version = do
  topic ← get_string
  partitions ← get_vec (decode_partition_response version)
  returns (record { topic = topic; partitions = partitions })

pub record IsTopicProduceResponse (m : TopicProduceResponse) : Type 0 where
  pub topic_in : IsText m.topic
  pub partitions_in : IsVec IsPartitionProduceResponse m.partitions

-- What a version carries of it; the decoder's defaults stand for the rest.
unfoldable pub topic_response_at : ℤ → TopicProduceResponse → TopicProduceResponse
topic_response_at version m = record {
  topic = m.topic;
  partitions = map (partition_response_at version) m.partitions;
}

reads_topic_response :
    (version : ℤ) (m : TopicProduceResponse)
    → IsTopicProduceResponse m
    → Reads
        (decode_topic_response version)
        (encode_topic_response version m)
        (topic_response_at version m)
unfolding decode_topic_response encode_topic_response topic_response_at
reads_topic_response version m h =
    reads_then _ (reads_string _ h.topic_in)
      (reads_last _ (reads_list _ _ _ _ (reads_partition_response version) _ h.partitions_in) refl)

pub record ProduceResponse : Type 0 where
  pub responses : List TopicProduceResponse
  pub throttle_time_ms : ℤ

unfoldable pub encode_response : ℤ → ProduceResponse → Bytes
encode_response version m =
    put_vec (encode_topic_response version) m.responses
    ▸ write_if (leb_ℤ (pos 1) version) (put_i32 m.throttle_time_ms)

unfoldable pub decode_response : ℤ → Reader ProduceResponse
decode_response version = do
  responses ← get_vec (decode_topic_response version)
  throttle_time_ms ← read_if (leb_ℤ (pos 1) version) get_i32 (pos 0)
  returns (record { responses = responses; throttle_time_ms = throttle_time_ms })

pub record IsProduceResponse (m : ProduceResponse) : Type 0 where
  pub responses_in : IsVec IsTopicProduceResponse m.responses
  pub throttle_time_ms_in : IsI32 m.throttle_time_ms

-- What a version carries of it; the decoder's defaults stand for the rest.
unfoldable pub response_at : ℤ → ProduceResponse → ProduceResponse
response_at version m = record {
  responses = map (topic_response_at version) m.responses;
  throttle_time_ms = if leb_ℤ (pos 1) version then m.throttle_time_ms else pos 0;
}

reads_response :
    (version : ℤ) (m : ProduceResponse)
    → IsProduceResponse m
    → Reads (decode_response version) (encode_response version m) (response_at version m)
unfolding decode_response encode_response response_at
reads_response version m h =
    reads_then _ (reads_list _ _ _ _ (reads_topic_response version) _ h.responses_in)
      (reads_last _ (reads_if _ _ (reads_i32 _ h.throttle_time_ms_in)) refl)

-- A produce request and its answer whose numbers, texts and lists fit the wire are read back from
-- their bytes in any version, whatever follows, which is left: the request whole, the answer with
-- what that version carries.
pub decode-encode_produce :
    (version : ℤ) (req : ProduceRequest) (resp : ProduceResponse) (rest : Bytes)
    → IsProduceRequest req
    → IsProduceResponse resp
    → (decode_request version (encode_request version req ++ rest) ≡ ok (req, rest))
      × (decode_response version (encode_response version resp ++ rest)
          ≡ ok (response_at version resp, rest))
decode-encode_produce version req resp rest h_req h_resp =
    ((reads_request version req h_req).taken rest, (reads_response version resp h_resp).taken rest)
