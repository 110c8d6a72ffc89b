-- ===== src/Protocol/Messages/AddPartitionsToTxn.antt =====
-- crates/oxidemq-protocol/src/messages.rs: AddPartitionsToTxn.
use oxide_mq.Base.{◌≡◌, refl, List, ◌++◌}
use oxide_mq.Base.Int.{ℤ, IsI64}
use oxide_mq.Base.Result.{ok}
use oxide_mq.Bytes.{Bytes, get_i16, get_i32, get_i64, put_i16, put_i32, put_i64}
use oxide_mq.Broker.Codes.{KafkaErrorCode}
use oxide_mq.Protocol.Reader.{
  Reader, ◌>>=◌, returns, ◌▸◌, get_error, put_error, get_string, put_string, get_vec, put_vec,
  IsI16, IsI32, IsText, IsVec,
}
use oxide_mq.Protocol.Reader.Laws.{
  Reads, reads_then, reads_last, reads_i16, reads_i32, reads_i64, reads_error, reads_string,
  reads_i32s, reads_same_list,
}

pub record AddPartitionsToTxnTopic : Type 0 where
  pub name : Bytes
  pub partitions : List ℤ

unfoldable pub encode_topic : AddPartitionsToTxnTopic → Bytes
encode_topic m = put_string m.name ▸ put_vec put_i32 m.partitions

unfoldable pub decode_topic : Reader AddPartitionsToTxnTopic
decode_topic = do
  name ← get_string
  partitions ← get_vec get_i32
  returns (record { name = name; partitions = partitions })

pub record IsAddPartitionsToTxnTopic (m : AddPartitionsToTxnTopic) : Type 0 where
  pub name_in : IsText m.name
  pub partitions_in : IsVec IsI32 m.partitions

reads_topic :
    (m : AddPartitionsToTxnTopic)
    → IsAddPartitionsToTxnTopic m
    → Reads decode_topic (encode_topic m) m
unfolding decode_topic encode_topic
reads_topic m h =
    reads_then _ (reads_string _ h.name_in) (reads_last _ (reads_i32s _ h.partitions_in) refl)

pub record AddPartitionsToTxnRequest : Type 0 where
  pub transactional_id : Bytes
  pub producer_id : ℤ
  pub producer_epoch : ℤ
  pub topics : List AddPartitionsToTxnTopic

unfoldable pub encode_request : ℤ → AddPartitionsToTxnRequest → Bytes
encode_request _ m =
    put_string m.transactional_id
    ▸ put_i64 m.producer_id
    ▸ put_i16 m.producer_epoch
    ▸ put_vec encode_topic m.topics

unfoldable pub decode_request : ℤ → Reader AddPartitionsToTxnRequest
decode_request _ = do
  transactional_id ← get_string
  producer_id ← get_i64
  producer_epoch ← get_i16
  topics ← get_vec decode_topic
  returns (record {
    transactional_id = transactional_id;
    producer_id = producer_id;
    producer_epoch = producer_epoch;
    topics = topics;
  })

pub record IsAddPartitionsToTxnRequest (m : AddPartitionsToTxnRequest) : Type 0 where
  pub transactional_id_in : IsText m.transactional_id
  pub producer_id_in : IsI64 m.producer_id
  pub producer_epoch_in : IsI16 m.producer_epoch
  pub topics_in : IsVec IsAddPartitionsToTxnTopic m.topics

reads_request :
    (version : ℤ) (m : AddPartitionsToTxnRequest)
    → IsAddPartitionsToTxnRequest m
    → Reads (decode_request version) (encode_request version m) m
unfolding decode_request encode_request
reads_request version m h = reads_then _ (reads_string _ h.transactional_id_in) (
    reads_then _ (reads_i64 _ h.producer_id_in) (
      reads_then _ (reads_i16 _ h.producer_epoch_in)
        (reads_last _ (reads_same_list _ _ _ reads_topic _ h.topics_in) refl)))

pub record AddPartitionsToTxnPartitionResult : Type 0 where
  pub partition_index : ℤ
  pub error_code : KafkaErrorCode

unfoldable pub encode_partition_result : AddPartitionsToTxnPartitionResult → Bytes
encode_partition_result m = put_i32 m.partition_index ▸ put_error m.error_code

unfoldable pub decode_partition_result : Reader AddPartitionsToTxnPartitionResult
decode_partition_result = do
  partition_index ← get_i32
  error_code ← get_error
  returns (record { partition_index = partition_index; error_code = error_code })

pub record IsAddPartitionsToTxnPartitionResult (m : AddPartitionsToTxnPartitionResult)
    : Type 0 where
  pub partition_index_in : IsI32 m.partition_index

reads_partition_result :
    (m : AddPartitionsToTxnPartitionResult)
    → IsAddPartitionsToTxnPartitionResult m
    → Reads decode_partition_result (encode_partition_result m) m
unfolding decode_partition_result encode_partition_result
reads_partition_result m h =
    reads_then _ (reads_i32 _ h.partition_index_in) (reads_last _ (reads_error _) refl)

pub record AddPartitionsToTxnTopicResult : Type 0 where
  pub name : Bytes
  pub results : List AddPartitionsToTxnPartitionResult

unfoldable pub encode_topic_result : AddPartitionsToTxnTopicResult → Bytes
encode_topic_result m = put_string m.name ▸ put_vec encode_partition_result m.results

unfoldable pub decode_topic_result : Reader AddPartitionsToTxnTopicResult
decode_topic_result = do
  name ← get_string
  results ← get_vec decode_partition_result
  returns (record { name = name; results = results })

pub record IsAddPartitionsToTxnTopicResult (m : AddPartitionsToTxnTopicResult) : Type 0 where
  pub name_in : IsText m.name
  pub results_in : IsVec IsAddPartitionsToTxnPartitionResult m.results

reads_topic_result :
    (m : AddPartitionsToTxnTopicResult)
    → IsAddPartitionsToTxnTopicResult m
    → Reads decode_topic_result (encode_topic_result m) m
unfolding decode_topic_result encode_topic_result
reads_topic_result m h =
    reads_then _ (reads_string _ h.name_in)
      (reads_last _ (reads_same_list _ _ _ reads_partition_result _ h.results_in) refl)

pub record AddPartitionsToTxnResponse : Type 0 where
  pub throttle_time_ms : ℤ
  pub errors : List AddPartitionsToTxnTopicResult

unfoldable pub encode_response : ℤ → AddPartitionsToTxnResponse → Bytes
encode_response _ m = put_i32 m.throttle_time_ms ▸ put_vec encode_topic_result m.errors

unfoldable pub decode_response : ℤ → Reader AddPartitionsToTxnResponse
decode_response _ = do
  throttle_time_ms ← get_i32
  errors ← get_vec decode_topic_result
  returns (record { throttle_time_ms = throttle_time_ms; errors = errors })

pub record IsAddPartitionsToTxnResponse (m : AddPartitionsToTxnResponse) : Type 0 where
  pub throttle_time_ms_in : IsI32 m.throttle_time_ms
  pub errors_in : IsVec IsAddPartitionsToTxnTopicResult m.errors

reads_response :
    (version : ℤ) (m : AddPartitionsToTxnResponse)
    → IsAddPartitionsToTxnResponse m
    → Reads (decode_response version) (encode_response version m) m
unfolding decode_response encode_response
reads_response version m h =
    reads_then _ (reads_i32 _ h.throttle_time_ms_in)
      (reads_last _ (reads_same_list _ _ _ reads_topic_result _ h.errors_in) refl)

-- An AddPartitionsToTxn request and its answer that fit the wire are read back whole from their
-- bytes in any version, whatever follows, which is left.
pub decode-encode_add_partitions_to_txn :
    (version : ℤ) (req : AddPartitionsToTxnRequest) (resp : AddPartitionsToTxnResponse)
    (rest : Bytes)
    → IsAddPartitionsToTxnRequest req
    → IsAddPartitionsToTxnResponse resp
    → (decode_request version (encode_request version req ++ rest) ≡ ok (req, rest))
      × (decode_response version (encode_response version resp ++ rest) ≡ ok (resp, rest))
decode-encode_add_partitions_to_txn version req resp rest h_req h_resp =
    ((reads_request version req h_req).taken rest, (reads_response version resp h_resp).taken rest)
