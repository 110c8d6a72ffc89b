-- ===== src/Protocol/Messages/DeleteRecords.antt =====
-- crates/oxidemq-protocol/src/messages.rs: the DeleteRecords request.
use oxide_mq.Base.{◌≡◌, refl, List, ◌++◌}
use oxide_mq.Base.Int.{ℤ, IsI64}
use oxide_mq.Base.Result.{ok}
use oxide_mq.Bytes.{Bytes, get_i32, get_i64, put_i32, put_i64}
use oxide_mq.Protocol.Reader.{
  Reader, ◌>>=◌, returns, ◌▸◌, get_string, put_string, put_vec, IsI32, IsText, IsVec,
}
use oxide_mq.Protocol.Reader.Laws.{Reads, reads_then, reads_last, reads_string}
use oxide_mq.Protocol.Flexible.{guarded, pair, get_checked}
use oxide_mq.Protocol.Flexible.Laws.{guarded_i32, guarded_i32_i64, reads_same_checked_list}

pub record DeleteRecordsPartition : Type 0 where
  pub partition_index : ℤ
  pub offset : ℤ

unfoldable pub encode_partition : DeleteRecordsPartition → Bytes
encode_partition m = (put_i32 m.partition_index ▸ put_i64 m.offset)

unfoldable pub decode_partition : Reader DeleteRecordsPartition
decode_partition = do
  (partition_index, offset) ← guarded 12 (pair get_i32 get_i64)
  returns (record { partition_index = partition_index; offset = offset })

pub record IsDeleteRecordsPartition (m : DeleteRecordsPartition) : Type 0 where
  pub partition_index_in : IsI32 m.partition_index
  pub offset_in : IsI64 m.offset

reads_partition :
    (m : DeleteRecordsPartition)
    → IsDeleteRecordsPartition m
    → Reads decode_partition (encode_partition m) m
unfolding decode_partition encode_partition
reads_partition m h =
    reads_last _ (guarded_i32_i64 m.partition_index m.offset h.partition_index_in h.offset_in) refl

pub record DeleteRecordsTopic : Type 0 where
  pub name : Bytes
  pub partitions : List DeleteRecordsPartition

unfoldable pub encode_topic : DeleteRecordsTopic → Bytes
encode_topic m = put_string m.name ▸ put_vec encode_partition m.partitions

unfoldable pub decode_topic : Reader DeleteRecordsTopic
decode_topic = do
  name ← get_string
  partitions ← get_checked decode_partition
  returns (record { name = name; partitions = partitions })

pub record IsDeleteRecordsTopic (m : DeleteRecordsTopic) : Type 0 where
  pub name_in : IsText m.name
  pub partitions_in : IsVec IsDeleteRecordsPartition m.partitions

reads_topic :
    (m : DeleteRecordsTopic) → IsDeleteRecordsTopic m → Reads decode_topic (encode_topic m) m
unfolding decode_topic encode_topic
reads_topic m h =
    reads_then _ (reads_string _ h.name_in)
      (reads_last _ (reads_same_checked_list _ _ _ reads_partition _ h.partitions_in) refl)

pub record DeleteRecordsRequest : Type 0 where
  pub topics : List DeleteRecordsTopic
  pub timeout_ms : ℤ

unfoldable pub encode_request : ℤ → DeleteRecordsRequest → Bytes
encode_request _ m = put_vec encode_topic m.topics ▸ put_i32 m.timeout_ms

unfoldable pub decode_request : ℤ → Reader DeleteRecordsRequest
decode_request _ = do
  topics ← get_checked decode_topic
  timeout_ms ← guarded 4 get_i32
  returns (record { topics = topics; timeout_ms = timeout_ms })

pub record IsDeleteRecordsRequest (m : DeleteRecordsRequest) : Type 0 where
  pub topics_in : IsVec IsDeleteRecordsTopic m.topics
  pub timeout_ms_in : IsI32 m.timeout_ms

reads_request :
    (version : ℤ) (m : DeleteRecordsRequest)
    → IsDeleteRecordsRequest m
    → Reads (decode_request version) (encode_request version m) m
unfolding decode_request encode_request
reads_request version m h =
    reads_then _ (reads_same_checked_list _ _ _ reads_topic _ h.topics_in)
      (reads_last _ (guarded_i32 _ h.timeout_ms_in) refl)

-- A DeleteRecords request that fits the wire is read back whole from its bytes in any version,
-- whatever follows, which is left.
pub decode-encode_delete_records :
    (version : ℤ) (req : DeleteRecordsRequest) (rest : Bytes)
    → IsDeleteRecordsRequest req
    → (decode_request version (encode_request version req ++ rest) ≡ ok (req, rest))
decode-encode_delete_records version req rest h_req = (reads_request version req h_req).taken rest
