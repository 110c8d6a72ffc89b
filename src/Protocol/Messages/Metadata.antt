-- ===== src/Protocol/Messages/Metadata.antt =====
-- crates/oxidemq-protocol/src/messages.rs: the Metadata answer.
use oxide_mq.Base.{◌≡◌, refl, List, [], ◌++◌, map, Option, none, Bool, false, if◌then◌else◌, arith}
use oxide_mq.Base.Int.{ℤ, pos, leb_ℤ}
use oxide_mq.Base.Result.{ok}
use oxide_mq.Bytes.{Bytes, get_i32, put_i32}
use oxide_mq.Broker.Codes.{KafkaErrorCode}
use oxide_mq.Protocol.Parser.{read_string, write_string}
use oxide_mq.Protocol.Reader.{
  Reader, ◌>>=◌, returns, ◌▸◌, read_if, write_if, get_bool, put_bool, get_error, put_error,
  get_string, put_string, get_vec, put_vec, repeated, get_count, IsI32, IsText, IsOptionalText,
  IsVec,
}
use oxide_mq.Protocol.Reader.Laws.{
  Reads, reads_then, reads_last, reads_if, reads_i32, reads_bool, reads_error, reads_string,
  reads_text, reads_i32s, reads_list, reads_count,
}

-- The offline replicas of a partition, which are read and dropped.
unfoldable pub skip_offline : Reader (List ℤ)
skip_offline = get_count >>= (λ n. repeated n get_i32)

reads_no_offline : Reads skip_offline (put_i32 (pos 0)) []
unfolding skip_offline repeated
reads_no_offline = reads_last _ (reads_count 0 (omega arith)) refl

pub record BrokerMetadata : Type 0 where
  pub node_id : ℤ
  pub host : Bytes
  pub port : ℤ
  pub rack : Option Bytes

unfoldable pub encode_broker : ℤ → BrokerMetadata → Bytes
encode_broker version m =
    put_i32 m.node_id
    ▸ put_string m.host
    ▸ put_i32 m.port
    ▸ write_if (leb_ℤ (pos 1) version) (write_string m.rack)

unfoldable pub decode_broker : ℤ → Reader BrokerMetadata
decode_broker version = do
  node_id ← get_i32
  host ← get_string
  port ← get_i32
  rack ← read_if (leb_ℤ (pos 1) version) read_string none
  returns (record { node_id = node_id; host = host; port = port; rack = rack })

pub record IsBrokerMetadata (m : BrokerMetadata) : Type 0 where
  pub node_id_in : IsI32 m.node_id
  pub host_in : IsText m.host
  pub port_in : IsI32 m.port
  pub rack_in : IsOptionalText m.rack

-- What a version carries of it; the decoder's defaults stand for the rest.
unfoldable pub broker_at : ℤ → BrokerMetadata → BrokerMetadata
broker_at version m = record {
  node_id = m.node_id;
  host = m.host;
  port = m.port;
  rack = if leb_ℤ (pos 1) version then m.rack else none;
}

reads_broker :
    (version : ℤ) (m : BrokerMetadata)
    → IsBrokerMetadata m
    → Reads (decode_broker version) (encode_broker version m) (broker_at version m)
unfolding decode_broker encode_broker broker_at
reads_broker version m h = reads_then _ (reads_i32 _ h.node_id_in) (
    reads_then _ (reads_string _ h.host_in) (
      reads_then _ (reads_i32 _ h.port_in)
        (reads_last _ (reads_if _ _ (reads_text _ h.rack_in)) refl)))

pub record PartitionMetadata : Type 0 where
  pub error_code : KafkaErrorCode
  pub partition_index : ℤ
  pub leader_id : ℤ
  pub leader_epoch : ℤ
  pub replica_nodes : List ℤ
  pub isr_nodes : List ℤ

unfoldable pub encode_partition : ℤ → PartitionMetadata → Bytes
encode_partition version m =
    put_error m.error_code
    ▸ put_i32 m.partition_index
    ▸ put_i32 m.leader_id
    ▸ write_if (leb_ℤ (pos 7) version) (put_i32 m.leader_epoch)
    ▸ put_vec put_i32 m.replica_nodes
    ▸ put_vec put_i32 m.isr_nodes
    ▸ write_if (leb_ℤ (pos 5) version) (put_i32 (pos 0))

unfoldable pub decode_partition : ℤ → Reader PartitionMetadata
decode_partition version = do
  error_code ← get_error
  partition_index ← get_i32
  leader_id ← get_i32
  leader_epoch ← read_if (leb_ℤ (pos 7) version) get_i32 (pos 0)
  replica_nodes ← get_vec get_i32
  isr_nodes ← get_vec get_i32
  _ ← read_if (leb_ℤ (pos 5) version) skip_offline []
  returns (record {
    error_code = error_code;
    partition_index = partition_index;
    leader_id = leader_id;
    leader_epoch = leader_epoch;
    replica_nodes = replica_nodes;
    isr_nodes = isr_nodes;
  })

pub record IsPartitionMetadata (m : PartitionMetadata) : Type 0 where
  pub partition_index_in : IsI32 m.partition_index
  pub leader_id_in : IsI32 m.leader_id
  pub leader_epoch_in : IsI32 m.leader_epoch
  pub replica_nodes_in : IsVec IsI32 m.replica_nodes
  pub isr_nodes_in : IsVec IsI32 m.isr_nodes

-- What a version carries of it; the decoder's defaults stand for the rest.
unfoldable pub partition_at : ℤ → PartitionMetadata → PartitionMetadata
partition_at version m = record {
  error_code = m.error_code;
  partition_index = m.partition_index;
  leader_id = m.leader_id;
  leader_epoch = if leb_ℤ (pos 7) version then m.leader_epoch else pos 0;
  replica_nodes = m.replica_nodes;
  isr_nodes = m.isr_nodes;
}

reads_partition :
    (version : ℤ) (m : PartitionMetadata)
    → IsPartitionMetadata m
    → Reads (decode_partition version) (encode_partition version m) (partition_at version m)
unfolding decode_partition encode_partition partition_at
reads_partition version m h = reads_then _ (reads_error _) (
    reads_then _ (reads_i32 _ h.partition_index_in) (
      reads_then _ (reads_i32 _ h.leader_id_in) (
        reads_then _ (reads_if _ _ (reads_i32 _ h.leader_epoch_in)) (
          reads_then _ (reads_i32s _ h.replica_nodes_in) (
            reads_then _ (reads_i32s _ h.isr_nodes_in)
              (reads_last _ (reads_if _ _ (reads_no_offline)) refl))))))

pub record TopicMetadata : Type 0 where
  pub error_code : KafkaErrorCode
  pub name : Bytes
  pub is_internal : Bool
  pub partitions : List PartitionMetadata

unfoldable pub encode_topic : ℤ → TopicMetadata → Bytes
encode_topic version m =
    put_error m.error_code
    ▸ put_string m.name
    ▸ write_if (leb_ℤ (pos 1) version) (put_bool m.is_internal)
    ▸ put_vec (encode_partition version) m.partitions

unfoldable pub decode_topic : ℤ → Reader TopicMetadata
decode_topic version = do
  error_code ← get_error
  name ← get_string
  is_internal ← read_if (leb_ℤ (pos 1) version) get_bool false
  partitions ← get_vec (decode_partition version)
  returns (record {
    error_code = error_code;
    name = name;
    is_internal = is_internal;
    partitions = partitions;
  })

pub record IsTopicMetadata (m : TopicMetadata) : Type 0 where
  pub name_in : IsText m.name
  pub partitions_in : IsVec IsPartitionMetadata m.partitions

-- What a version carries of it; the decoder's defaults stand for the rest.
unfoldable pub topic_at : ℤ → TopicMetadata → TopicMetadata
topic_at version m = record {
  error_code = m.error_code;
  name = m.name;
  is_internal = if leb_ℤ (pos 1) version then m.is_internal else false;
  partitions = map (partition_at version) m.partitions;
}

reads_topic :
    (version : ℤ) (m : TopicMetadata)
    → IsTopicMetadata m
    → Reads (decode_topic version) (encode_topic version m) (topic_at version m)
unfolding decode_topic encode_topic topic_at
reads_topic version m h = reads_then _ (reads_error _) (
    reads_then _ (reads_string _ h.name_in) (
      reads_then _ (reads_if _ _ (reads_bool _))
        (reads_last _ (reads_list _ _ _ _ (reads_partition version) _ h.partitions_in) refl)))

pub record MetadataResponse : Type 0 where
  pub throttle_time_ms : ℤ
  pub brokers : List BrokerMetadata
  pub cluster_id : Option Bytes
  pub controller_id : ℤ
  pub topics : List TopicMetadata

unfoldable pub encode_response : ℤ → MetadataResponse → Bytes
encode_response version m =
    write_if (leb_ℤ (pos 3) version) (put_i32 m.throttle_time_ms)
    ▸ put_vec (encode_broker version) m.brokers
    ▸ write_if (leb_ℤ (pos 2) version) (write_string m.cluster_id)
    ▸ write_if (leb_ℤ (pos 1) version) (put_i32 m.controller_id)
    ▸ put_vec (encode_topic version) m.topics

unfoldable pub decode_response : ℤ → Reader MetadataResponse
decode_response version = do
  throttle_time_ms ← read_if (leb_ℤ (pos 3) version) get_i32 (pos 0)
  brokers ← get_vec (decode_broker version)
  cluster_id ← read_if (leb_ℤ (pos 2) version) read_string none
  controller_id ← read_if (leb_ℤ (pos 1) version) get_i32 (pos 0)
  topics ← get_vec (decode_topic version)
  returns (record {
    throttle_time_ms = throttle_time_ms;
    brokers = brokers;
    cluster_id = cluster_id;
    controller_id = controller_id;
    topics = topics;
  })

pub record IsMetadataResponse (m : MetadataResponse) : Type 0 where
  pub throttle_time_ms_in : IsI32 m.throttle_time_ms
  pub brokers_in : IsVec IsBrokerMetadata m.brokers
  pub cluster_id_in : IsOptionalText m.cluster_id
  pub controller_id_in : IsI32 m.controller_id
  pub topics_in : IsVec IsTopicMetadata m.topics

-- What a version carries of it; the decoder's defaults stand for the rest.
unfoldable pub response_at : ℤ → MetadataResponse → MetadataResponse
response_at version m = record {
  throttle_time_ms = if leb_ℤ (pos 3) version then m.throttle_time_ms else pos 0;
  brokers = map (broker_at version) m.brokers;
  cluster_id = if leb_ℤ (pos 2) version then m.cluster_id else none;
  controller_id = if leb_ℤ (pos 1) version then m.controller_id else pos 0;
  topics = map (topic_at version) m.topics;
}

reads_response :
    (version : ℤ) (m : MetadataResponse)
    → IsMetadataResponse m
    → Reads (decode_response version) (encode_response version m) (response_at version m)
unfolding decode_response encode_response response_at
reads_response version m h = reads_then _ (reads_if _ _ (reads_i32 _ h.throttle_time_ms_in)) (
    reads_then _ (reads_list _ _ _ _ (reads_broker version) _ h.brokers_in) (
      reads_then _ (reads_if _ _ (reads_text _ h.cluster_id_in)) (
        reads_then _ (reads_if _ _ (reads_i32 _ h.controller_id_in))
          (reads_last _ (reads_list _ _ _ _ (reads_topic version) _ h.topics_in) refl))))

-- A metadata answer that fits the wire is read back from its bytes in any version, whatever follows,
-- which is left, with what that version carries.
pub decode-encode_metadata :
    (version : ℤ) (resp : MetadataResponse) (rest : Bytes)
    → IsMetadataResponse resp
    → (decode_response version (encode_response version resp ++ rest)
        ≡ ok (response_at version resp, rest))
decode-encode_metadata version resp rest h_resp = (reads_response version resp h_resp).taken rest
