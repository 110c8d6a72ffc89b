-- ===== src/Lib.antt =====
-- oxideMq, a message broker that speaks Kafka's protocol and keeps its streams in a write-ahead log
-- and in an object store. The library models the parts that hold the program's own logic. A request
-- goes from the broker's handlers to a partition, from there to a stream, which writes it to the log
-- and to a cache before it answers; recovery rebuilds the streams from the log after a crash.
--
--   Base, Bytes        shared notation, maps, integers, results; byte buffers and big-endian numbers
--   Crc                crates/oxidemq-core/src/bytes_util.rs: compute_crc32c
--   Wal.Frame          crates/oxidemq-wal/src/frame.rs: WalRecord::encode, WalRecord::decode
--   Wal.Segment        crates/oxidemq-wal/src/segment.rs: a directory of segments, files as bytes
--   Wal.Recovery       crates/oxidemq-wal/src/recovery.rs: recover; Reconcile: reconcile_stream_records
--   Wal.Memory         crates/oxidemq-wal/src/memory.rs: MemoryWal with its leases
--   Protocol.Codec     crates/oxidemq-protocol/src/codec.rs: KafkaFrameCodec
--   Protocol.Parser    crates/oxidemq-protocol/src/parser.rs: KafkaDecoder, KafkaEncoder
--   Protocol.Header    crates/oxidemq-protocol/src/header.rs: RequestHeader, ResponseHeader
--   Protocol.ApiKeys, Protocol.ErrorCode  crates/oxidemq-protocol/src/lib.rs, error_code.rs
--   Protocol.Messages  crates/oxidemq-protocol/src/messages.rs: a module per API with its requests and
--                      answers; Protocol.Reader and Protocol.Flexible hold the reads they share
--   Protocol.Advertised  messages.rs: ApiVersionsResponse::default_supported; Robust: no panics
--   Stream.BlockCache  crates/oxidemq-s3stream/src/block_cache.rs: BlockCache
--   Stream.LogCache    crates/oxidemq-s3stream/src/log_cache.rs: LogCache
--   Broker.Coordinator crates/oxidemq-broker/src/coordinator.rs: GroupCoordinator
--   Broker.Transaction crates/oxidemq-broker/src/transaction.rs: TransactionCoordinator
--   Broker.Acl         crates/oxidemq-broker/src/acl.rs: AclAuthorizer
--   Broker.Partition   crates/oxidemq-broker/src/partition.rs: Partition over the interface StreamOps
--   Broker.SchemaRegistry crates/oxidemq-broker/src/schema_registry.rs: SchemaRegistry
--
-- A method that changes a shared object is a function from the object's state to the next one, with
-- its answer, run without another thread in between; in Wal.Memory the parts that `append` and
-- `append_with_epoch` do under one lock each are definitions of their own, and Wal.Memory.Lease has
-- the steps of several threads in any order. Names are those of the source. An
-- answer that is an error is a value, and so is a panic where the code can index out of range.
-- Integers of w bits are numbers with `% 2 ^ w` written out, signed ones are integers that wrap at
-- `of_word`. A hash map is an association list, whose order stands for the order of iteration that
-- the program leaves open. The loop of recovery over a segment runs on fuel, one more than the
-- bytes of the segment, which is enough as each record takes at least its header; the eviction of
-- the log cache runs on fuel, one more than the records cached, as each round takes one away.
--
-- A text is the list of its bytes, with a test of UTF-8. An encoder is the bytes that it appends, a
-- decoder a function from the bytes left to a value with the bytes left after it. Memory is not
-- modelled: `Vec::with_capacity` panics only past the largest size of an object. The number of groups
-- of a varint is bounded by fuel of nine rounds, enough for 64 bits; the batches of an append by a
-- round per byte, as each takes 21 bytes or more.
--
-- Not modelled: the file log, the object format, the streams, record batches and the requests of
-- DescribeConfigs, CreatePartitions and Metadata, the request handler, SASL, the server and its
-- configuration, benchmarks. Taken as parameters: the partitions in Broker.Transaction and the
-- stream in Broker.Partition (interfaces), the standard library's and serde_json's functions on
-- texts in Broker.SchemaRegistry, `format!` in Broker.Coordinator. Log lines, metrics and the
-- texts of errors are left out.
pub mod Base
pub mod Bytes
pub mod Crc
pub mod Wal
pub mod Protocol
pub mod Stream
pub mod Broker
pub mod Tests
