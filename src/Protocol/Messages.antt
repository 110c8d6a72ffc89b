-- ===== src/Protocol/Messages.antt =====
-- crates/oxidemq-protocol/src/messages.rs: the bodies of requests and answers, a module per API.
pub mod Produce
pub mod Fetch
pub mod ListOffsets
pub mod OffsetCommit
pub mod OffsetFetch
pub mod FindCoordinator
pub mod Heartbeat
pub mod LeaveGroup
pub mod InitProducerId
pub mod AddPartitionsToTxn
pub mod AddOffsetsToTxn
pub mod EndTxn
pub mod CreateAcls
pub mod DescribeAcls
pub mod DeleteAcls
pub mod DeleteTopics
pub mod ListGroups
pub mod DescribeGroups
pub mod DeleteGroups
pub mod AlterConfigs
pub mod DeleteRecords
pub mod SaslAuthenticate
pub mod Metadata
pub mod CreateTopics
pub mod SaslHandshake
pub mod ApiVersions
