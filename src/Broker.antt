-- ===== src/Broker.antt =====
-- crates/oxidemq-broker/src: the coordinators, the access rules and the partitions.
pub mod Codes
pub mod Coordinator
pub mod Transaction
pub mod SchemaRegistry
pub mod Acl
pub mod Partition
