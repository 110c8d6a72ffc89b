-- ===== src/Broker/Acl/Kinds.antt =====
-- The enumerations of the access rules (crates/oxidemq-protocol/src/messages.rs), each with the
-- number that stands for it on the wire.
pub mod ResourceType
pub mod PatternType
pub mod Operation
pub mod Permission
pub use ResourceType.{AclResourceType, resource_type_eq}
pub use PatternType.{AclPatternType, pattern_type_eq}
pub use Operation.{AclOperation, operation_eq}
pub use Permission.{AclPermission, permission_eq}
