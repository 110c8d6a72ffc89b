-- ===== src/Protocol.antt =====
-- crates/oxidemq-protocol/src: the wire.
pub mod Codec
pub mod Parser
pub mod ErrorCode
pub mod ApiKeys
pub mod Header
pub mod Advertised
pub mod Robust
pub mod Reader
pub mod Flexible
pub mod Messages
