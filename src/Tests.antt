-- ===== src/Tests.antt =====
-- The theorems at concrete inputs.
pub mod Logs
pub mod Wire
pub mod Brokers
pub mod Messages
pub mod Partitions
