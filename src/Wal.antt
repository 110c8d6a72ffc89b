-- ===== src/Wal.antt =====
-- crates/oxidemq-wal: the write-ahead log.
pub mod Frame
pub mod Segment
pub mod Recovery
pub mod Memory
