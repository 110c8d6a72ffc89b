-- ===== src/Stream.antt =====
-- crates/oxidemq-s3stream: the caches and the format of the objects in the store.
pub mod BlockCache
pub mod LogCache
