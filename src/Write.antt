-- ===== src/Write.antt =====
-- The sources of olp-cpp-sdk-dataservice-write/src.
pub mod ThreadSafeQueue
