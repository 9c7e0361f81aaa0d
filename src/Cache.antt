-- ===== src/Cache.antt =====
-- olp-cpp-sdk-core: the caches, in memory and on disk.
pub mod Lru
pub mod Memory
pub mod Disk
pub mod Default
