-- ===== src/Network.antt =====
-- The sources of olp-cpp-sdk-core/src/network.
pub mod PriorityQueue
pub mod Quota
