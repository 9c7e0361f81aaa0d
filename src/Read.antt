-- ===== src/Read.antt =====
-- The sources of olp-cpp-sdk-dataservice-read/src.
pub mod MultiRequest
