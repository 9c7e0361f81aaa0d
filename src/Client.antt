-- ===== src/Client.antt =====
-- The parts of olp-cpp-sdk-core that clients of the services are built from: resource names, the
-- cancellation of operations, and requests with their retries.
pub mod Tokenizer
pub mod Hrn
pub mod Cancellation
pub mod Request
pub mod Retry
