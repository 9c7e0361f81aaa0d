-- ===== src/Authentication.antt =====
-- The part of olp-cpp-sdk-authentication that signs requests.
pub mod Crypto
