-- ===== src/Utils.antt =====
-- Text utilities of olp-cpp-sdk-core.
pub mod Url
