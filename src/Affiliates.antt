-- ===== src/Affiliates.antt =====
-- The referral programs: lib/affiliates.
pub mod State
pub mod Clicks
pub mod Referral
pub mod Conversions
pub mod Streams
