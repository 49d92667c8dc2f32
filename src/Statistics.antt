-- ===== src/Statistics.antt =====
-- The statistics of lib/stats: the events of the importance of posts and organizations, and the
-- changes of the integer statistics.
pub mod Importance
pub mod Delta
