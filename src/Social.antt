-- ===== src/Social.antt =====
-- What users do to one another and to content: lib/users/user-activity-service.js,
-- lib/users/service/users-trust-service.js, lib/posts/post-activity-service.js,
-- lib/comments/comments-activity-service.js, and the index tables behind them.
pub mod Index
pub mod State
pub mod Follow
pub mod Trust
pub mod Votes
pub mod Activities
pub mod Organizations
pub mod Nodes
