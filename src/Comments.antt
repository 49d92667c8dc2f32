-- ===== src/Comments.antt =====
-- Comments: lib/comments.
pub mod State
pub mod Creation
pub mod Order
