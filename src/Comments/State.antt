-- ===== src/Comments/State.antt =====
-- The tables of comments and of the statistics of posts, and the history of activities that a new
-- comment is written to. Comments stand newest first. The column `path` is JSON, which is read
-- back as the list it was written from, and null, the empty list here, until it is set; the depth
-- is 0 until then.
use ucom_backend.Prelude.{ℕ, String, Option, List}
use ucom_backend.Social.State.{Social}

pub record Comment : Type 0 where
  pub id : ℕ
  pub user_id : ℕ
  pub commentable_id : ℕ
  pub parent_id : Option ℕ
  pub organization_id : Option ℕ
  pub description : String
  pub blockchain_id : String
  pub path : List ℕ
  pub depth : ℕ

pub record PostStats : Type 0 where
  pub post_id : ℕ
  pub comments_count : ℕ

pub record Discussion : Type 0 where
  pub comments : List Comment
  pub post_stats : List PostStats
  pub social : Social

pub record Organization : Type 0 where
  pub id : ℕ
  pub user_id : ℕ

pub record Post : Type 0 where
  pub id : ℕ
  pub user_id : ℕ
  pub organization : Option Organization
