-- ===== src/Comments/Order.antt =====
-- The order of comments in a list: sortComments of service/comments-post-processor.js, and the
-- votes of the reader. `sort` keeps the order of comments that compare equal; it is the insertion of one
-- comment after the other.
pub mod Laws
use ucom_backend.Prelude.{
  ℕ, zero, suc, Bool, true, false, not, ◌&&◌, Option, none, some, List, [], ◌∷◌, ◌==◌,
  if◌then◌else◌, ltb,
}
use ucom_backend.Prelude.Int.{ℤ, pos, negsuc, sub_ℕ}
use ucom_backend.Comments.State.{Comment}

-- The function given to `sort`.
abbrev pub compare_paths : List ℕ → List ℕ → ℤ
compare_paths [] [] = pos 0
compare_paths (x ∷ xs) [] = pos 1
compare_paths [] (y ∷ ys) = negsuc 0
compare_paths (x ∷ xs) (y ∷ ys) = if x == y then compare_paths xs ys else sub_ℕ x y

abbrev pub is_positive : ℤ → Bool
is_positive (pos zero) = false
is_positive (pos (suc n)) = true
is_positive (negsuc n) = false

-- The comparison of two comments.
abbrev pub comes_after : Comment → Comment → Bool
comes_after a b = is_positive (compare_paths a.path b.path)

abbrev pub insert_sorted : Comment → List Comment → List Comment
insert_sorted c [] = c ∷ []
insert_sorted c (d ∷ ds) = if comes_after c d then d ∷ insert_sorted c ds else c ∷ (d ∷ ds)

unfoldable pub sort_comments : List Comment → List Comment
sort_comments [] = []
sort_comments (c ∷ cs) = insert_sorted c (sort_comments cs)

pub data Vote : Type 0 where
  no_vote upvote downvote : Vote

-- A row of activity_user_comment.
pub record CommentActivity : Type 0 where
  pub activity_type_id : ℕ
  pub user_id_from : ℕ

-- addMyselfData, for one comment: the last vote of the reader stays.
module _ (upvote_id downvote_id : ℕ) where
  unfoldable pub myself_vote : ℕ → List CommentActivity → Vote → Vote
  myself_vote user [] vote = vote
  myself_vote user (a ∷ rest) vote = myself_vote user rest (
      if a.activity_type_id == upvote_id && a.user_id_from == user
      then upvote
      else (if a.activity_type_id == downvote_id && a.user_id_from == user then downvote else vote))
