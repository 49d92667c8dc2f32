-- ===== src/Tests/Comments.antt =====
-- A post with one comment and its answers.
use mathlib.Core.List.{Perm}
use ucom_backend.Prelude.{
  ℕ, ◌+◌, ◌*◌, inr, length, ◌≡◌, ◌⊎◌, refl, Bool, true, false, none, some, List, [], ◌∷◌, ◌++◌, All,
  arith,
}
use text.Mathlib.Text.{◌==◌ as str_eq}
use ucom_backend.Dictionary.{sample_dictionaries as d}
use ucom_backend.Social.State.{Social}
use ucom_backend.Social.Activities.{Contents}
use ucom_backend.Comments.State.{Comment, Discussion, Post}
use ucom_backend.Comments.Creation.{
  Body, Events, create_new_comment, create_new_comment_on_post, create_new_comment_on_comment,
}
use ucom_backend.Comments.Creation.Tree.{IsConsistent}
use ucom_backend.Comments.Creation.Laws as C
use ucom_backend.Comments.Order.{sort_comments, no_vote, upvote, myself_vote}
use ucom_backend.Comments.Order.Laws as O

abbrev contents : Contents
contents = record {
  blockchain_nodes = "blockchain_nodes";
  type_organization = 4;
  type_comment = 11;
  org_team_invitation = 1;
  org_users_team_invitation = 1;
  user_creates_organization = 1;
  user_updates_organization = 1;
  user_creates_profile = 1;
  user_updates_profile = 1;
  user_has_mentioned_you_in_post = 1;
  user_has_mentioned_you_in_comment = 1;
}

abbrev events : Events
events = record {
  user_comments_org_post = 1;
  user_comments_post = 2;
  user_comments_org_comment = 3;
  user_comments_comment = 4;
}

abbrev nobody : ℕ → ℕ → Bool
nobody organization user = false

-- the length of a path of numbers of one digit
abbrev characters : List ℕ → ℕ
characters path = 2 * length path + 1

abbrev at_path : ℕ → List ℕ → Comment
at_path id path = record {
  id = id;
  user_id = 7;
  commentable_id = 5;
  parent_id = none;
  organization_id = none;
  description = "text";
  blockchain_id = "id";
  path = path;
  depth = 0;
}

abbrev social : Social
social = record { activities = []; follows = []; trusts = []; auto_updates = []; jobs = [] }

abbrev discussion : Discussion
discussion = record {
  comments = at_path 1 (1 ∷ []) ∷ [];
  post_stats = record { post_id = 5; comments_count = 1 } ∷ [];
  social = social;
}

abbrev body : Body
body = record { description = "answer"; blockchain_id = "id2"; signed_transaction = "signed" }

abbrev post : Post
post = record { id = 5; user_id = 8; organization = none }

discussion-IsConsistent : IsConsistent discussion
discussion-IsConsistent = record {
  placed = (record { numbered = omega arith; deep = inr refl; parent = inr refl }, tt);
  counted = (refl, tt);
}

create_new_comment-IsConsistent_example :
    IsConsistent
      (create_new_comment_on_post d contents events nobody characters body
        (some post)
        9
        discussion).1
    × IsConsistent
        (create_new_comment_on_comment d contents events nobody characters body
          (some post)
          1
          9
          discussion).1
create_new_comment-IsConsistent_example =
    C.create_new_comment-IsConsistent d contents events nobody characters discussion body
      (some post) 1 9 discussion-IsConsistent

abbrev answer : Comment
answer = record {
  id = 2;
  user_id = 9;
  commentable_id = 5;
  parent_id = some 1;
  organization_id = none;
  description = "answer";
  blockchain_id = "id2";
  path = 1 ∷ (2 ∷ []);
  depth = 1;
}

unfoldable first_paths : List Comment → List (List ℕ)
first_paths [] = []
first_paths (c ∷ cs) = c.path ∷ first_paths cs

answer_test :
    first_paths
      (create_new_comment_on_comment d contents events nobody characters body
        (some post)
        1
        9
        discussion).1.comments
    ≡ (1 ∷ (2 ∷ [])) ∷ ((1 ∷ []) ∷ [])
unfolding first_paths create_new_comment_on_comment create_new_comment
answer_test = refl

abbrev a : Comment
a = at_path 1 (1 ∷ [])

abbrev b : Comment
b = at_path 2 (2 ∷ [])

abbrev below_a : Comment
below_a = at_path 3 (1 ∷ (3 ∷ []))

abbrev last_below_a : Comment
last_below_a = at_path 4 (1 ∷ (4 ∷ []))

sorted_test :
    sort_comments (last_below_a ∷ (b ∷ (below_a ∷ (a ∷ []))))
    ≡ [] ++ (a ∷ ((below_a ∷ []) ++ (last_below_a ∷ (b ∷ []))))
unfolding sort_comments
sorted_test = refl

sort_comments_lem_example :
    ((O.is_prefix a.path last_below_a.path ≡ false)
      ⊎ All (λ c. O.is_prefix a.path c.path ≡ true) (below_a ∷ []))
    × ((O.is_prefix last_below_a.path a.path ≡ false) ⊎ (a.path ≡ last_below_a.path))
    × Perm
        (sort_comments (last_below_a ∷ (b ∷ (below_a ∷ (a ∷ [])))))
        (last_below_a ∷ (b ∷ (below_a ∷ (a ∷ []))))
sort_comments_lem_example =
    O.sort_comments_lem (last_below_a ∷ (b ∷ (below_a ∷ (a ∷ [])))) [] (below_a ∷ []) (b ∷ []) a
      last_below_a sorted_test

myself_vote_test :
    myself_vote 1 2 9
      (record { activity_type_id = 1; user_id_from = 9 }
        ∷ (record { activity_type_id = 2; user_id_from = 8 } ∷ []))
      no_vote
    ≡ upvote
unfolding myself_vote
myself_vote_test = refl
