-- ===== src/Social/Votes.antt =====
-- Upvotes and downvotes of posts and comments: lib/posts/post-activity-service.js,
-- lib/comments/comments-activity-service.js, users-activity-vote-repository.js and the counters
-- `current_vote` of the tables of posts and comments. The two services have the same steps; what
-- differs between them is a function of the kind of content.
pub mod Laws
pub mod Requests
use text.Mathlib.Text.{◌==◌ as str_eq}
use ucom_backend.Prelude.{
  ℕ, String, Bool, true, false, not, ◌||◌, Option, none, some, List, ◌∷◌, map, ◌==◌, if◌then◌else◌,
  find,
}
use ucom_backend.Prelude.Int.{ℤ, pos, ◌+ℤ◌, ◌-ℤ◌}
use ucom_backend.Prelude.Action.{
  Action, Result, ok, err, Error, app_error, bad_request, db_error, js_error, pure, throw, gets,
  modify, throw_if, or_throw, transaction, ◌>>=◌, ◌>>◌,
}
use ucom_backend.Dictionary.{Dictionaries}
use ucom_backend.Social.Index.{IndexRow, exists, insert_row}
use ucom_backend.Social.State.{Activity, Job, group_content_interaction, next_id, get_eos_version}

pub data Kind : Type 0 where
  post comment : Kind

-- A row of posts or comments; `organization_id` is 0 for null.
pub record Content : Type 0 where
  pub id : ℕ
  pub user_id : ℕ
  pub organization_id : ℕ
  pub current_vote : ℤ

-- A row of activity_user_comment.
pub record UserComment : Type 0 where
  pub user_id_from : ℕ
  pub comment_id_to : ℕ
  pub activity_type_id : ℕ

pub record Votes : Type 0 where
  pub posts : List Content
  pub comments : List Content
  pub votes : List IndexRow
  pub activities : List Activity
  pub user_comments : List UserComment
  pub jobs : List Job

abbrev pub table : Kind → Votes → List Content
table post s = s.posts
table comment s = s.comments

abbrev pub set_table : Kind → List Content → Votes → Votes
set_table post rows s = record s { posts = rows }
set_table comment rows s = record s { comments = rows }

abbrev pub find_one_by_id : ℕ → List Content → Option Content
find_one_by_id id = find (λ c. c.id == id)

abbrev pub change_vote : (ℤ → ℤ) → ℕ → Content → Content
change_vote f id c = if c.id == id then record c { current_vote = f c.current_vote } else c

module _ (d : Dictionaries) where
  abbrev pub entity_name : Kind → String
  entity_name post = d.posts
  entity_name comment = d.comments

  -- getEventId of the two services
  unfoldable pub get_event_id : Kind → ℕ → Content → Option ℕ
  get_event_id post type c =
      if type == d.upvote_id
      then some (
          if c.organization_id == 0
          then d.user_upvotes_post_of_other_user
          else d.user_upvotes_post_of_org)
      else if type == d.downvote_id
      then some (
          if c.organization_id == 0
          then d.user_downvotes_post_of_other_user
          else d.user_downvotes_post_of_org)
      else none
  get_event_id comment type c =
      if type == d.upvote_id
      then some (
          if c.organization_id == 0
          then d.user_upvotes_comment_of_other_user
          else d.user_upvotes_comment_of_org)
      else if type == d.downvote_id
      then some (
          if c.organization_id == 0
          then d.user_downvotes_comment_of_other_user
          else d.user_downvotes_comment_of_org)
      else none

  -- checkVotePreconditionsAndGetModelTo, preProcessCommentVoteAndGetCommentTo
  unfoldable pub check_vote_preconditions : Kind → ℕ → ℕ → String → Action Votes Content
  check_vote_preconditions kind user id signed = do
    does_exist ← gets (λ s. exists user id (entity_name kind) s.votes)
    throw_if does_exist (bad_request "Vote duplication is not allowed")
    found ← gets (λ s. find_one_by_id id (table kind s))
    content ← or_throw found (js_error "user_id of null")
    throw_if (content.user_id == user)
        (bad_request "It is not allowed to vote for your own comment")
    throw_if (str_eq signed "") (bad_request "Please provide a signed_transaction")
    pure content

  abbrev pub vote_activity : Kind → ℕ → String → ℕ → ℕ → ℕ → Activity
  vote_activity kind type signed user id event = record {
    activity_type_id = type;
    activity_group_id = group_content_interaction;
    user_id_from = user;
    entity_id_to = id;
    entity_name = entity_name kind;
    signed_transaction = signed;
    event_id = event;
    entity_id_on = none;
    entity_name_on = none;
  }

  -- createForUserVotesPost, createForUserVotesComment
  unfoldable pub create_for_user_votes : Kind → ℕ → String → ℕ → ℕ → ℕ → Action Votes ℕ
  create_for_user_votes kind type signed user id event s = (
    ok (next_id s.activities),
    record s { activities = vote_activity kind type signed user id event ∷ s.activities },
  )

  -- `increment` for an upvote, `decrement` otherwise
  abbrev pub step_of : ℕ → ℤ → ℤ
  step_of type v = if type == d.upvote_id then v +ℤ pos 1 else v -ℤ pos 1

  -- changeCurrentVotesByActivityType of the two repositories
  unfoldable pub change_current_votes : Kind → ℕ → ℕ → Action Votes (Unit {0})
  change_current_votes kind id type s =
      if type == d.upvote_id || type == d.downvote_id
      then (ok tt, set_table kind (map (change_vote (step_of type) id) (table kind s)) s)
      else (err (app_error "Allowed interaction types"), s)

  abbrev pub vote_row : Kind → ℕ → ℕ → ℕ → IndexRow
  vote_row kind user id type = record {
    user_id = user;
    entity_id = id;
    entity_name = entity_name kind;
    interaction_type = type;
  }

  abbrev put_votes : Option (List IndexRow) → Action Votes (Unit {0})
  put_votes none s = (err (db_error "users_activity_vote"), s)
  put_votes (some rows) s = (ok tt, record s { votes = rows })

  -- insertOnePostVote, insertOneCommentVote
  unfoldable pub insert_one_vote : Kind → ℕ → ℕ → ℕ → Action Votes (Unit {0})
  insert_one_vote kind user id type s =
      put_votes (insert_row (vote_row kind user id type) s.votes) s

  -- ActivityUserCommentRepository.createNewActivity, for comments only
  abbrev pub create_user_comment : Kind → ℕ → ℕ → ℕ → Action Votes (Unit {0})
  create_user_comment post user id type = pure tt
  create_user_comment comment user id type = modify (λ s. record s {
    user_comments =
        record { user_id_from = user; comment_id_to = id; activity_type_id = type }
        ∷ s.user_comments;
  })

  -- the transaction of userVotesPost and userVotesComment
  unfoldable pub vote_transaction : Kind → ℕ → ℕ → ℕ → String → ℕ → Action Votes ℕ
  unfolding create_for_user_votes change_current_votes insert_one_vote
  vote_transaction kind user id type signed event = transaction (do
    activity ← create_for_user_votes kind type signed user id event
    change_current_votes kind id type
    insert_one_vote kind user id type
    create_user_comment kind user id type
    pure activity)

  abbrev push_job : Job → Action Votes (Unit {0})
  push_job job = modify (λ s. record s { jobs = job ∷ s.jobs })

  unfoldable pub user_votes : Kind → ℕ → ℕ → ℕ → String → Action Votes (Unit {0})
  user_votes kind user id type signed = do
    content ← check_vote_preconditions kind user id signed
    event ← or_throw (get_event_id kind type content) (js_error "Unsupported activityTypeId")
    activity ← vote_transaction kind user content.id type signed event
    version ← get_eos_version signed
    push_job (record { activity_id = activity; eos_js_v2 = version })

  -- getCurrentVote: `none` for null
  abbrev pub get_current_vote : Kind → ℕ → Action Votes (Option ℤ)
  get_current_vote kind id =
      gets (λ s. elim (find_one_by_id id (table kind s)) [
        | none ↦ none
        | some c ↦ some c.current_vote
      ])

  unfoldable pub user_upvotes : Kind → ℕ → ℕ → String → Action Votes (Option ℤ)
  user_upvotes kind user id signed = do
    user_votes kind user id d.upvote_id signed
    get_current_vote kind id

  unfoldable pub user_downvotes : Kind → ℕ → ℕ → String → Action Votes (Option ℤ)
  user_downvotes kind user id signed = do
    user_votes kind user id d.downvote_id signed
    get_current_vote kind id

  -- What the two services name: their own steps are the common ones at their kind of content.
  abbrev pub check_vote_preconditions_and_get_model_to : ℕ → ℕ → String → Action Votes Content
  check_vote_preconditions_and_get_model_to = check_vote_preconditions post

  abbrev pub pre_process_comment_vote_and_get_comment_to : ℕ → ℕ → String → Action Votes Content
  pre_process_comment_vote_and_get_comment_to = check_vote_preconditions comment

  abbrev pub get_post_event_id : ℕ → Content → Option ℕ
  get_post_event_id = get_event_id post

  abbrev pub get_comment_event_id : ℕ → Content → Option ℕ
  get_comment_event_id = get_event_id comment

  abbrev pub user_upvotes_post : ℕ → ℕ → String → Action Votes (Option ℤ)
  user_upvotes_post = user_upvotes post

  abbrev pub user_downvotes_post : ℕ → ℕ → String → Action Votes (Option ℤ)
  user_downvotes_post = user_downvotes post

  abbrev pub user_upvotes_comment : ℕ → ℕ → String → Action Votes (Option ℤ)
  user_upvotes_comment = user_upvotes comment

  abbrev pub user_downvotes_comment : ℕ → ℕ → String → Action Votes (Option ℤ)
  user_downvotes_comment = user_downvotes comment

  abbrev pub get_current_comment_vote : ℕ → Action Votes (Option ℤ)
  get_current_comment_vote = get_current_vote comment
