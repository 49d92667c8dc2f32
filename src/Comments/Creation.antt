-- ===== src/Comments/Creation.antt =====
-- Creating a comment: service/comments-creator-service.js, with incrementCommentCount of
-- lib/posts/stats. `json_length` is the length of a path as JSON. Sanitizing the body and its
-- images is left out. A comment on a post or on a comment is found by the caller's id; a `null` of
-- an event's id is 0.
pub mod Tree
pub mod Placed
pub mod Laws
use text.Mathlib.Text.{◌==◌ as str_eq}
use ucom_backend.Prelude.{
  ℕ, suc, ◌+◌, String, Bool, true, false, Option, none, some, List, [], ◌∷◌, ◌++◌, ◌==◌,
  if◌then◌else◌, find, length, ltb,
}
use ucom_backend.Prelude.Action.{
  Action, Result, Error, ok, err, bad_request, js_error, db_error, pure, throw_if, gets, modify,
  or_throw, transaction, ◌>>=◌, ◌>>◌,
}
use ucom_backend.Dictionary.{Dictionaries}
use ucom_backend.Social.State.{Social, Job, create_new_activity}
use ucom_backend.Social.Activities.{Contents}
use ucom_backend.Social.Activities.Content.{process_comment_creation}
use ucom_backend.Traces.State.{text_length}
use ucom_backend.Comments.State.{Comment, PostStats, Discussion, Organization, Post}

pub record Body : Type 0 where
  pub description : String
  pub blockchain_id : String
  pub signed_transaction : String

-- EventsIdsDictionary
pub record Events : Type 0 where
  pub user_comments_org_post : ℕ
  pub user_comments_post : ℕ
  pub user_comments_org_comment : ℕ
  pub user_comments_comment : ℕ

-- calcPathAndDepth; a parent without a path is an error of `parentPath.push`
abbrev pub path_below : ℕ → List ℕ → Option (List ℕ)
path_below id [] = none
path_below id (p ∷ ps) = some ((p ∷ ps) ++ (id ∷ []))

abbrev pub path_of : ℕ → Option Comment → Option (List ℕ)
path_of id none = some (id ∷ [])
path_of id (some parent) = path_below id parent.path

abbrev pub depth_of : Option Comment → ℕ
depth_of none = 0
depth_of (some parent) = parent.depth + 1

abbrev pub id_of : Option Comment → Option ℕ
id_of none = none
id_of (some parent) = some parent.id

-- processOrganizationAction; `is_team_member` reads the table of teams.
module _ (is_team_member : ℕ → ℕ → Bool) where
  abbrev pub organization_for : Option Organization → ℕ → Option ℕ
  organization_for none user = none
  organization_for (some o) user =
      if o.user_id == user
      then some o.id
      else (if is_team_member o.id user then some o.id else none)

abbrev pub is_some {ℓ} : {A : Type ℓ} → Option A → Bool
is_some none = false
is_some (some a) = true

-- increaseField of post-stats-repository.js
abbrev pub increment_comment_count : ℕ → List PostStats → List PostStats
increment_comment_count post [] = []
increment_comment_count post (s ∷ ss) =
    (if s.post_id == post then record s { comments_count = s.comments_count + 1 } else s)
    ∷ increment_comment_count post ss

abbrev pub next_id : List Comment → ℕ
next_id comments = suc (length comments)

abbrev pub new_comment : List Comment → Body → Post → Option Comment → Option ℕ → ℕ → Comment
new_comment comments body post parent organization user = record {
  id = next_id comments;
  user_id = user;
  commentable_id = post.id;
  parent_id = id_of parent;
  organization_id = organization;
  description = body.description;
  blockchain_id = body.blockchain_id;
  path = [];
  depth = 0;
}

-- `newComment.update`
abbrev pub with_path : List ℕ → ℕ → Comment → Comment
with_path path depth c = record c { path = path; depth = depth }

abbrev pub set_path : ℕ → List ℕ → ℕ → List Comment → List Comment
set_path id path depth [] = []
set_path id path depth (c ∷ cs) =
    (if c.id == id then with_path path depth c else c) ∷ set_path id path depth cs

-- The calls of the social store.
abbrev pub socially_run : {A : Type 0} → Discussion → Result A × Social → Result A × Discussion
socially_run s (r, social) = (r, record s { social = social })

abbrev pub socially : {A : Type 0} → Action Social A → Action Discussion A
socially m s = socially_run s (m s.social)

module _ (d : Dictionaries) (c : Contents) (events : Events) (is_team_member : ℕ → ℕ → Bool)
    (json_length : List ℕ → ℕ) where
  -- getEventId. The comment's preview has its organization.
  abbrev pub event_on_post : ℕ → Post → ℕ
  event_on_post user post =
      if user == post.user_id
      then 0
      else (if is_some post.organization
          then events.user_comments_org_post
          else events.user_comments_post)

  abbrev pub event_on_comment : ℕ → Comment → ℕ
  event_on_comment user parent =
      if user == parent.user_id
      then 0
      else (if is_some parent.organization_id
          then events.user_comments_org_comment
          else events.user_comments_comment)

  abbrev pub write_activity : Body → Post → Option Comment → Option ℕ → ℕ → ℕ → Action Social ℕ
  write_activity body post none organization user comment =
      process_comment_creation d c user comment body.signed_transaction (is_some organization)
        post.id d.posts (event_on_post user post)
  write_activity body post (some parent) organization user comment =
      process_comment_creation d c user comment body.signed_transaction (is_some organization)
        parent.id d.comments (event_on_comment user parent)

  -- The `create` of the row, which is not of the transaction; its column holds 255 characters.
  abbrev pub insert_comment : Comment → Action Discussion (Unit {0})
  insert_comment comment =
      throw_if (ltb 255 (text_length comment.blockchain_id))
        (db_error "value too long for type character varying(255)")
      >> modify (λ s. record s { comments = comment ∷ s.comments })

  -- createJobWithOptions; the option suppressEmptyTransactionError is left out
  abbrev pub content_job : ℕ → Job
  content_job activity = record { activity_id = activity; eos_js_v2 = true }

  -- The update of the path, whose column holds 255 characters of JSON.
  abbrev pub update_path : ℕ → List ℕ → ℕ → Action Discussion (Unit {0})
  update_path id path depth =
      throw_if (ltb 255 (json_length path))
        (db_error "value too long for type character varying(255)")
      >> modify (λ s. record s { comments = set_path id path depth s.comments })

  -- incrementCommentCount
  abbrev pub increment_count : ℕ → Action Discussion (Unit {0})
  increment_count post =
      modify (λ s. record s { post_stats = increment_comment_count post s.post_stats })

  -- What the transaction writes: the path, the counter of the post, and the activity.
  abbrev pub write_comment :
      Comment → List ℕ → Body → Post → Option Comment → Option ℕ → ℕ → Action Discussion ℕ
  write_comment comment path body post parent organization user =
      update_path comment.id path (depth_of parent)
      >> increment_count post.id
      >> socially (write_activity body post parent organization user comment.id)

  abbrev pub no_path : Error
  no_path = js_error "Cannot read property 'push' of null"

  -- ActivityProducer.publishWithContentCreation; the queues are not told apart
  unfoldable pub publish_with_content_creation : Job → Action Social (Unit {0})
  publish_with_content_creation job = modify (λ s. record s { jobs = job ∷ s.jobs })

  unfoldable pub create_new_comment :
      Body → Option Post → Option Comment → ℕ → Action Discussion Comment
  unfolding process_comment_creation publish_with_content_creation create_new_activity
  create_new_comment body found parent user = do
    throw_if (str_eq body.blockchain_id "") (bad_request "Field blockchain_id is required")
    post ← or_throw found (js_error "Cannot read property 'organization' of null")
    let organization = organization_for is_team_member post.organization user
    comments ← gets (λ s. s.comments)
    let comment = new_comment comments body post parent organization user
    insert_comment comment
    path ← or_throw (path_of comment.id parent) no_path
    activity ← transaction (write_comment comment path body post parent organization user)
    socially (publish_with_content_creation (content_job activity))
    pure (with_path path (depth_of parent) comment)

  -- createNewCommentOnPost; a post that is not there is null
  unfoldable pub create_new_comment_on_post : Body → Option Post → ℕ → Action Discussion Comment
  create_new_comment_on_post body post user = create_new_comment body post none user

  -- createNewCommentOnComment
  unfoldable pub create_new_comment_on_comment :
      Body → Option Post → ℕ → ℕ → Action Discussion Comment
  create_new_comment_on_comment body post comment_parent_id user = do
    found ← gets (λ s. find (λ x. x.id == comment_parent_id) s.comments)
    parent ← or_throw found (js_error "Cannot read property 'toJSON' of null")
    create_new_comment body post (some parent) user
