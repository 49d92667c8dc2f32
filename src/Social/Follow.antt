-- ===== src/Social/Follow.antt =====
-- Following and unfollowing a user: lib/users/user-activity-service.js from
-- userFollowsAnotherUser to createFollowIndex. A request checks its preconditions outside of the
-- database transaction that writes the index and the activity.
pub mod Laws
pub mod Steps
pub mod Requests
use text.Mathlib.Text.{◌==◌ as str_eq}
use ucom_backend.Prelude.{
  ℕ, String, Bool, true, false, not, ◌&&◌, ◌||◌, Option, none, some, List, ◌==◌, if◌then◌else◌,
  find,
}
use ucom_backend.Prelude.Action.{
  Action, Result, ok, err, Error, app_error, bad_request, db_error, pure, throw, gets, throw_if,
  transaction, ◌>>=◌, ◌>>◌,
}
use ucom_backend.Dictionary.{Dictionaries}
use ucom_backend.Social.Index.{IndexRow, insert_row, delete_row}
use ucom_backend.Social.State.{
  Activity, Job, Social, group_user_user_interaction, create_new_activity, get_eos_version,
  publish_with_user_activity,
}

module _ (d : Dictionaries) where
  -- the `where` of getLastFollowOrUnfollowActivityForUser
  abbrev pub is_follow_or_unfollow : ℕ → ℕ → Activity → Bool
  is_follow_or_unfollow from to a =
      (a.activity_type_id == d.follow_id || a.activity_type_id == d.unfollow_id)
      && (a.user_id_from == from
          && (a.entity_id_to == to
              && (str_eq a.entity_name d.users
                  && a.activity_group_id == group_user_user_interaction)))

  abbrev pub get_last_follow_or_unfollow : ℕ → ℕ → List Activity → Option Activity
  get_last_follow_or_unfollow from to = find (is_follow_or_unfollow from to)

  -- `currentFollowStatus && currentFollowActivity.activity_type_id === activityTypeId`
  abbrev pub is_same_status : Option Activity → ℕ → Bool
  is_same_status none type = false
  is_same_status (some a) type = not (a.activity_type_id == 0) && a.activity_type_id == type

  -- `!currentFollowStatus || currentFollowStatus !== opposite`
  abbrev pub is_not_opposite : Option Activity → ℕ → Bool
  is_not_opposite none type = true
  is_not_opposite (some a) type =
      a.activity_type_id == 0
      || not (a.activity_type_id == d.get_opposite_follow_activity_type_id type)

  unfoldable pub check_preconditions : ℕ → ℕ → ℕ → Action Social (Unit {0})
  check_preconditions from to type = do
    throw_if (from == to) (bad_request "It is not possible to follow yourself")
    current ← gets (λ s. get_last_follow_or_unfollow from to s.activities)
    throw_if (is_same_status current type)
        (bad_request "It is not possible to follow/unfollow twice")
    throw_if (d.is_opposite_activity_required type && is_not_opposite current type)
        (bad_request "It is not possible to unfollow before follow")

  abbrev put_follows : Option (List IndexRow) → Error → Action Social (Unit {0})
  put_follows none e s = (err e, s)
  put_follows (some rows) e s = (ok tt, record s { follows = rows })

  abbrev pub follow_row : ℕ → ℕ → IndexRow
  follow_row from to = record {
    user_id = from;
    entity_id = to;
    entity_name = d.users;
    interaction_type = 0;
  }

  -- insertOneFollowsOtherUser
  unfoldable pub insert_one_follows_other_user : ℕ → ℕ → Action Social (Unit {0})
  insert_one_follows_other_user from to s =
      put_follows (insert_row (follow_row from to) s.follows) (db_error "users_activity_follow") s

  -- deleteOneFollowsOtherUser, with the error for null that the caller throws
  unfoldable pub delete_one_follows_other_user : ℕ → ℕ → Action Social (Unit {0})
  delete_one_follows_other_user from to s =
      put_follows (delete_row from to d.users s.follows) (app_error "No record to delete") s

  unfoldable pub create_follow_index : ℕ → ℕ → ℕ → Action Social (Unit {0})
  unfolding insert_one_follows_other_user delete_one_follows_other_user
  create_follow_index event from to =
      if d.does_user_follow_other_user event
      then insert_one_follows_other_user from to
      else if d.does_user_unfollow_other_user event
      then delete_one_follows_other_user from to
      else throw (app_error "Unsupported eventId")

  abbrev pub follow_event : ℕ → ℕ
  follow_event type = if type == d.follow_id then d.user_follows_you else d.user_unfollows_you

  abbrev pub follow_activity : ℕ → String → ℕ → ℕ → Activity
  follow_activity type signed from to = record {
    activity_type_id = type;
    activity_group_id = group_user_user_interaction;
    user_id_from = from;
    entity_id_to = to;
    entity_name = d.users;
    signed_transaction = signed;
    event_id = follow_event type;
    entity_id_on = none;
    entity_name_on = none;
  }

  unfoldable pub process_user_follows_or_unfollows_user : ℕ → String → ℕ → ℕ → Action Social ℕ
  unfolding create_follow_index create_new_activity
  process_user_follows_or_unfollows_user type signed from to = transaction (do
    create_follow_index (follow_event type) from to
    create_new_activity (follow_activity type signed from to))

  unfoldable pub user_follow_or_unfollow_user : ℕ → ℕ → ℕ → String → Action Social (Unit {0})
  unfolding publish_with_user_activity
  user_follow_or_unfollow_user from to type signed = do
    check_preconditions from to type
    throw_if (str_eq signed "") (bad_request "this field is required")
    activity_id ← process_user_follows_or_unfollows_user type signed from to
    version ← get_eos_version signed
    publish_with_user_activity (record { activity_id = activity_id; eos_js_v2 = version })

  unfoldable pub user_follows_another_user : ℕ → ℕ → String → Action Social (Unit {0})
  user_follows_another_user from to = user_follow_or_unfollow_user from to d.follow_id

  unfoldable pub user_unfollows_user : ℕ → ℕ → String → Action Social (Unit {0})
  user_unfollows_user from to = user_follow_or_unfollow_user from to d.unfollow_id
