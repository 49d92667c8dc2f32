-- ===== src/Social/Organizations.antt =====
-- Following and unfollowing an organization: lib/users/activity/user-to-organization-activity.js.
-- The ids of its events come from the package ucom.libs.common and are a parameter.
pub mod Laws
use text.Mathlib.Text.{◌==◌ as str_eq}
use ucom_backend.Prelude.{
  ℕ, String, ◌≡◌, Bool, true, false, not, ◌&&◌, ◌||◌, Option, none, some, List, ◌==◌, if◌then◌else◌,
  find,
}
use ucom_backend.Prelude.Action.{
  Action, Result, ok, err, Error, app_error, bad_request, db_error, pure, throw, gets, throw_if,
  transaction, ◌>>=◌, ◌>>◌,
}
use ucom_backend.Dictionary.{Dictionaries}
use ucom_backend.Social.Index.{IndexRow, insert_row, delete_row}
use ucom_backend.Social.State.{
  Activity, Job, Social, group_content_interaction, create_new_activity, get_eos_version,
  publish_with_user_activity,
}

pub record Events : Type 0 where
  pub user_follows_org : ℕ
  pub user_unfollows_org : ℕ
  pub does_user_follow_org : ℕ → Bool
  pub does_user_unfollow_org : ℕ → Bool

-- An event is recognised by its own test, and an unfollow not by that of a follow.
pub record AreLawful (ev : Events) : Type 0 where
  pub follow_org : ev.does_user_follow_org ev.user_follows_org ≡ true
  pub unfollow_org : ev.does_user_unfollow_org ev.user_unfollows_org ≡ true
  pub unfollow_org_is_no_follow : ev.does_user_follow_org ev.user_unfollows_org ≡ false

module _ (d : Dictionaries) (ev : Events) where
  -- getCurrentActivity
  abbrev pub is_org_activity : ℕ → ℕ → Activity → Bool
  is_org_activity from org a =
      a.activity_group_id == group_content_interaction
      && (a.user_id_from == from && (a.entity_id_to == org && str_eq a.entity_name d.organizations))

  abbrev pub get_current_activity : ℕ → ℕ → List Activity → Option Activity
  get_current_activity from org = find (is_org_activity from org)

  abbrev pub is_same_type : Option Activity → ℕ → Bool
  is_same_type none type = false
  is_same_type (some a) type = a.activity_type_id == type

  abbrev pub lacks_opposite : Option Activity → ℕ → Bool
  lacks_opposite none type = true
  lacks_opposite (some a) type =
      a.activity_type_id == 0
      || not (a.activity_type_id == d.get_opposite_follow_activity_type_id type)

  unfoldable pub check_follow_preconditions : ℕ → ℕ → ℕ → Action Social (Unit {0})
  check_follow_preconditions from org type = do
    current ← gets (λ s. get_current_activity from org s.activities)
    throw_if (is_same_type current type) (bad_request "It is not possible to follow/unfollow twice")
    throw_if (d.is_opposite_activity_required type && lacks_opposite current type)
        (bad_request "It is not possible to unfollow before follow")

  abbrev put_follows : Option (List IndexRow) → Error → Action Social (Unit {0})
  put_follows none e s = (err e, s)
  put_follows (some rows) e s = (ok tt, record s { follows = rows })

  abbrev pub org_row : ℕ → ℕ → IndexRow
  org_row from org = record {
    user_id = from;
    entity_id = org;
    entity_name = d.organizations;
    interaction_type = 0;
  }

  unfoldable pub insert_one_follows_organization : ℕ → ℕ → Action Social (Unit {0})
  insert_one_follows_organization from org s =
      put_follows (insert_row (org_row from org) s.follows) (db_error "users_activity_follow") s

  -- deleteOneFollowsOrg, with the error for null that the caller throws
  unfoldable pub delete_one_follows_org : ℕ → ℕ → Action Social (Unit {0})
  delete_one_follows_org from org s =
      put_follows (delete_row from org d.organizations s.follows) (app_error "No record to delete")
        s

  unfoldable pub create_org_follow_index : ℕ → ℕ → ℕ → Action Social (Unit {0})
  unfolding insert_one_follows_organization delete_one_follows_org
  create_org_follow_index event from org =
      if ev.does_user_follow_org event
      then insert_one_follows_organization from org
      else if ev.does_user_unfollow_org event
      then delete_one_follows_org from org
      else throw (app_error "Unsupported eventId")

  abbrev pub org_event : ℕ → ℕ
  org_event type = if type == d.follow_id then ev.user_follows_org else ev.user_unfollows_org

  abbrev pub org_activity : ℕ → String → ℕ → ℕ → Activity
  org_activity type signed from org = record {
    activity_type_id = type;
    activity_group_id = group_content_interaction;
    user_id_from = from;
    entity_id_to = org;
    entity_name = d.organizations;
    signed_transaction = signed;
    event_id = org_event type;
    entity_id_on = none;
    entity_name_on = none;
  }

  -- the transaction of userFollowsOrUnfollowsOrganization
  unfoldable pub org_transaction : ℕ → String → ℕ → ℕ → Action Social ℕ
  unfolding create_org_follow_index create_new_activity
  org_transaction type signed from org = transaction (do
    create_org_follow_index (org_event type) from org
    create_new_activity (org_activity type signed from org))

  unfoldable pub user_follows_or_unfollows_organization :
      ℕ → ℕ → ℕ → String → Action Social (Unit {0})
  unfolding publish_with_user_activity
  user_follows_or_unfollows_organization from org type signed = do
    throw_if (str_eq signed "") (bad_request "Field signed_transaction is required")
    check_follow_preconditions from org type
    activity_id ← org_transaction type signed from org
    version ← get_eos_version signed
    publish_with_user_activity (record { activity_id = activity_id; eos_js_v2 = version })

  unfoldable pub user_follows_organization : ℕ → ℕ → String → Action Social (Unit {0})
  user_follows_organization from org = user_follows_or_unfollows_organization from org d.follow_id

  unfoldable pub user_unfollows_organization : ℕ → ℕ → String → Action Social (Unit {0})
  user_unfollows_organization from org =
      user_follows_or_unfollows_organization from org d.unfollow_id
