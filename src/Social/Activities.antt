-- ===== src/Social/Activities.antt =====
-- The other writers of the history: the builders of activities in lib/users/user-activity-service.js
-- that stand before getUserFollowActivityData; Content has those of posts, comments and mentions.
-- The ids of types and events that the package ucom.libs.common gives are a parameter; where they
-- are those of an event, the caller passes them.
pub mod Content
use ucom_backend.Prelude.{ℕ, String, Bool, Option, none, some, List, [], ◌∷◌, if◌then◌else◌}
use ucom_backend.Prelude.Action.{Action, ok, pure, ◌>>=◌, ◌>>◌}
use ucom_backend.Dictionary.{Dictionaries}
use ucom_backend.Social.State.{
  Activity, Social, group_content_creation, group_content_interaction,
  group_content_creation_by_organization, group_users_team_invitation,
  group_user_interacts_with_blockchain_node, group_content_updating, group_tag_event,
  group_user_profile, create_new_activity,
}

-- What the builders use of the dictionaries beside `Dictionaries`.
pub record Contents : Type 0 where
  pub blockchain_nodes : String
  pub type_organization : ℕ
  pub type_comment : ℕ
  pub org_team_invitation : ℕ
  pub org_users_team_invitation : ℕ
  pub user_creates_organization : ℕ
  pub user_updates_organization : ℕ
  pub user_creates_profile : ℕ
  pub user_updates_profile : ℕ
  pub user_has_mentioned_you_in_post : ℕ
  pub user_has_mentioned_you_in_comment : ℕ

-- The fields of a post that the builders read.
pub record Post : Type 0 where
  pub id : ℕ
  pub post_type_id : ℕ
  pub entity_id_for : ℕ
  pub entity_name_for : String
  pub parent_id : Option ℕ

abbrev activity_type_upvote_node : ℕ
activity_type_upvote_node = 20

abbrev activity_type_cancel_node_upvoting_node : ℕ
activity_type_cancel_node_upvoting_node = 30

module _ (d : Dictionaries) (c : Contents) where
  abbrev pub node_vote : ℕ → ℕ → ℕ → Activity
  node_vote user_id event_id element = record {
    activity_type_id = activity_type_upvote_node;
    activity_group_id = group_user_interacts_with_blockchain_node;
    user_id_from = user_id;
    entity_id_to = element;
    entity_name = c.blockchain_nodes;
    signed_transaction = "";
    event_id = event_id;
    entity_id_on = none;
    entity_name_on = none;
  }

  abbrev pub node_cancel : ℕ → ℕ → ℕ → Activity
  node_cancel user_id event_id element = record {
    activity_type_id = activity_type_cancel_node_upvoting_node;
    activity_group_id = group_user_interacts_with_blockchain_node;
    user_id_from = user_id;
    entity_id_to = element;
    entity_name = c.blockchain_nodes;
    signed_transaction = "";
    event_id = event_id;
    entity_id_on = none;
    entity_name_on = none;
  }

  -- bulkCreateNewActivity: one row after the other
  abbrev pub bulk_create_new_activity : (ℕ → Activity) → List ℕ → Action Social (Unit {0})
  bulk_create_new_activity build [] s = pure tt s
  bulk_create_new_activity build (k ∷ ks) s =
      bulk_create_new_activity build ks (create_new_activity (build k) s).1

  unfoldable pub process_user_votes_changing_for_block_producers :
      ℕ → List ℕ → ℕ → Action Social (Unit {0})
  unfolding create_new_activity
  process_user_votes_changing_for_block_producers user_id nodes event_id =
      bulk_create_new_activity (node_vote user_id event_id) nodes

  unfoldable pub process_user_cancel_votes_for_block_producers :
      ℕ → List ℕ → ℕ → Action Social (Unit {0})
  unfolding create_new_activity
  process_user_cancel_votes_for_block_producers user_id nodes event_id =
      bulk_create_new_activity (node_cancel user_id event_id) nodes

  abbrev process_new_organization_data : String → ℕ → ℕ → Activity
  process_new_organization_data signed user_id org = record {
    activity_type_id = c.type_organization;
    activity_group_id = group_content_creation;
    user_id_from = user_id;
    entity_id_to = org;
    entity_name = d.organizations;
    signed_transaction = signed;
    event_id = c.user_creates_organization;
    entity_id_on = none;
    entity_name_on = none;
  }

  unfoldable process_new_organization : String → ℕ → ℕ → Action Social ℕ
  process_new_organization signed user_id org =
      create_new_activity (process_new_organization_data signed user_id org)

  abbrev process_organization_updating_data : String → ℕ → ℕ → Activity
  process_organization_updating_data signed user_id org = record {
    activity_type_id = c.type_organization;
    activity_group_id = group_content_updating;
    user_id_from = user_id;
    entity_id_to = org;
    entity_name = d.organizations;
    signed_transaction = signed;
    event_id = c.user_updates_organization;
    entity_id_on = none;
    entity_name_on = none;
  }

  unfoldable process_organization_updating : String → ℕ → ℕ → Action Social ℕ
  process_organization_updating signed user_id org =
      create_new_activity (process_organization_updating_data signed user_id org)

  abbrev process_users_board_invitation_data : ℕ → ℕ → ℕ → Activity
  process_users_board_invitation_data user_id target org = record {
    activity_type_id = c.org_team_invitation;
    activity_group_id = group_users_team_invitation;
    user_id_from = user_id;
    entity_id_to = target;
    entity_name = d.users;
    signed_transaction = "";
    event_id = c.org_users_team_invitation;
    entity_id_on = some org;
    entity_name_on = some d.organizations;
  }

  unfoldable pub process_users_board_invitation : ℕ → ℕ → ℕ → Action Social ℕ
  process_users_board_invitation user_id target org =
      create_new_activity (process_users_board_invitation_data user_id target org)

  abbrev create_for_user_creates_profile_data : String → ℕ → Activity
  create_for_user_creates_profile_data signed user_id = record {
    activity_type_id = group_user_profile;
    activity_group_id = group_user_profile;
    user_id_from = user_id;
    entity_id_to = user_id;
    entity_name = d.users;
    signed_transaction = signed;
    event_id = c.user_creates_profile;
    entity_id_on = none;
    entity_name_on = none;
  }

  unfoldable create_for_user_creates_profile : String → ℕ → Action Social ℕ
  create_for_user_creates_profile signed user_id =
      create_new_activity (create_for_user_creates_profile_data signed user_id)

  abbrev create_for_user_updates_profile_data : String → ℕ → Activity
  create_for_user_updates_profile_data signed user_id = record {
    activity_type_id = group_user_profile;
    activity_group_id = group_user_profile;
    user_id_from = user_id;
    entity_id_to = user_id;
    entity_name = d.users;
    signed_transaction = signed;
    event_id = c.user_updates_profile;
    entity_id_on = none;
    entity_name_on = none;
  }

  -- createForUserUpdatesProfile, createForUserUpdatesProfileViaKnex
  unfoldable create_for_user_updates_profile : String → ℕ → Action Social ℕ
  create_for_user_updates_profile signed user_id =
      create_new_activity (create_for_user_updates_profile_data signed user_id)
