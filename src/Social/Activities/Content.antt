-- ===== src/Social/Activities/Content.antt =====
-- The builders of the activities of posts, comments and mentions in
-- lib/users/user-activity-service.js.
use ucom_backend.Prelude.{ℕ, String, Bool, some, if◌then◌else◌}
use ucom_backend.Prelude.Action.{Action}
use ucom_backend.Dictionary.{Dictionaries}
use ucom_backend.Social.State.{
  Activity, Social, group_content_creation, group_content_creation_by_organization,
  group_content_updating, group_tag_event, create_new_activity,
}
use ucom_backend.Social.Activities.{Contents, Post}

module _ (d : Dictionaries) (c : Contents) where
  abbrev process_organization_creates_post_data : Post → ℕ → String → ℕ → Activity
  process_organization_creates_post_data p event_id signed user_id = record {
    activity_type_id = p.post_type_id;
    activity_group_id = group_content_creation_by_organization;
    user_id_from = user_id;
    entity_id_to = p.id;
    entity_name = d.posts;
    signed_transaction = signed;
    event_id = event_id;
    entity_id_on = some p.entity_id_for;
    entity_name_on = some p.entity_name_for;
  }

  unfoldable process_organization_creates_post : Post → ℕ → String → ℕ → Action Social ℕ
  process_organization_creates_post p event_id signed user_id =
      create_new_activity (process_organization_creates_post_data p event_id signed user_id)

  abbrev process_post_is_updated_data : Post → ℕ → ℕ → String → Activity
  process_post_is_updated_data p user_id event_id signed = record {
    activity_type_id = p.post_type_id;
    activity_group_id = group_content_updating;
    user_id_from = user_id;
    entity_id_to = p.id;
    entity_name = d.posts;
    signed_transaction = signed;
    event_id = event_id;
    entity_id_on = some p.entity_id_for;
    entity_name_on = some p.entity_name_for;
  }

  unfoldable process_post_is_updated : Post → ℕ → ℕ → String → Action Social ℕ
  process_post_is_updated p user_id event_id signed =
      create_new_activity (process_post_is_updated_data p user_id event_id signed)

  abbrev process_comment_is_updated_data : ℕ → ℕ → ℕ → String → ℕ → String → Activity
  process_comment_is_updated_data comment user_id event_id signed commentable_id commentable_name =
      record {
        activity_type_id = event_id;
        activity_group_id = group_content_updating;
        user_id_from = user_id;
        entity_id_to = comment;
        entity_name = d.comments;
        signed_transaction = signed;
        event_id = event_id;
        entity_id_on = some commentable_id;
        entity_name_on = some commentable_name;
      }

  unfoldable process_comment_is_updated : ℕ → ℕ → ℕ → String → ℕ → String → Action Social ℕ
  process_comment_is_updated comment user_id event_id signed commentable_id commentable_name =
      create_new_activity (
        process_comment_is_updated_data comment user_id event_id signed commentable_id
          commentable_name)

  abbrev process_organization_creates_repost_data : Post → ℕ → String → ℕ → Activity
  process_organization_creates_repost_data p event_id signed user_id = record {
    activity_type_id = p.post_type_id;
    activity_group_id = group_content_creation_by_organization;
    user_id_from = user_id;
    entity_id_to = p.id;
    entity_name = d.posts;
    signed_transaction = signed;
    event_id = event_id;
    entity_id_on = p.parent_id;
    entity_name_on = some d.posts;
  }

  unfoldable process_organization_creates_repost : Post → ℕ → String → ℕ → Action Social ℕ
  process_organization_creates_repost p event_id signed user_id =
      create_new_activity (process_organization_creates_repost_data p event_id signed user_id)

  abbrev process_user_himself_creates_post_data : Post → ℕ → String → ℕ → Activity
  process_user_himself_creates_post_data p event_id signed user_id = record {
    activity_type_id = p.post_type_id;
    activity_group_id = group_content_creation;
    user_id_from = user_id;
    entity_id_to = p.id;
    entity_name = d.posts;
    signed_transaction = signed;
    event_id = event_id;
    entity_id_on = some p.entity_id_for;
    entity_name_on = some p.entity_name_for;
  }

  unfoldable process_user_himself_creates_post : Post → ℕ → String → ℕ → Action Social ℕ
  process_user_himself_creates_post p event_id signed user_id =
      create_new_activity (process_user_himself_creates_post_data p event_id signed user_id)

  abbrev process_user_mention_other_user_in_post_data : ℕ → ℕ → ℕ → Activity
  process_user_mention_other_user_in_post_data post who mentioned = record {
    activity_type_id = group_tag_event;
    activity_group_id = group_tag_event;
    user_id_from = who;
    entity_id_to = mentioned;
    entity_name = d.users;
    signed_transaction = "";
    event_id = c.user_has_mentioned_you_in_post;
    entity_id_on = some post;
    entity_name_on = some d.posts;
  }

  unfoldable process_user_mention_other_user_in_post : ℕ → ℕ → ℕ → Action Social ℕ
  process_user_mention_other_user_in_post post who mentioned =
      create_new_activity (process_user_mention_other_user_in_post_data post who mentioned)

  abbrev process_user_mention_other_user_in_comment_data : ℕ → ℕ → ℕ → Activity
  process_user_mention_other_user_in_comment_data comment who mentioned = record {
    activity_type_id = group_tag_event;
    activity_group_id = group_tag_event;
    user_id_from = who;
    entity_id_to = mentioned;
    entity_name = d.users;
    signed_transaction = "";
    event_id = c.user_has_mentioned_you_in_comment;
    entity_id_on = some comment;
    entity_name_on = some d.comments;
  }

  unfoldable process_user_mention_other_user_in_comment : ℕ → ℕ → ℕ → Action Social ℕ
  process_user_mention_other_user_in_comment comment who mentioned =
      create_new_activity (process_user_mention_other_user_in_comment_data comment who mentioned)

  abbrev process_user_himself_creates_repost_data : Post → ℕ → String → ℕ → Activity
  process_user_himself_creates_repost_data p event_id signed user_id = record {
    activity_type_id = p.post_type_id;
    activity_group_id = group_content_creation;
    user_id_from = user_id;
    entity_id_to = p.id;
    entity_name = d.posts;
    signed_transaction = signed;
    event_id = event_id;
    entity_id_on = p.parent_id;
    entity_name_on = some d.posts;
  }

  unfoldable process_user_himself_creates_repost : Post → ℕ → String → ℕ → Action Social ℕ
  process_user_himself_creates_repost p event_id signed user_id =
      create_new_activity (process_user_himself_creates_repost_data p event_id signed user_id)

  abbrev process_comment_creation_data : ℕ → ℕ → String → Bool → ℕ → String → ℕ → Activity
  process_comment_creation_data user_id comment signed is_organization commentable_id
        commentable_name event_id =
      record {
        activity_type_id = c.type_comment;
        activity_group_id =
            if is_organization
            then group_content_creation_by_organization
            else group_content_creation;
        user_id_from = user_id;
        entity_id_to = comment;
        entity_name = d.comments;
        signed_transaction = signed;
        event_id = event_id;
        entity_id_on = some commentable_id;
        entity_name_on = some commentable_name;
      }

  unfoldable pub process_comment_creation : ℕ → ℕ → String → Bool → ℕ → String → ℕ → Action Social ℕ
  process_comment_creation user_id comment signed is_organization commentable_id commentable_name
        event_id =
      create_new_activity (
        process_comment_creation_data user_id comment signed is_organization commentable_id
          commentable_name event_id)
