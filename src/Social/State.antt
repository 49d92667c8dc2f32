-- ===== src/Social/State.antt =====
-- The tables that the social services share, and the calls that write them: the activities
-- (lib/users/repository/users-activity-repository.js), the index tables, and the jobs that go to
-- the queue (lib/users/job/user-activity-serializer.js, lib/jobs/activity-producer.js).
use Prim.Native.Nat.{ℕ, suc}
use text.Mathlib.Text.{◌==◌ as str_eq, find?}
use ucom_backend.Prelude.{
  Option, none, String, Bool, true, false, none, some, List, ◌∷◌, if◌then◌else◌, length,
}
use ucom_backend.Prelude.Action.{Action, ok, app_error, pure, throw, modify}
use ucom_backend.Social.Index.{IndexRow}

-- A row of users_activity, as the services fill it.
pub record Activity : Type 0 where
  pub activity_type_id : ℕ
  pub activity_group_id : ℕ
  pub user_id_from : ℕ
  pub entity_id_to : ℕ
  pub entity_name : String
  pub signed_transaction : String
  pub event_id : ℕ
  pub entity_id_on : Option ℕ
  pub entity_name_on : Option String

-- The message of createJobWithOptions.
pub record Job : Type 0 where
  pub activity_id : ℕ
  pub eos_js_v2 : Bool

-- The post of createAutoUpdate: of type auto-update, by and for `user_id`, with its JSON data.
pub record AutoUpdate : Type 0 where
  pub user_id : ℕ
  pub entity_id_for : ℕ
  pub entity_name_for : String
  pub blockchain_id : String
  pub user_from : ℕ
  pub user_to : ℕ
  pub event_id : ℕ

-- The activities stand newest first: the table is read by descending id.
pub record Social : Type 0 where
  pub activities : List Activity
  pub follows : List IndexRow
  pub trusts : List IndexRow
  pub auto_updates : List AutoUpdate
  pub jobs : List Job

-- activity-group-dictionary.js
abbrev pub group_content_creation : ℕ
group_content_creation = 1

abbrev pub group_content_interaction : ℕ
group_content_interaction = 2

abbrev pub group_user_user_interaction : ℕ
group_user_user_interaction = 3

abbrev pub group_content_creation_by_organization : ℕ
group_content_creation_by_organization = 4

abbrev pub group_users_team_invitation : ℕ
group_users_team_invitation = 20

abbrev pub group_user_interacts_with_blockchain_node : ℕ
group_user_interacts_with_blockchain_node = 30

abbrev pub group_content_updating : ℕ
group_content_updating = 40

abbrev pub group_tag_event : ℕ
group_tag_event = 50

abbrev pub group_user_profile : ℕ
group_user_profile = 60

-- The id of the next row: ids grow by one, gaps left by roll-backs aside.
abbrev pub next_id : List Activity → ℕ
next_id activities = suc (length activities)

-- createNewKnexActivity; the id of the new row is returned.
unfoldable pub create_new_activity : Activity → Action Social ℕ
create_new_activity a s = (ok (next_id s.activities), record s { activities = a ∷ s.activities })

-- ActivityProducer.publishWithUserActivity
unfoldable pub publish_with_user_activity : Job → Action Social (Unit {0})
publish_with_user_activity job = modify (λ s. record s { jobs = job ∷ s.jobs })

-- `signedTransaction.includes(sub)`
abbrev pub contains : String → String → Bool
contains text sub = elim (find? text sub) [ none ↦ false | some _ ↦ true ]

-- eos-transaction-service.js, getEosVersionBasedOnSignedTransaction
unfoldable pub get_eos_version : {S : Type 0} → String → Action S Bool
get_eos_version signed =
    if str_eq signed ""
    then throw (app_error "Signed transaction must be determined")
    else pure (contains signed "serializedTransaction")
