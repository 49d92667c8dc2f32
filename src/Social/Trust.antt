-- ===== src/Social/Trust.antt =====
-- Trusting and untrusting a user: lib/users/service/users-trust-service.js, with the index of
-- users-activity-trust-repository.js and auto-update-creator-service.js. Reading the table of
-- users is a parameter, `account_name`: the name of a user, `none` for one who is not there.
pub mod Laws
use text.Mathlib.Text.{◌==◌ as str_eq}
use ucom_backend.Prelude.{
  ℕ, String, Bool, true, false, not, ◌&&◌, ◌||◌, Option, none, some, List, ◌∷◌, ◌==◌, if◌then◌else◌,
}
use ucom_backend.Prelude.Action.{
  Action, Result, ok, err, Error, app_error, bad_request, db_error, pure, throw, gets, throw_if,
  transaction, ◌>>=◌, ◌>>◌,
}
use ucom_backend.Dictionary.{Dictionaries}
use ucom_backend.Social.Index.{IndexRow, exists, insert_row, delete_row}
use ucom_backend.Social.State.{
  Activity, AutoUpdate, Job, Social, group_user_user_interaction, create_new_activity,
  publish_with_user_activity,
}

-- The fields of a request's body; "" for one that is missing.
pub record Body : Type 0 where
  pub signed_transaction : String
  pub blockchain_id : String

-- `!userToAccountName`
abbrev pub has_no_name : Option String → Bool
has_no_name none = true
has_no_name (some name) = str_eq name ""

module _ (d : Dictionaries) where
  abbrev put_trusts : Option (List IndexRow) → Error → Action Social (Unit {0})
  put_trusts none e s = (err e, s)
  put_trusts (some rows) e s = (ok tt, record s { trusts = rows })

  abbrev pub trust_row : ℕ → ℕ → IndexRow
  trust_row from to = record {
    user_id = from;
    entity_id = to;
    entity_name = d.users;
    interaction_type = 0;
  }

  unfoldable pub insert_one_trust_user : ℕ → ℕ → Action Social (Unit {0})
  insert_one_trust_user from to s =
      put_trusts (insert_row (trust_row from to) s.trusts) (db_error "users_activity_trust") s

  -- deleteOneTrustUser, with the error for null that the caller throws
  unfoldable pub delete_one_trust_user : ℕ → ℕ → Action Social (Unit {0})
  delete_one_trust_user from to s =
      put_trusts (delete_row from to d.users s.trusts) (app_error "No record to delete") s

  unfoldable pub process_trust_index : ℕ → ℕ → ℕ → Action Social (Unit {0})
  unfolding insert_one_trust_user delete_one_trust_user
  process_trust_index from to event =
      if d.is_user_trusts_you event
      then insert_one_trust_user from to
      else if d.is_user_untrusts_you event
      then delete_one_trust_user from to
      else throw (app_error "Unsupported eventId")

  abbrev pub trust_activity : ℕ → ℕ → String → ℕ → ℕ → Activity
  trust_activity type event signed from to = record {
    activity_type_id = type;
    activity_group_id = group_user_user_interaction;
    user_id_from = from;
    entity_id_to = to;
    entity_name = d.users;
    signed_transaction = signed;
    event_id = event;
    entity_id_on = none;
    entity_name_on = none;
  }

  -- AutoUpdateCreatorService.createUserToUser
  unfoldable pub create_user_to_user : ℕ → ℕ → String → ℕ → Action Social (Unit {0})
  create_user_to_user from to blockchain_id event s = (
    ok tt,
    record s {
      auto_updates =
          record {
            user_id = from;
            entity_id_for = from;
            entity_name_for = d.users;
            blockchain_id = blockchain_id;
            user_from = from;
            user_to = to;
            event_id = event;
          }
          ∷ s.auto_updates;
    },
  )

  -- `if (body.blockchain_id)`
  abbrev create_auto_update : ℕ → ℕ → String → ℕ → Action Social (Unit {0})
  create_auto_update from to blockchain_id event =
      if str_eq blockchain_id "" then pure tt else create_user_to_user from to blockchain_id event

  unfoldable pub process_and_get_new_activity : ℕ → ℕ → ℕ → ℕ → Body → Action Social ℕ
  unfolding process_trust_index create_user_to_user create_new_activity
  process_and_get_new_activity from to event type body = transaction (do
    new_activity ← create_new_activity (trust_activity type event body.signed_transaction from to)
    process_trust_index from to event
    create_auto_update from to body.blockchain_id event
    pure new_activity)

  module _ (account_name : ℕ → Option String) where
    unfoldable pub check_preconditions : ℕ → ℕ → ℕ → Body → Action Social (Unit {0})
    check_preconditions from to type body = do
      throw_if (from == to) (bad_request "It is not possible to trust or untrust yourself")
      throw_if (str_eq body.signed_transaction "")
          (bad_request "There is no signed_transaction string field in body or it is malformed")
      is_trust ← gets (λ s. exists from to d.users s.trusts)
      throw_if (has_no_name (account_name to)) (bad_request "There is no user with ID")
      throw_if (is_trust && not (type == d.untrust_id))
          (bad_request "Already trusts. Only untrust activity is allowed")
      throw_if (not is_trust && not (type == d.trust_id))
          (bad_request "Does not trust. Only trust activity is allowed")

    unfoldable pub trust_or_untrust_user : ℕ → ℕ → Body → ℕ → ℕ → Action Social (Unit {0})
    unfolding check_preconditions process_and_get_new_activity publish_with_user_activity
    trust_or_untrust_user from to body type event = do
      check_preconditions from to type body
      activity_id ← process_and_get_new_activity from to event type body
      publish_with_user_activity (record { activity_id = activity_id; eos_js_v2 = true })

    unfoldable pub trust_user : ℕ → ℕ → Body → Action Social (Unit {0})
    trust_user from to body = trust_or_untrust_user from to body d.trust_id d.user_trusts_you

    unfoldable pub untrust_user : ℕ → ℕ → Body → Action Social (Unit {0})
    untrust_user from to body = trust_or_untrust_user from to body d.untrust_id d.user_untrusts_you
