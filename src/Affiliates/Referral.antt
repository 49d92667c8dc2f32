-- ===== src/Affiliates/Referral.antt =====
-- The referral of a new user: service/conversions/registration-conversion-service.js and
-- repository/offers-repository.js. The unique id and whether joi accepts the body are parameters
-- of a request; the transaction can fail only if the database does, which is left out.
pub mod Laws
use text.Mathlib.Text.{◌==◌ as str_eq}
use ucom_backend.Prelude.{
  ℕ, String, Bool, true, false, not, ◌&&◌, Option, none, some, List, [], ◌∷◌, ◌==◌, if◌then◌else◌,
  find, select,
}
use ucom_backend.Prelude.Action.{
  Action, Result, ok, err, app_error, bad_request, pure, throw, throw_if, gets, modify, or_throw,
  transaction, ◌>>=◌, ◌>>◌,
}
use ucom_backend.Dictionary.{Dictionaries}
use ucom_backend.Social.State.{
  Activity, Job, Social, group_user_user_interaction, create_new_activity,
  publish_with_user_activity,
}
use ucom_backend.Affiliates.State.{
  Offer, Stream, Click, Conversion, Affiliates, status_new, unprocessable_entity_error, next_id,
}

pub record Request : Type 0 where
  pub unique_id : Option String
  pub is_valid : Bool
  pub account_name_source : String
  pub signed_transaction : String

-- The calls of the social store.
abbrev pub socially_run : {A : Type 0} → Affiliates → Result A × Social → Result A × Affiliates
socially_run a (r, s) = (r, record a { social = s })

abbrev pub socially : {A : Type 0} → Action Social A → Action Affiliates A
socially m a = socially_run a (m a.social)

abbrev pub only_registration_offer : List Offer → Action Affiliates Offer
only_registration_offer (o ∷ []) = pure o
only_registration_offer _ =
    throw (app_error "It is required to create only one offer for the registration event")

-- getRegistrationOffer
abbrev pub get_registration_offer : ℕ → Action Affiliates Offer
get_registration_offer registration a =
    only_registration_offer (select (λ o. o.event_id == registration) a.offers) a

abbrev pub is_stream_of : Offer → String → Stream → Bool
is_stream_of offer account_name s = str_eq s.account_name account_name && s.offer_id == offer.id

abbrev pub is_click_on : Offer → Stream → String → Click → Bool
is_click_on offer stream unique_id c =
    str_eq c.user_unique_id unique_id && (c.offer_id == offer.id && c.stream_id == stream.id)

module _ (d : Dictionaries) (registration referral : ℕ) where
  abbrev pub referral_activity : String → ℕ → ℕ → Activity
  referral_activity signed new_user_id referrer_user_id = record {
    activity_type_id = referral;
    activity_group_id = group_user_user_interaction;
    user_id_from = new_user_id;
    entity_id_to = referrer_user_id;
    entity_name = d.users;
    signed_transaction = signed;
    event_id = referral;
    entity_id_on = none;
    entity_name_on = none;
  }

  -- createReferralActivity
  abbrev pub create_referral_activity : String → ℕ → ℕ → Action Affiliates ℕ
  create_referral_activity signed new_user_id referrer_user_id =
      socially (create_new_activity (referral_activity signed new_user_id referrer_user_id))

  abbrev pub conversion_of : Affiliates → Offer → Stream → Click → ℕ → ℕ → Conversion
  conversion_of a offer stream click activity user_id = record {
    id = next_id a.conversions;
    offer_id = offer.id;
    stream_id = stream.id;
    click_id = click.id;
    users_activity_id = activity;
    user_id = user_id;
    status = status_new;
  }

  abbrev pub insert_conversion : Offer → Stream → Click → ℕ → ℕ → Affiliates → Affiliates
  insert_conversion offer stream click activity user_id a = record a {
    conversions = conversion_of a offer stream click activity user_id ∷ a.conversions;
  }

  -- The writes of processReferral, in one transaction.
  unfoldable pub write_referral : Request → ℕ → Offer → Stream → Click → Action Affiliates ℕ
  unfolding create_new_activity
  write_referral request user_id offer stream click = transaction do
    activity ← create_referral_activity request.signed_transaction user_id stream.user_id
    modify (insert_conversion offer stream click activity user_id)
    pure activity

  -- createJobWithOnlyEosJsV2Option
  abbrev pub eos_job : ℕ → Job
  eos_job activity = record { activity_id = activity; eos_js_v2 = true }

  -- processReferral, of a user with the given id
  unfoldable pub process_referral : Request → ℕ → Action Affiliates (Unit {0})
  unfolding write_referral publish_with_user_activity
  process_referral request user_id = do
    unique_id ← or_throw request.unique_id (bad_request "It is required to send a cookie")
    throw_if (not request.is_valid) (bad_request "the fields of the body")
    offer ← get_registration_offer registration
    found ← gets (λ a. find (is_stream_of offer request.account_name_source) a.streams)
    stream ← or_throw found unprocessable_entity_error
    clicked ← gets (λ a. find (is_click_on offer stream unique_id) a.clicks)
    click ← or_throw clicked unprocessable_entity_error
    activity ← write_referral request user_id offer stream click
    socially (publish_with_user_activity (eos_job activity))
