-- ===== src/Affiliates/Clicks.antt =====
-- A click on a referral link, and whose link wins: service/redirect-service.js,
-- service/conversions/attribution-service.js and repository/clicks-repository.js. The unique id of
-- a visitor comes from a cookie: what a token of it says is the parameter `extract`.
pub mod Laws
use text.Mathlib.Text.{◌==◌ as str_eq}
use ucom_backend.Prelude.{
  ℕ, String, Bool, true, false, ◌&&◌, Option, none, some, List, [], ◌∷◌, ◌==◌, if◌then◌else◌, find,
  select,
}
use ucom_backend.Prelude.Int.{ℤ, pos, negsuc}
use ucom_backend.Prelude.Action.{
  Action, Error, app_error, bad_request, http_unauthorized, pure, throw, throw_if, gets, modify,
  or_throw, ◌>>=◌, ◌>>◌,
}
use ucom_backend.Affiliates.State.{
  Offer, Stream, Click, Affiliates, last_wins, unprocessable_entity_error, next_id,
}

abbrev pub click_of : List Click → Stream → String → Click
click_of clicks s unique_id = record {
  id = next_id clicks;
  offer_id = s.offer_id;
  stream_id = s.id;
  user_unique_id = unique_id;
}

abbrev pub insert_click : Stream → String → Affiliates → Affiliates
insert_click s unique_id a = record a { clicks = click_of a.clicks s unique_id ∷ a.clicks }

-- RedirectService.process, with the visitor's unique id
unfoldable pub redirect : String → String → String → Action Affiliates Stream
redirect unique_id offer_hash stream_identity = do
  throw_if (str_eq offer_hash "") (bad_request "Offer hash is not provided")
  throw_if (str_eq stream_identity "") (bad_request "stream identity is not provided")
  offer ← gets (λ a. find (λ o. str_eq o.hash offer_hash) a.offers)
  stream ← gets (λ a. find (λ s. str_eq s.account_name stream_identity) a.streams)
  or_throw offer (bad_request "There is no offer with a hash")
  s ← or_throw stream (bad_request "There is no stream with identity")
  modify (insert_click s unique_id)
  pure s

-- `.orderBy('id', 'ASC').limit(1)` of rows that stand newest first
abbrev pub oldest : List Click → Option Click
oldest [] = none
oldest (c ∷ []) = some c
oldest (c ∷ (d ∷ ds)) = oldest (d ∷ ds)

abbrev pub newest : List Click → Option Click
newest [] = none
newest (c ∷ cs) = some c

abbrev pub is_click_of : Offer → String → Click → Bool
is_click_of offer unique_id c = c.offer_id == offer.id && str_eq c.user_unique_id unique_id

abbrev pub winning_click : Offer → List Click → Option Click
winning_click offer clicks =
    if offer.attribution_id == last_wins then newest clicks else oldest clicks

abbrev pub account_of : List Stream → Option Click → Option String
account_of streams none = none
account_of streams (some c) = elim (find (λ s. s.id == c.stream_id) streams) [
  | none ↦ none
  | some s ↦ some s.account_name
]

-- getAccountNameByAttributionModel
unfoldable pub get_account_name_by_attribution_model : Offer → String → Affiliates → Option String
get_account_name_by_attribution_model offer unique_id a =
    account_of a.streams (winning_click offer (select (is_click_of offer unique_id) a.clicks))

abbrev pub only_offer : List Offer → Action Affiliates Offer
only_offer [] = throw (app_error "Now it is supposed that it must be one offer for event_id")
only_offer (o ∷ []) = pure o
only_offer (o ∷ (p ∷ ps)) = throw (app_error "Only one offer is expected for eventId")

-- getOfferOrError
unfoldable pub get_offer_or_error : ℕ → Action Affiliates Offer
get_offer_or_error event_id a = only_offer (select (λ o. o.event_id == event_id) a.offers) a

pub record Attribution : Type 0 where
  pub offer_id : ℕ
  pub account_name_source : String

-- getEventIdAndActionOrException; `none` for an id that is missing or no number. The only event
-- with an action is the registration.
abbrev pub get_event_id : ℕ → Option ℤ → Action Affiliates ℕ
get_event_id registration none = throw (bad_request "event_id must be provided")
get_event_id registration (some (negsuc n)) = throw (bad_request "not a positive integer")
get_event_id registration (some (pos n)) =
    if n == 0
    then throw (bad_request "event_id must be provided")
    else (if n == registration then pure n else throw (bad_request "event ID is not allowed"))

-- AttributionService.process
module _ (registration : ℕ) (extract : String → Option String) where
  unfoldable pub attribute : Option String → Option ℤ → Action Affiliates Attribution
  unfolding get_offer_or_error
  attribute jwt_token event = do
    token ← or_throw jwt_token unprocessable_entity_error
    event_id ← get_event_id registration event
    unique_id ← or_throw (extract token) (http_unauthorized "Invalid token")
    offer ← get_offer_or_error event_id
    winner ← gets (get_account_name_by_attribution_model offer unique_id)
    account_name ← or_throw winner unprocessable_entity_error
    pure (record { offer_id = offer.id; account_name_source = account_name })
