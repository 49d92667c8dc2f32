-- ===== src/Tests/Affiliates.antt =====
-- One offer for registrations (event 5), and the links of the users 1 and 2.
use ucom_backend.Prelude.{
  ℕ, ◌≤◌, ◌≡◌, refl, String, Bool, true, false, Option, some, List, [], ◌∷◌, length, includes,
  arith, ◌==◌,
}
use ucom_backend.Prelude.Int.{pos}
use ucom_backend.Prelude.Action.{ok, ◌>>=◌}
use ucom_backend.Affiliates.State.{Offer, Stream, Affiliates, last_wins}
use ucom_backend.Affiliates.Clicks.{
  redirect, attribute, get_offer_or_error, get_account_name_by_attribution_model, insert_click,
  Attribution,
}
use ucom_backend.Affiliates.Clicks.Laws.{redirect_then_attribute}
use ucom_backend.Affiliates.Conversions.{
  process_conversions, does_user_referral_exist, find_sent_to_blockchain_to_process,
}
use ucom_backend.Affiliates.Conversions.Laws.{IsConsistent, Processed, process_conversions_lem}
use ucom_backend.Affiliates.Referral.{Request, process_referral}
use ucom_backend.Affiliates.Referral.Laws.{IsAcceptable, referred, referral_is_credited}
use ucom_backend.Affiliates.Streams.{User, create_registration_streams_for_everybody}
use ucom_backend.Affiliates.Streams.Laws.{ids, links, create_registration_streams_for_everybody_lem}
use ucom_backend.Dictionary.{sample_dictionaries as d}

abbrev the_offer : Offer
the_offer = record { id = 1; event_id = 5; hash = "h"; attribution_id = 2 }

abbrev stream_of : ℕ → String → Stream
stream_of user name = record { id = user; user_id = user; account_name = name; offer_id = 1 }

abbrev before : Affiliates
before = record {
  offers = the_offer ∷ [];
  streams = stream_of 2 "bob" ∷ stream_of 1 "alice" ∷ [];
  clicks = record { id = 1; offer_id = 1; stream_id = 1; user_unique_id = "visitor" } ∷ [];
  conversions = [];
  referrals = [];
  social = record { activities = []; follows = []; trusts = []; auto_updates = []; jobs = [] };
}

abbrev extract : String → Option String
extract token = some "visitor"

abbrev after : Affiliates
after = insert_click (stream_of 2 "bob") "visitor" before

redirected : redirect "visitor" "h" "bob" before ≡ (ok (stream_of 2 "bob"), after)
unfolding redirect
redirected = refl

redirect_then_attribute_example :
    (((the_offer.attribution_id == last_wins) ≡ true)
      → (attribute 5 extract (some "token") (some (pos 5)) after).0
        ≡ ok (record { offer_id = 1; account_name_source = "bob" }))
    × (((the_offer.attribution_id == last_wins) ≡ false)
        → (w : Attribution) → (attribute 5 extract (some "token") (some (pos 5)) before).0 ≡ ok w
        → (attribute 5 extract (some "token") (some (pos 5)) after).0 ≡ ok w)
redirect_then_attribute_example =
    redirect_then_attribute 5 extract "token" "visitor" "h" "bob" the_offer before after
      (stream_of 2 "bob") refl refl refl (refl, (refl, tt)) redirected refl

attribute_test :
    (attribute 5 extract (some "token") (some (pos 5)) after).0
    ≡ ok (record { offer_id = 1; account_name_source = "bob" })
unfolding attribute get_offer_or_error get_account_name_by_attribution_model
attribute_test = refl

abbrev request : Request
request = record {
  unique_id = some "visitor";
  is_valid = true;
  account_name_source = "bob";
  signed_transaction = "signed";
}

abbrev acceptable : IsAcceptable d 5 6 request 3 after
acceptable = record {
  unique_id = "visitor";
  cookie = refl;
  valid = refl;
  offer = the_offer;
  only = refl;
  stream = stream_of 2 "bob";
  named = refl;
  click = record { id = 2; offer_id = 1; stream_id = 2; user_unique_id = "visitor" };
  clicked = refl;
}

abbrev every_activity : ℕ → Bool
every_activity id = true

after-IsConsistent : IsConsistent after
after-IsConsistent = record { unique = tt; settled = tt }

referral_is_credited_example :
    (n : ℕ) × (a' : Affiliates) × ((process_referral d 5 6 request 3 >>= λ _.
    process_conversions every_activity)
        after
      ≡ (ok n, a'))
    × (does_user_referral_exist 3 2 a'.referrals ≡ true)
referral_is_credited_example =
    referral_is_credited d 5 6 request 3 after every_activity acceptable
      (record { conversions = tt; referrals = tt }) after-IsConsistent (refl, (refl, tt)) refl

process_conversions_lem_example :
    (a' : Affiliates) × (process_conversions every_activity
        (referred d 5 6 request 3 after acceptable)
      ≡ (
        ok (
            length (
              find_sent_to_blockchain_to_process every_activity after.streams
                (referred d 5 6 request 3 after acceptable).conversions)),
        a',
      ))
    × Processed every_activity
        (find_sent_to_blockchain_to_process every_activity after.streams
          (referred d 5 6 request 3 after acceptable).conversions)
        (referred d 5 6 request 3 after acceptable)
        a'
process_conversions_lem_example =
    process_conversions_lem every_activity (referred d 5 6 request 3 after acceptable)
      (record { unique = (refl, tt); settled = tt })

abbrev users : List User
users = record { id = 1; account_name = "alice" } ∷ record { id = 3; account_name = "carl" } ∷ []

few : (k : ℕ) → links the_offer k before.streams ≤ 1
few k = ground arith

create_registration_streams_for_everybody_lem_example :
    ((k : ℕ)
      → includes k (ids users) ≡ true
      → links the_offer k
          (create_registration_streams_for_everybody the_offer users before.streams).1
        ≡ 1)
    × (create_registration_streams_for_everybody the_offer users
          (create_registration_streams_for_everybody the_offer users before.streams).1
        ≡ (0, (create_registration_streams_for_everybody the_offer users before.streams).1))
create_registration_streams_for_everybody_lem_example =
    create_registration_streams_for_everybody_lem the_offer users before.streams (refl, (refl, tt))
      few
