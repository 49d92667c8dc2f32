-- ===== src/Affiliates/State.antt =====
-- The tables of lib/affiliates, and the errors of the referral services. The tables stand newest
-- first, so that an order by descending id is the order of the list. URLs, headers and referers
-- are left out.
use ucom_backend.Prelude.{ℕ, suc, String, List, length}
use ucom_backend.Prelude.Action.{Error, js_error}
use ucom_backend.Social.State.{Social}

pub record Offer : Type 0 where
  pub id : ℕ
  pub event_id : ℕ
  pub hash : String
  pub attribution_id : ℕ

pub record Stream : Type 0 where
  pub id : ℕ
  pub user_id : ℕ
  pub account_name : String
  pub offer_id : ℕ

pub record Click : Type 0 where
  pub id : ℕ
  pub offer_id : ℕ
  pub stream_id : ℕ
  pub user_unique_id : String

pub record Conversion : Type 0 where
  pub id : ℕ
  pub offer_id : ℕ
  pub stream_id : ℕ
  pub click_id : ℕ
  pub users_activity_id : ℕ
  pub user_id : ℕ
  pub status : ℕ

-- A row of users_activity_referral; its entity is a user.
pub record Referral : Type 0 where
  pub referral_user_id : ℕ
  pub source_entity_id : ℕ
  pub conversion_id : ℕ

-- The rows of users_activity that a referral writes are those of `social`.
pub record Affiliates : Type 0 where
  pub offers : List Offer
  pub streams : List Stream
  pub clicks : List Click
  pub conversions : List Conversion
  pub referrals : List Referral
  pub social : Social

-- process-statuses-dictionary.js
abbrev pub status_new : ℕ
status_new = 1

abbrev pub status_success : ℕ
status_success = 2

abbrev pub status_duplicate : ℕ
status_duplicate = 3

-- affiliates-attribution-ids-dictionary.js
abbrev pub last_wins : ℕ
last_wins = 2

abbrev pub unprocessable_entity_error : Error
unprocessable_entity_error = js_error "unprocessable entity"

-- The id of a new row of a table from which no row is deleted.
abbrev pub next_id {ℓ} : {A : Type ℓ} → List A → ℕ
next_id rows = suc (length rows)
