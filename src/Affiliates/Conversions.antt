-- ===== src/Affiliates/Conversions.antt =====
-- The worker of the conversions: service/conversions/registration-conversion-processor.js,
-- repository/conversions-repository.js and users-activity-referral-repository.js. Whether the
-- activity of a conversion is sent to the blockchain is the parameter `is_sent`.
pub mod Found
pub mod Laws
use ucom_backend.Prelude.{
  ℕ, zero, suc, ◌+◌, Bool, true, false, ◌&&◌, ◌||◌, Option, none, some, List, [], ◌∷◌, ◌==◌,
  if◌then◌else◌, find, any, length,
}
use ucom_backend.Prelude.Action.{
  Action, ok, err, db_error, pure, throw_if, modify, transaction, ◌>>=◌, ◌>>◌,
}
use ucom_backend.Affiliates.State.{
  Stream, Conversion, Referral, Affiliates, status_new, status_success, status_duplicate,
}

pub record ConversionDto : Type 0 where
  pub conversion_id : ℕ
  pub referral_user_id : ℕ
  pub source_user_id : ℕ

abbrev pub dto_of : Conversion → Option Stream → List ConversionDto → List ConversionDto
dto_of c none rest = rest
dto_of c (some s) rest =
    record { conversion_id = c.id; referral_user_id = c.user_id; source_user_id = s.user_id } ∷ rest

module _ (is_sent : ℕ → Bool) where
  abbrev pub is_to_process : Conversion → Bool
  is_to_process c = is_sent c.users_activity_id && c.status == status_new

  -- findSentToBlockchainToProcess, the rows joined with the streams by their primary key
  unfoldable pub find_sent_to_blockchain_to_process :
      List Stream → List Conversion → List ConversionDto
  find_sent_to_blockchain_to_process streams [] = []
  find_sent_to_blockchain_to_process streams (c ∷ cs) =
      let rest = find_sent_to_blockchain_to_process streams cs in
      if is_to_process c then dto_of c (find (λ s. s.id == c.stream_id) streams) rest else rest

-- setStatusSuccessById and setStatusDuplicateById
abbrev pub set_status : ℕ → ℕ → List Conversion → List Conversion
set_status status id [] = []
set_status status id (c ∷ cs) =
    (if c.id == id then record c { status = status } else c) ∷ set_status status id cs

abbrev pub set_status_by_id : ℕ → ℕ → Action Affiliates (Unit {0})
set_status_by_id status id =
    modify (λ a. record a { conversions = set_status status id a.conversions })

abbrev pub is_referral : ℕ → ℕ → Referral → Bool
is_referral user source r = r.referral_user_id == user && r.source_entity_id == source

-- doesUserReferralExist
abbrev pub does_user_referral_exist : ℕ → ℕ → List Referral → Bool
does_user_referral_exist user source referrals = any (is_referral user source) referrals

-- insertOneUserReferral, under the two unique indexes of the table
abbrev pub insert_one_user_referral : ConversionDto → Action Affiliates (Unit {0})
insert_one_user_referral dto a =
    if does_user_referral_exist dto.referral_user_id dto.source_user_id a.referrals
      || any (λ r. r.conversion_id == dto.conversion_id) a.referrals
    then (err (db_error "a unique index of users_activity_referral"), a)
    else (
      ok tt,
      record a {
        referrals =
            record {
              referral_user_id = dto.referral_user_id;
              source_entity_id = dto.source_user_id;
              conversion_id = dto.conversion_id;
            }
            ∷ a.referrals;
      },
    )

unfoldable pub process_one_conversion : ConversionDto → Action Affiliates (Unit {0})
process_one_conversion dto a =
    if does_user_referral_exist dto.referral_user_id dto.source_user_id a.referrals
    then set_status_by_id status_duplicate dto.conversion_id a
    else transaction
        (insert_one_user_referral dto >> set_status_by_id status_success dto.conversion_id) a

unfoldable pub process_many : List ConversionDto → Action Affiliates (Unit {0})
process_many [] a = (ok tt, a)
process_many (dto ∷ dtos) a = (process_one_conversion dto >>= λ _. process_many dtos) a

-- RegistrationConversionProcessor.process, with totalProcessedCounter
unfoldable pub process_conversions : (ℕ → Bool) → Action Affiliates ℕ
process_conversions is_sent a =
    let dtos = find_sent_to_blockchain_to_process is_sent a.streams a.conversions in
    (process_many dtos >>= λ _. pure (length dtos)) a
