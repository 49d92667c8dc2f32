-- ===== src/Affiliates/Streams.antt =====
-- The links of the users: service/streams-creator-service.js.
pub mod Laws
use ucom_backend.Prelude.{ℕ, String, Bool, not, ◌&&◌, List, [], ◌∷◌, ◌==◌, select, any, length}
use ucom_backend.Affiliates.State.{Offer, Stream, next_id}

pub record User : Type 0 where
  pub id : ℕ
  pub account_name : String

abbrev pub is_stream_for : Offer → ℕ → Stream → Bool
is_stream_for offer user s = s.user_id == user && s.offer_id == offer.id

abbrev pub has_stream : Offer → List Stream → User → Bool
has_stream offer streams u = any (is_stream_for offer u.id) streams

-- The left join with the streams of the offer, where there is none.
abbrev pub without_streams : Offer → List Stream → List User → List User
without_streams offer streams users = select (λ u. not (has_stream offer streams u)) users

abbrev pub insert_streams : Offer → List User → List Stream → List Stream
insert_streams offer [] streams = streams
insert_streams offer (u ∷ us) streams = insert_streams offer us (
    record {
      id = next_id streams;
      user_id = u.id;
      account_name = u.account_name;
      offer_id = offer.id;
    }
    ∷ streams)

-- The new table, and totalProcessedCounter.
unfoldable pub create_registration_streams_for_everybody :
    Offer → List User → List Stream → ℕ × List Stream
create_registration_streams_for_everybody offer users streams =
    let missing = without_streams offer streams users in
    (length missing, insert_streams offer missing streams)
