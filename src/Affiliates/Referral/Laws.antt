-- ===== src/Affiliates/Referral/Laws.antt =====
-- When a referral is accepted, and what becomes of it.
use mathlib.Core.Path.{subst}
use ucom_backend.Prelude.{
  ℕ, suc, ◌≤◌, String, ◌≡◌, refl, Bool, true, false, some, List, [], ◌∷◌, ◌==◌, find, select, any,
  All, length, arith,
}
use ucom_backend.Prelude.Action.{Error, ok, err, ◌>>=◌}
use ucom_backend.Dictionary.{Dictionaries}
use ucom_backend.Social.State as State
use ucom_backend.Social.State.{create_new_activity, publish_with_user_activity}
use ucom_backend.Affiliates.State.{Offer, Stream, Click, Conversion, Referral, Affiliates, next_id}
use ucom_backend.Affiliates.Clicks
use ucom_backend.Affiliates.Conversions.{
  find_sent_to_blockchain_to_process, does_user_referral_exist, process_conversions,
}
use ucom_backend.Affiliates.Conversions.Found.{is_new}
use ucom_backend.Affiliates.Conversions.Laws.{IsConsistent, process_conversions_lem}
use ucom_backend.Affiliates.Referral.{
  Request, is_stream_of, is_click_on, process_referral, conversion_of, referral_activity, eos_job,
}

module _ (d : Dictionaries) (registration referral : ℕ) (request : Request) (user_id : ℕ)
    (a : Affiliates) where
  -- The request is in order: it has the cookie and a body that joi accepts, there is one offer for
  -- registrations, and the visitor has clicked on the link of that offer that the body names.
  pub record IsAcceptable : Type 0 where
    pub unique_id : String
    pub cookie : request.unique_id ≡ some unique_id
    pub valid : request.is_valid ≡ true
    pub offer : Offer
    pub only : select (λ o. o.event_id == registration) a.offers ≡ offer ∷ []
    pub stream : Stream
    pub named : find (is_stream_of offer request.account_name_source) a.streams ≡ some stream
    pub click : Click
    pub clicked : find (is_click_on offer stream unique_id) a.clicks ≡ some click

  abbrev new_conversion : IsAcceptable → Conversion
  new_conversion r =
      conversion_of d registration referral a r.offer r.stream r.click
        (State.next_id a.social.activities) user_id

  -- The state after a referral that is accepted.
  abbrev pub referred : IsAcceptable → Affiliates
  referred r = record a {
    conversions = new_conversion r ∷ a.conversions;
    social = record a.social {
      activities =
          referral_activity d registration referral request.signed_transaction user_id
            r.stream.user_id
          ∷ a.social.activities;
      jobs = eos_job d registration referral (State.next_id a.social.activities) ∷ a.social.jobs;
    };
  }

  pub accepted :
      (r : IsAcceptable)
      → process_referral d registration referral request user_id a ≡ (ok tt, referred r)
  unfolding process_referral
  accepted r = rw (r.cookie, r.valid, r.only, r.named, r.clicked) refl

  abbrev Refused : Type 0
  Refused = (e : Error) × (process_referral d registration referral request user_id a ≡ (err e, a))

  -- The ids of the conversions are those of their sequence.
  pub record IsNumbered : Type 0 where
    pub conversions : All (λ c. c.id ≤ length a.conversions) a.conversions
    pub referrals : All (λ r. r.conversion_id ≤ length a.conversions) a.referrals

  fresh_id :
      (n : ℕ) (cs : List Conversion) → All (λ c. c.id ≤ n) cs → any (λ t. t.id == suc n) cs ≡ false
  fresh_id n [] h = refl
  fresh_id n (c ∷ cs) (p, h) = let ih = fresh_id n cs h in ground arith

  unsettled :
      (n : ℕ) (new : Conversion) (cs : List Conversion) (rs : List Referral)
      → new.id ≡ suc n
      → All (λ r. r.conversion_id ≤ n) rs
      → All (λ r. is_new r.conversion_id cs ≡ false) rs
      → All (λ r. is_new r.conversion_id (new ∷ cs) ≡ false) rs
  unsettled n new cs [] e h s = tt
  unsettled n new cs (r ∷ rs) e (p, h) (q, s) = (ground arith, unsettled n new cs rs e h s)

  referred-IsConsistent :
      (r : IsAcceptable) → IsNumbered → IsConsistent a → IsConsistent (referred r)
  referred-IsConsistent r n c = record {
    unique = (fresh_id (length a.conversions) a.conversions n.conversions, c.unique);
    settled =
        unsettled (length a.conversions) (new_conversion r) a.conversions a.referrals refl
          n.referrals c.settled;
  }

  found_new :
      (is_sent : ℕ → Bool) (r : IsAcceptable)
      → is_sent (State.next_id a.social.activities) ≡ true
      → find (λ s. s.id == r.stream.id) a.streams ≡ some r.stream
      → find_sent_to_blockchain_to_process is_sent (referred r).streams (referred r).conversions
        ≡ record {
          conversion_id = next_id a.conversions;
          referral_user_id = user_id;
          source_user_id = r.stream.user_id;
        }
          ∷ find_sent_to_blockchain_to_process is_sent a.streams a.conversions
  unfolding find_sent_to_blockchain_to_process
  found_new is_sent r sent by_id = rw (sent, by_id) refl

  -- An accepted referral is credited: once its activity is sent to the blockchain, the next run
  -- over the conversions succeeds and leaves a referral of the new user by the owner of the link
  -- that the request named. It takes a consistent state, and ids of streams and of conversions
  -- as the database gives them.
  pub referral_is_credited :
      (is_sent : ℕ → Bool) (r : IsAcceptable)
      → IsNumbered
      → IsConsistent a
      → Clicks.Laws.UniqueIds a.streams
      → is_sent (State.next_id a.social.activities) ≡ true
      → (n : ℕ) × (a' : Affiliates) × ((process_referral d registration referral request user_id
              >>= λ _. process_conversions is_sent)
            a
          ≡ (ok n, a'))
        × (does_user_referral_exist user_id r.stream.user_id a'.referrals ≡ true)
  referral_is_credited is_sent r n c u sent =
      let by_id = Clicks.Laws.find_by_id _ a.streams r.stream u r.named in
      let (a', run, p) =
        process_conversions_lem is_sent (referred r) (referred-IsConsistent r n c) in
      (
        length (
            find_sent_to_blockchain_to_process is_sent (referred r).streams
              (referred r).conversions),
        a',
        rw (accepted r) run,
        (subst
            (All (λ d.
              does_user_referral_exist d.referral_user_id d.source_user_id a'.referrals ≡ true))
            (found_new is_sent r sent by_id) p.made).0,
      )
