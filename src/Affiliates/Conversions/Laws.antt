-- ===== src/Affiliates/Conversions/Laws.antt =====
-- A run of the worker over the conversions.
use ucom_backend.Prelude.{
  ℕ, ◌≡◌, inl, inr, refl, Bool, true, false, List, [], ◌∷◌, ◌==◌, if◌then◌else◌, any, length, All,
  arith, Bool-cases,
}
use ucom_backend.Prelude.Action.{ok}
use ucom_backend.Affiliates.State.{
  Conversion, Referral, Affiliates, status_new, status_success, status_duplicate,
}
use ucom_backend.Affiliates.Conversions.Found.{
  is_new, UniqueIds, set_status-UniqueIds, set_status_settled, set_status_settles, found_rest,
}
use ucom_backend.Affiliates.Conversions.{
  ConversionDto, find_sent_to_blockchain_to_process, set_status, does_user_referral_exist,
  is_referral, process_one_conversion, process_many, process_conversions,
}

-- A referral comes from a conversion that is not new any more.
pub record IsConsistent (a : Affiliates) : Type 0 where
  pub unique : UniqueIds a.conversions
  pub settled : All (λ r. is_new r.conversion_id a.conversions ≡ false) a.referrals

settles_success : (status_success == status_new) ≡ false
settles_success = refl

settles_duplicate : (status_duplicate == status_new) ≡ false
settles_duplicate = refl

module _ (P Q : Referral → Type 0) where
  All-map : (rs : List Referral) → ((r : Referral) → P r → Q r) → All P rs → All Q rs
  All-map [] f h = tt
  All-map (r ∷ rs) f (p, h) = (f r p, All-map rs f h)

-- A new conversion has no referral yet.
no_referral_of_new :
    (id : ℕ) (cs : List Conversion) (rs : List Referral)
    → All (λ r. is_new r.conversion_id cs ≡ false) rs
    → is_new id cs ≡ true
    → any (λ r. r.conversion_id == id) rs ≡ false
no_referral_of_new id cs [] h n = refl
no_referral_of_new id cs (r ∷ rs) (p, h) n = elim (Bool-cases (r.conversion_id == id)) [
  | inl e ↦ let same : r.conversion_id ≡ id = ground arith in cc (rw same at p, n)
  | inr e ↦ rw e (no_referral_of_new id cs rs h n)
]

abbrev with_status : ℕ → ℕ → Affiliates → Affiliates
with_status status id a = record a { conversions = set_status status id a.conversions }

abbrev referral_of : ConversionDto → Referral
referral_of d = record {
  referral_user_id = d.referral_user_id;
  source_entity_id = d.source_user_id;
  conversion_id = d.conversion_id;
}

-- The state after one conversion.
abbrev after_one : ConversionDto → Affiliates → Affiliates
after_one d a =
    if does_user_referral_exist d.referral_user_id d.source_user_id a.referrals
    then with_status status_duplicate d.conversion_id a
    else with_status status_success d.conversion_id
        (record a { referrals = referral_of d ∷ a.referrals })

process_one_conversion_lem :
    (d : ConversionDto) (a : Affiliates)
    → IsConsistent a
    → is_new d.conversion_id a.conversions ≡ true
    → process_one_conversion d a ≡ (ok tt, after_one d a)
unfolding process_one_conversion
process_one_conversion_lem d a c n =
    let fresh = no_referral_of_new d.conversion_id a.conversions a.referrals c.settled n in
    elim (Bool-cases (does_user_referral_exist d.referral_user_id d.source_user_id a.referrals)) [
      | inl e ↦ rw e refl
      | inr e ↦ rw (e, fresh) refl
    ]

after_one-IsConsistent :
    (d : ConversionDto) (a : Affiliates) → IsConsistent a → IsConsistent (after_one d a)
after_one-IsConsistent d a c =
    elim (Bool-cases (does_user_referral_exist d.referral_user_id d.source_user_id a.referrals)) [
      | inl e ↦ rw e (record {
        unique = set_status-UniqueIds status_duplicate d.conversion_id a.conversions c.unique;
        settled =
            All-map _ _ a.referrals
              (λ r h.
                set_status_settled status_duplicate settles_duplicate d.conversion_id
                  r.conversion_id a.conversions h)
              c.settled;
      })
      | inr e ↦ rw e (record {
        unique = set_status-UniqueIds status_success d.conversion_id a.conversions c.unique;
        settled = (
          set_status_settles status_success settles_success d.conversion_id a.conversions,
          All-map _ _ a.referrals
              (λ r h.
                set_status_settled status_success settles_success d.conversion_id r.conversion_id
                  a.conversions h)
              c.settled,
        );
      })
    ]

after_one-streams : (d : ConversionDto) (a : Affiliates) → (after_one d a).streams ≡ a.streams
after_one-streams d a = ground arith

is_referral_self :
    (d : ConversionDto) → is_referral d.referral_user_id d.source_user_id (referral_of d) ≡ true
is_referral_self d = ground arith

-- A conversion that was processed has its referral, and no referral is lost.
after_one-referral :
    (d : ConversionDto) (a : Affiliates)
    → does_user_referral_exist d.referral_user_id d.source_user_id (after_one d a).referrals ≡ true
after_one-referral d a =
    elim (Bool-cases (does_user_referral_exist d.referral_user_id d.source_user_id a.referrals)) [
      | inl e ↦ rw e e
      | inr e ↦ rw (e, is_referral_self d) refl
    ]

after_one-keeps :
    (d : ConversionDto) (a : Affiliates) (user source : ℕ)
    → does_user_referral_exist user source a.referrals ≡ true
    → does_user_referral_exist user source (after_one d a).referrals ≡ true
after_one-keeps d a user source h =
    elim (Bool-cases (does_user_referral_exist d.referral_user_id d.source_user_id a.referrals)) [
      | inl e ↦ rw e h
      | inr e ↦ rw (e, h) (ground arith)
    ]

after_one-found :
    (is_sent : ℕ → Bool) (d : ConversionDto) (ds : List ConversionDto) (a : Affiliates)
    → IsConsistent a
    → find_sent_to_blockchain_to_process is_sent a.streams a.conversions ≡ d ∷ ds
    → (find_sent_to_blockchain_to_process is_sent
          (after_one d a).streams
          (after_one d a).conversions
        ≡ ds)
      × (is_new d.conversion_id a.conversions ≡ true)
after_one-found is_sent d ds a c h =
    elim (Bool-cases (does_user_referral_exist d.referral_user_id d.source_user_id a.referrals)) [
      | inl e ↦ rw e (
          found_rest status_duplicate settles_duplicate is_sent a.streams a.conversions d ds
            c.unique h)
      | inr e ↦ rw e (
          found_rest status_success settles_success is_sent a.streams a.conversions d ds c.unique h)
    ]

-- What a run leaves: `kept` are the referrals that were there, `made` the conversions found.
pub record Processed (is_sent : ℕ → Bool) (dtos : List ConversionDto) (a a' : Affiliates)
    : Type 0 where
  pub consistent : IsConsistent a'
  pub nothing_left : find_sent_to_blockchain_to_process is_sent a'.streams a'.conversions ≡ []
  pub kept :
      (user source : ℕ)
      → does_user_referral_exist user source a.referrals ≡ true
      → does_user_referral_exist user source a'.referrals ≡ true
  pub made :
      All
        (λ d. does_user_referral_exist d.referral_user_id d.source_user_id a'.referrals ≡ true)
        dtos

process_many_lem :
    (is_sent : ℕ → Bool) (dtos : List ConversionDto) (a : Affiliates)
    → IsConsistent a
    → find_sent_to_blockchain_to_process is_sent a.streams a.conversions ≡ dtos
    → (a' : Affiliates) × (process_many dtos a ≡ (ok tt, a')) × Processed is_sent dtos a a'
unfolding process_many
process_many_lem is_sent [] a c h =
    (a, refl, record { consistent = c; nothing_left = h; kept = λ user source k. k; made = tt })
process_many_lem is_sent (d ∷ ds) a c h =
    let (left, n) = after_one-found is_sent d ds a c h in
    let b = after_one d a in
    let (a', run, p) = process_many_lem is_sent ds b (after_one-IsConsistent d a c) left in
    (
      a',
      rw (process_one_conversion_lem d a c n) run,
      record {
        consistent = p.consistent;
        nothing_left = p.nothing_left;
        kept = λ user source k. p.kept user source (after_one-keeps d a user source k);
        made = (p.kept d.referral_user_id d.source_user_id (after_one-referral d a), p.made);
      },
    )

-- In a consistent state a run over the conversions never fails and counts those it found. It
-- leaves a consistent state in which none is left that was sent and is new, every one it found
-- has a referral of its user by the owner of its link, and no referral is lost.
pub process_conversions_lem :
    (is_sent : ℕ → Bool) (a : Affiliates)
    → IsConsistent a
    → (a' : Affiliates) × (process_conversions is_sent a
        ≡ (ok (length (find_sent_to_blockchain_to_process is_sent a.streams a.conversions)), a'))
      × Processed is_sent (find_sent_to_blockchain_to_process is_sent a.streams a.conversions) a a'
unfolding process_conversions
process_conversions_lem is_sent a c =
    let (a', run, p) = process_many_lem is_sent _ a c refl in (a', rw run refl, p)
