-- ===== src/Affiliates/Streams/Laws.antt =====
-- After a run everybody has one link, and a second run finds nothing to do.
use ucom_backend.Prelude.{
  ℕ, ◌+◌, ◌≤◌, ◌≡◌, inl, inr, refl, Bool, true, false, not, ◌&&◌, List, [], ◌∷◌, ◌==◌,
  if◌then◌else◌, select, any, length, includes, IsUnique, arith, Bool-cases,
}
use ucom_backend.Affiliates.State.{Offer, Stream, next_id}
use ucom_backend.Affiliates.Streams.{
  User, is_stream_for, has_stream, without_streams, insert_streams,
  create_registration_streams_for_everybody,
}

abbrev pub ids : List User → List ℕ
ids [] = []
ids (u ∷ us) = u.id ∷ ids us

module _ (offer : Offer) where
  abbrev pub links : ℕ → List Stream → ℕ
  links k streams = length (select (is_stream_for offer k) streams)

  links-insert_streams :
      (us : List User) (streams : List Stream) (k : ℕ)
      → IsUnique (ids us)
      → links k (insert_streams offer us streams)
        ≡ links k streams + (if includes k (ids us) then 1 else 0)
  links-insert_streams [] streams k u = omega arith
  links-insert_streams (v ∷ us) streams k (fresh, u) =
      let row : Stream = record {
        id = next_id streams;
        user_id = v.id;
        account_name = v.account_name;
        offer_id = offer.id;
      } in
      let ih = links-insert_streams us (row ∷ streams) k u in
      elim (Bool-cases (k == v.id)) [
        | inl e ↦
            let same : v.id ≡ k = ground arith in
            let gone : includes k (ids us) ≡ false = rw same at fresh in ground arith
        | inr e ↦ ground arith
      ]

  includes-without :
      (users : List User) (streams : List Stream) (k : ℕ)
      → includes k (ids (without_streams offer streams users))
        ≡ (includes k (ids users) && not (any (is_stream_for offer k) streams))
  includes-without [] streams k = refl
  includes-without (v ∷ us) streams k =
      let ih = includes-without us streams k in
      elim (Bool-cases (k == v.id)) [
        | inl e ↦
            let same : k ≡ v.id = ground arith in
            elim (Bool-cases (has_stream offer streams v)) [
              | inl f ↦ rw (same, f) (ground (arith, includes-without us streams v.id))
              | inr f ↦ rw (same, f) (ground arith)
            ]
        | inr e ↦ elim (Bool-cases (has_stream offer streams v)) [
          | inl f ↦ rw (f, e) ih
          | inr f ↦ rw (f, e) ih
        ]
      ]

  without-IsUnique :
      (users : List User) (streams : List Stream)
      → IsUnique (ids users)
      → IsUnique (ids (without_streams offer streams users))
  without-IsUnique [] streams u = tt
  without-IsUnique (v ∷ us) streams (fresh, u) = elim (Bool-cases (has_stream offer streams v)) [
    | inl f ↦ rw f (without-IsUnique us streams u)
    | inr f ↦ rw f (ground (arith, includes-without us streams v.id), without-IsUnique us streams u)
  ]

  links_of_any :
      (k : ℕ) (streams : List Stream)
      → links k streams ≤ 1
      → links k streams ≡ (if any (is_stream_for offer k) streams then 1 else 0)
  links_of_any k [] h = refl
  links_of_any k (s ∷ ss) h = elim (Bool-cases (is_stream_for offer k s)) [
    | inl e ↦ rw e (let h' = rw e at h in omega arith)
    | inr e ↦ rw e (links_of_any k ss (rw e at h))
  ]

  one_link :
      (n m : ℕ) (i j b : Bool)
      → i ≡ true
      → n ≡ m + (if j then 1 else 0)
      → j ≡ (i && not b)
      → m ≡ (if b then 1 else 0)
      → n ≡ 1
  one_link n m i j b h k l p = ground arith

  -- Nobody is left without a link.
  nobody_left :
      (users : List User) (streams : List Stream)
      → ((k : ℕ) → includes k (ids users) ≡ true → any (is_stream_for offer k) streams ≡ true)
      → without_streams offer streams users ≡ []
  nobody_left [] streams h = refl
  nobody_left (v ∷ us) streams h =
      rw (h v.id (ground arith)) (nobody_left us streams (λ k i. h k (ground (arith, i))))

  any_of_links :
      (k : ℕ) (streams : List Stream)
      → links k streams ≡ 1
      → any (is_stream_for offer k) streams ≡ true
  any_of_links k [] h = absurd (omega arith)
  any_of_links k (s ∷ ss) h = elim (Bool-cases (is_stream_for offer k s)) [
    | inl e ↦ rw e refl
    | inr e ↦ rw e (any_of_links k ss (rw e at h))
  ]

  -- After a run every user has exactly one link of the offer, and the next run, for the same
  -- users, finds nothing to do. It takes ids of users that are unique, and at most one link of the
  -- offer for each user before.
  pub create_registration_streams_for_everybody_lem :
      (users : List User) (streams : List Stream)
      → IsUnique (ids users)
      → ((k : ℕ) → links k streams ≤ 1)
      → ((k : ℕ)
          → includes k (ids users) ≡ true
          → links k (create_registration_streams_for_everybody offer users streams).1 ≡ 1)
        × (create_registration_streams_for_everybody offer users
              (create_registration_streams_for_everybody offer users streams).1
            ≡ (0, (create_registration_streams_for_everybody offer users streams).1))
  unfolding create_registration_streams_for_everybody
  create_registration_streams_for_everybody_lem users streams u few =
      let missing = without_streams offer streams users in
      let one = λ (k : ℕ) (i : includes k (ids users) ≡ true).
        let a = links-insert_streams missing streams k (without-IsUnique users streams u) in
        let b = includes-without users streams k in
        let c = links_of_any k streams (few k) in
        let r : links k (insert_streams offer missing streams) ≡ 1 = one_link _ _ _ _ _ i a b c in
        r in
      let after = insert_streams offer missing streams in
      let none_left = nobody_left users after (λ k i. any_of_links k after (one k i)) in
      (one, rw none_left refl)
