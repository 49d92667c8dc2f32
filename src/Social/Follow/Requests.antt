-- ===== src/Social/Follow/Requests.antt =====
-- Whole requests: when following and unfollowing succeed, and what they leave behind.
use text.Mathlib.TextEquality.{eq_iff}
use ucom_backend.Prelude.{
  ℕ, String, ◌≡◌, ◌≢◌, ◌⊎◌, ◌↔◌, inl, inr, refl, sym, ap, ◌∙◌, true, false, not, some, List, [],
  ◌∷◌, arith, select, select-not_of_any, Bool-cases, Option-cases,
}
use ucom_backend.Prelude.Action.{Result, ok, err, Error, run_cases}
use ucom_backend.Dictionary.{Dictionaries, IsLawful}
use ucom_backend.Social.Index.{matches, insert_row, delete_row}
use ucom_backend.Social.State.{
  Activity, Social, next_id, publish_with_user_activity, get_eos_version, contains,
}
use ucom_backend.Social.Follow.{
  get_last_follow_or_unfollow, is_follow_or_unfollow, follow_row, follow_event, create_follow_index,
  follow_activity, process_user_follows_or_unfollows_user, check_preconditions,
  user_follow_or_unfollow_user, user_follows_another_user, user_unfollows_user,
}
use ucom_backend.Social.Follow.Laws.{
  is_following, last_is_follow, IsConsistent, process_user_follows_or_unfollows_user-IsConsistent,
}

module _ (d : Dictionaries) (w : IsLawful d) where
  get_last_type :
      (from to : ℕ) (activities : List Activity) (a : Activity)
      → get_last_follow_or_unfollow d from to activities ≡ some a
      → (a.activity_type_id ≡ d.follow_id) ⊎ (a.activity_type_id ≡ d.unfollow_id)
  get_last_type from to [] a e = cc
  get_last_type from to (b ∷ bs) a e = elim (Bool-cases (is_follow_or_unfollow d from to b)) [
    | inl found ↦ ground arith
    | inr other ↦ get_last_type from to bs a (ground arith)
  ]

  -- The checks of a follow pass exactly for another user whom the history does not show followed.
  check_follow :
      (from to : ℕ) (s : Social)
      → (check_preconditions d from to d.follow_id s ≡ (ok tt, s))
        ↔ ((from ≢ to) × (last_is_follow d from to s ≡ false))
  unfolding check_preconditions
  check_follow from to s =
      elim (Option-cases (get_last_follow_or_unfollow d from to s.activities)) [
        | inl no_one ↦ ground arith
        | inr (a, e) ↦ ground arith
      ]

  check_unfollow :
      (from to : ℕ) (s : Social)
      → (check_preconditions d from to d.unfollow_id s ≡ (ok tt, s))
        ↔ ((from ≢ to) × (last_is_follow d from to s ≡ true))
  unfolding check_preconditions
  check_unfollow from to s =
      elim (Option-cases (get_last_follow_or_unfollow d from to s.activities)) [
        | inl no_one ↦ ground arith
        | inr (a, e) ↦ ground (arith, get_last_type from to s.activities a e)
      ]

  -- The checks write nothing.
  check_keeps : (from to type : ℕ) (s : Social) → (check_preconditions d from to type s).1 ≡ s
  unfolding check_preconditions
  check_keeps from to type s = ground arith

  -- A follow that the index does not hold yet is inserted.
  process_follow :
      (from to : ℕ) (signed : String) (s : Social)
      → to ≢ 0
      → is_following d from to s ≡ false
      → process_user_follows_or_unfollows_user d d.follow_id signed from to s ≡ (
        ok (next_id s.activities),
        record s {
          activities = follow_activity d d.follow_id signed from to ∷ s.activities;
          follows = follow_row d from to ∷ s.follows;
        },
      )
  unfolding process_user_follows_or_unfollows_user insert_row
  process_follow from to signed s p h = ground arith

  process_follow_refused :
      (from to : ℕ) (signed : String) (s : Social) (r : ℕ)
      → to ≡ 0
      → ¬ ((process_user_follows_or_unfollows_user d d.follow_id signed from to s).0 ≡ ok r)
  unfolding process_user_follows_or_unfollows_user insert_row
  process_follow_refused from to signed s r z h = ground arith

  -- An unfollow of a pair that the index holds deletes its row.
  process_unfollow :
      (from to : ℕ) (signed : String) (s : Social)
      → is_following d from to s ≡ true
      → process_user_follows_or_unfollows_user d d.unfollow_id signed from to s ≡ (
        ok (next_id s.activities),
        record s {
          activities = follow_activity d d.unfollow_id signed from to ∷ s.activities;
          follows = select (λ row. not (matches from to d.users row)) s.follows;
        },
      )
  unfolding process_user_follows_or_unfollows_user delete_row
  process_unfollow from to signed s h = ground arith

  -- The state after a request that succeeded: one activity, one change of the index, one job.
  abbrev pub after_follow : ℕ → ℕ → String → Social → Social
  after_follow from to signed s = record s {
    activities = follow_activity d d.follow_id signed from to ∷ s.activities;
    follows = follow_row d from to ∷ s.follows;
    jobs =
        record {
          activity_id = next_id s.activities;
          eos_js_v2 = contains signed "serializedTransaction";
        }
        ∷ s.jobs;
  }

  abbrev pub after_unfollow : ℕ → ℕ → String → Social → Social
  after_unfollow from to signed s = record s {
    activities = follow_activity d d.unfollow_id signed from to ∷ s.activities;
    follows = select (λ row. not (matches from to d.users row)) s.follows;
    jobs =
        record {
          activity_id = next_id s.activities;
          eos_js_v2 = contains signed "serializedTransaction";
        }
        ∷ s.jobs;
  }

  -- In a consistent state a follow of a user who is not followed yet succeeds, for another user
  -- of a positive id and with a signed transaction. It adds one activity, one row of the index
  -- and one job.
  pub user_follows_another_user_succeeds :
      (from to : ℕ) (signed : String) (s : Social)
      → IsConsistent d s
      → from ≢ to
      → to ≢ 0
      → signed ≢ ""
      → is_following d from to s ≡ false
      → user_follows_another_user d from to signed s ≡ (ok tt, after_follow from to signed s)
  unfolding user_follows_another_user user_follow_or_unfollow_user get_eos_version
      publish_with_user_activity
  user_follows_another_user_succeeds from to signed s c ne p q h =
      let passed = (check_follow from to s).1 (ne, sym (c from to) ∙ h) in
      ground (arith, passed, process_follow from to signed s p h, eq_iff signed "")

  -- In a consistent state an unfollow of another user who is followed succeeds with a signed
  -- transaction. It adds one activity and one job and deletes the row of the index.
  pub user_unfollows_user_succeeds :
      (from to : ℕ) (signed : String) (s : Social)
      → IsConsistent d s
      → from ≢ to
      → signed ≢ ""
      → is_following d from to s ≡ true
      → user_unfollows_user d from to signed s ≡ (ok tt, after_unfollow from to signed s)
  unfolding user_unfollows_user user_follow_or_unfollow_user get_eos_version
      publish_with_user_activity
  user_unfollows_user_succeeds from to signed s c ne q h =
      let passed = (check_unfollow from to s).1 (ne, sym (c from to) ∙ h) in
      ground (arith, passed, process_unfollow from to signed s h, eq_iff signed "")

  -- What a request that answers without an error had met.
  request_ok :
      (type from to : ℕ) (signed : String) (s : Social)
      → (user_follow_or_unfollow_user d from to type signed s).0 ≡ ok tt
      → (check_preconditions d from to type s ≡ (ok tt, s))
        × (signed ≢ "")
        × ((r : ℕ) × ((process_user_follows_or_unfollows_user d type signed from to s).0 ≡ ok r))
  unfolding user_follow_or_unfollow_user
  request_ok type from to signed s h = elim (run_cases (check_preconditions d from to type s)) [
    | inr (e, t, failed) ↦ ground arith
    | inl (x, t, passed) ↦
        let same : t ≡ s =
          sym (ap (λ (r : Result (Unit {0}) × Social). r.1) passed) ∙ check_keeps from to type s in
        let passed' = rw same at passed in
        elim (run_cases (process_user_follows_or_unfollows_user d type signed from to s)) [
          | inl (r, u, done) ↦ (passed', ground (arith, eq_iff signed "", passed'), (r, rw done))
          | inr (e, u, failed) ↦ ground (arith, passed')
        ]
  ]

  -- In a consistent state following succeeds exactly for another user, of a positive id, who is
  -- not followed yet, with a signed transaction.
  pub user_follows_another_user_iff :
      (from to : ℕ) (signed : String) (s : Social)
      → IsConsistent d s
      → ((user_follows_another_user d from to signed s).0 ≡ ok tt)
        ↔ ((from ≢ to) × (to ≢ 0) × (signed ≢ "") × (is_following d from to s ≡ false))
  unfolding user_follows_another_user
  user_follows_another_user_iff from to signed s c = (
    λ h.
        let (passed, q, (r, done)) = request_ok d.follow_id from to signed s h in
        let (ne, last) = (check_follow from to s).0 passed in
        (ne, λ z. process_follow_refused from to signed s r z done, q, c from to ∙ last),
    λ k.
        ap (λ (r : Result (Unit {0}) × Social). r.0)
          (user_follows_another_user_succeeds from to signed s c k.0 k.1 k.2 k.3),
  )

  -- In a consistent state unfollowing succeeds exactly for another user who is followed, with a
  -- signed transaction.
  pub user_unfollows_user_iff :
      (from to : ℕ) (signed : String) (s : Social)
      → IsConsistent d s
      → ((user_unfollows_user d from to signed s).0 ≡ ok tt)
        ↔ ((from ≢ to) × (signed ≢ "") × (is_following d from to s ≡ true))
  unfolding user_unfollows_user
  user_unfollows_user_iff from to signed s c = (
    λ h.
        let (passed, q, _) = request_ok d.unfollow_id from to signed s h in
        let (ne, last) = (check_unfollow from to s).0 passed in (ne, q, c from to ∙ last),
    λ k.
        ap (λ (r : Result (Unit {0}) × Social). r.0)
          (user_unfollows_user_succeeds from to signed s c k.0 k.1 k.2),
  )

  -- A request, whatever its kind, that is answered with an error changes nothing.
  user_follow_or_unfollow_user_atomic :
      (type from to : ℕ) (signed : String) (s : Social) {e : Error} {s' : Social}
      → user_follow_or_unfollow_user d from to type signed s ≡ (err e, s')
      → s' ≡ s
  unfolding user_follow_or_unfollow_user process_user_follows_or_unfollows_user get_eos_version
      publish_with_user_activity
  user_follow_or_unfollow_user_atomic type from to signed s {e} {s'} h =
      elim (run_cases (check_preconditions d from to type s)) [
        | inr (f, t, failed) ↦ ground (arith, check_keeps from to type s)
        | inl (x, t, passed) ↦
            elim (run_cases (create_follow_index d (follow_event d type) from to t)) [
              | inl (y, u, done) ↦ ground (arith, check_keeps from to type s)
              | inr (f, u, failed) ↦ ground (arith, check_keeps from to type s)
            ]
      ]

  -- In a consistent state, after a follow that succeeds, an unfollow with a signed transaction
  -- succeeds too and leaves the index as it was before the follow.
  pub follow_then_unfollow :
      (from to : ℕ) (signed signed' : String) (s : Social)
      → IsConsistent d s
      → (user_follows_another_user d from to signed s).0 ≡ ok tt
      → signed' ≢ ""
      → let s' = (user_follows_another_user d from to signed s).1 in
        ((user_unfollows_user d from to signed' s').0 ≡ ok tt)
        × ((user_unfollows_user d from to signed' s').1.follows ≡ s.follows)
  follow_then_unfollow from to signed signed' s c h q =
      let (ne, p, q0, fresh) = (user_follows_another_user_iff from to signed s c).0 h in
      let first = user_follows_another_user_succeeds from to signed s c ne p q0 fresh in
      let t : Social = after_follow from to signed s in
      let kept =
        process_user_follows_or_unfollows_user-IsConsistent d w d.follow_id from to signed s
          (inl refl) c in
      let c' : IsConsistent d t = rw (process_follow from to signed s p fresh) at kept in
      let followed : is_following d from to t ≡ true = ground (arith, eq_iff d.users d.users) in
      let second = user_unfollows_user_succeeds from to signed' t c' ne q followed in
      rw (first, second)
        (
          refl,
          ground (
            arith,
            eq_iff d.users d.users,
            select-not_of_any (matches from to d.users) s.follows fresh,
          ),
        )
