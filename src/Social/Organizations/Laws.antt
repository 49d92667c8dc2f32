-- ===== src/Social/Organizations/Laws.antt =====
-- The index and the history of follows of organizations, and what they leave to those of users.
use text.Mathlib.TextEquality.{eq_iff}
use ucom_backend.Prelude.{
  ℕ, String, ◌≡◌, ◌≢◌, ◌⊎◌, ◌↔◌, inl, inr, refl, Bool, true, false, ◌&&◌, Option, none, some, ◌∷◌,
  ◌==◌, if◌then◌else◌, arith, Option-cases,
}
use ucom_backend.Prelude.Action.{ok, run_cases}
use ucom_backend.Dictionary.{Dictionaries, IsLawful}
use ucom_backend.Social.Index.{exists, insert_row, delete_row}
use ucom_backend.Social.Index.Laws.{
  exists-insert_row, exists-delete_row, exists-insert_row_other, exists-delete_row_other,
}
use ucom_backend.Social.State.{
  Activity, Social, create_new_activity, get_eos_version, publish_with_user_activity,
}
use ucom_backend.Social.Follow.Laws as F
use ucom_backend.Social.Organizations.{
  Events, AreLawful, get_current_activity, check_follow_preconditions, org_row,
  create_org_follow_index, org_event, org_activity, org_transaction,
  user_follows_or_unfollows_organization, user_follows_organization, user_unfollows_organization,
}

module _ (d : Dictionaries) (ev : Events) where
  abbrev pub is_following_org : ℕ → ℕ → Social → Bool
  is_following_org from org s = exists from org d.organizations s.follows

  abbrev pub is_follow : Option Activity → Bool
  is_follow none = false
  is_follow (some a) = a.activity_type_id == d.follow_id

  abbrev pub last_is_org_follow : ℕ → ℕ → Social → Bool
  last_is_org_follow from org s = is_follow (get_current_activity d ev from org s.activities)

  -- The index and the history agree about every user and organization.
  abbrev pub IsOrgConsistent : Social → Type 0
  IsOrgConsistent s = (from org : ℕ) → is_following_org from org s ≡ last_is_org_follow from org s

module _ (d : Dictionaries) (w : IsLawful d) (ev : Events) (lw : AreLawful ev) where
  last_is_org_follow-cons :
      (type from org u v : ℕ) (signed : String) (s : Social)
      → (type ≡ d.follow_id) ⊎ (type ≡ d.unfollow_id)
      → is_follow d ev
          (get_current_activity d ev u v (org_activity d ev type signed from org ∷ s.activities))
        ≡ (if u == from && v == org then type == d.follow_id else last_is_org_follow d ev u v s)
  last_is_org_follow-cons type from org u v signed s h =
      ground (arith, eq_iff d.organizations d.organizations)

  create_org_follow_index-is_following_org :
      (type from org u v : ℕ) (s : Social) {s' : Social}
      → (type ≡ d.follow_id) ⊎ (type ≡ d.unfollow_id)
      → create_org_follow_index d ev (org_event d ev type) from org s ≡ (ok tt, s')
      → (is_following_org d ev u v s'
          ≡ (if u == from && v == org then type == d.follow_id else is_following_org d ev u v s))
        × (s'.activities ≡ s.activities)
  unfolding create_org_follow_index
  create_org_follow_index-is_following_org type from org u v s (inl e) h =
      elim (Option-cases (insert_row (org_row d ev from org) s.follows)) [
        | inl no_row ↦ ground arith
        | inr (rows, done) ↦
            ground
              (arith, lw.follow_org, exists-insert_row (org_row d ev from org) u v s.follows done)
      ]
  create_org_follow_index-is_following_org type from org u v s (inr e) h =
      elim (Option-cases (delete_row from org d.organizations s.follows)) [
        | inl no_row ↦
            ground (arith, lw.unfollow_org, lw.unfollow_org_is_no_follow, w.follow_ne_unfollow)
        | inr (rows, done) ↦ ground (
          arith,
          lw.unfollow_org,
          lw.unfollow_org_is_no_follow,
          w.follow_ne_unfollow,
          exists-delete_row from org u v d.organizations s.follows done,
        )
      ]

  -- A transaction that follows or unfollows an organization, committed or rolled back, keeps the
  -- index in agreement with the history, with no precondition checked.
  pub org_transaction-IsOrgConsistent :
      (type from org : ℕ) (signed : String) (s : Social)
      → (type ≡ d.follow_id) ⊎ (type ≡ d.unfollow_id)
      → IsOrgConsistent d ev s
      → IsOrgConsistent d ev (org_transaction d ev type signed from org s).1
  unfolding org_transaction
  org_transaction-IsOrgConsistent type from org signed s h c u v =
      elim (run_cases (create_org_follow_index d ev (org_event d ev type) from org s)) [
        | inr (e, t, failed) ↦ rw failed (c u v)
        | inl (x, t, done) ↦
            let (index, same) =
              create_org_follow_index-is_following_org type from org u v s h done in
            rw (done, same, index)
              (rw (last_is_org_follow-cons type from org u v signed s h, c u v) refl)
      ]

  -- Following an organization succeeds exactly for one that is not followed yet and has a positive
  -- id, with a signed transaction, where the index agrees with the history.
  user_follows_organization_iff :
      (from org : ℕ) (signed : String) (s : Social)
      → IsOrgConsistent d ev s
      → ((user_follows_organization d ev from org signed s).0 ≡ ok tt)
        ↔ ((org ≢ 0) × (signed ≢ "") × (is_following_org d ev from org s ≡ false))
  unfolding user_follows_organization user_follows_or_unfollows_organization
      check_follow_preconditions org_transaction get_eos_version insert_row
      publish_with_user_activity
  user_follows_organization_iff from org signed s c =
      elim (Option-cases (get_current_activity d ev from org s.activities)) [
        | inl nothing ↦
            ground (arith, c from org, eq_iff signed "", lw.follow_org, w.follow_needs_none)
        | inr (a, e) ↦
            ground (arith, c from org, eq_iff signed "", lw.follow_org, w.follow_needs_none)
      ]

  -- Unfollowing an organization succeeds exactly for one that is followed, with a signed
  -- transaction, where the index agrees with the history.
  user_unfollows_organization_iff :
      (from org : ℕ) (signed : String) (s : Social)
      → IsOrgConsistent d ev s
      → ((user_unfollows_organization d ev from org signed s).0 ≡ ok tt)
        ↔ ((signed ≢ "") × (is_following_org d ev from org s ≡ true))
  unfolding user_unfollows_organization user_follows_or_unfollows_organization
      check_follow_preconditions org_transaction get_eos_version delete_row
      publish_with_user_activity
  user_unfollows_organization_iff from org signed s c =
      elim (Option-cases (get_current_activity d ev from org s.activities)) [
        | inl nothing ↦ ground (
          arith,
          c from org,
          eq_iff signed "",
          lw.unfollow_org,
          lw.unfollow_org_is_no_follow,
          w.unfollow_needs_opposite,
          w.opposite_of_unfollow,
          w.follow_ne_unfollow,
        )
        | inr (a, e) ↦ ground (
          arith,
          c from org,
          eq_iff signed "",
          lw.unfollow_org,
          lw.unfollow_org_is_no_follow,
          w.unfollow_needs_opposite,
          w.opposite_of_unfollow,
          w.follow_ne_unfollow,
          w.follow_id_pos,
        )
      ]

  -- Following an organization succeeds exactly for one that is not followed yet and has a positive
  -- id, and unfollowing exactly for one that is followed, both with a signed transaction, where
  -- the index agrees with the history.
  pub user_follows_and_unfollows_organization_iff :
      (from org : ℕ) (signed : String) (s : Social)
      → IsOrgConsistent d ev s
      → (((user_follows_organization d ev from org signed s).0 ≡ ok tt)
          ↔ ((org ≢ 0) × (signed ≢ "") × (is_following_org d ev from org s ≡ false)))
        × (((user_unfollows_organization d ev from org signed s).0 ≡ ok tt)
            ↔ ((signed ≢ "") × (is_following_org d ev from org s ≡ true)))
  user_follows_and_unfollows_organization_iff from org signed s c = (
    user_follows_organization_iff from org signed s c,
    user_unfollows_organization_iff from org signed s c,
  )

  -- A transaction that follows or unfollows an organization leaves the follows of users as they
  -- were, in the index and in the history, where the two tables have different entity names: what
  -- was consistent stays so.
  pub org_transaction-IsConsistent :
      (type from org : ℕ) (signed : String) (s : Social)
      → d.organizations ≢ d.users
      → (type ≡ d.follow_id) ⊎ (type ≡ d.unfollow_id)
      → F.IsConsistent d s
      → F.IsConsistent d (org_transaction d ev type signed from org s).1
  unfolding org_transaction create_org_follow_index create_new_activity
  org_transaction-IsConsistent type from org signed s ne (inl e) c u v =
      elim (Option-cases (insert_row (org_row d ev from org) s.follows)) [
        | inl no_row ↦ ground (arith, c u v)
        | inr (rows, done) ↦ ground (
          arith,
          c u v,
          lw.follow_org,
          exists-insert_row_other (org_row d ev from org) u v d.users s.follows ne done,
        )
      ]
  org_transaction-IsConsistent type from org signed s ne (inr e) c u v =
      elim (Option-cases (delete_row from org d.organizations s.follows)) [
        | inl no_row ↦ ground (arith, c u v)
        | inr (rows, done) ↦ ground (
          arith,
          c u v,
          lw.unfollow_org,
          lw.unfollow_org_is_no_follow,
          w.follow_ne_unfollow,
          exists-delete_row_other from org u v d.organizations d.users s.follows ne done,
        )
      ]
