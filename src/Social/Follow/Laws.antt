-- ===== src/Social/Follow/Laws.antt =====
-- The index of follows and the history of activities.
use text.Mathlib.TextEquality.{eq_iff}
use ucom_backend.Prelude.{
  ℕ, String, ◌≡◌, ◌⊎◌, inl, inr, refl, Bool, false, ◌&&◌, Option, none, some, ◌∷◌, arith, ◌==◌,
  if◌then◌else◌, Option-cases,
}
use ucom_backend.Prelude.Action.{ok, run_cases}
use ucom_backend.Dictionary.{Dictionaries, IsLawful}
use ucom_backend.Social.Index.{exists, insert_row, delete_row}
use ucom_backend.Social.Index.Laws.{exists-insert_row, exists-delete_row}
use ucom_backend.Social.State.{Activity, Social}
use ucom_backend.Social.Follow.{
  get_last_follow_or_unfollow, follow_row, follow_event, create_follow_index, follow_activity,
  process_user_follows_or_unfollows_user,
}

-- What the index says: `from` follows `to`.
abbrev pub is_following : Dictionaries → ℕ → ℕ → Social → Bool
is_following d from to s = exists from to d.users s.follows

abbrev pub is_follow : Dictionaries → Option Activity → Bool
is_follow d none = false
is_follow d (some a) = a.activity_type_id == d.follow_id

-- What the history says: the last follow or unfollow of the pair is a follow.
abbrev pub last_is_follow : Dictionaries → ℕ → ℕ → Social → Bool
last_is_follow d from to s = is_follow d (get_last_follow_or_unfollow d from to s.activities)

-- The two agree about every pair of users.
abbrev pub IsConsistent : Dictionaries → Social → Type 0
IsConsistent d s = (from to : ℕ) → is_following d from to s ≡ last_is_follow d from to s

module _ (d : Dictionaries) (w : IsLawful d) where
  -- The history after one more follow or unfollow.
  last_is_follow-cons :
      (type from to u v : ℕ) (signed : String) (s : Social)
      → (type ≡ d.follow_id) ⊎ (type ≡ d.unfollow_id)
      → is_follow d
          (get_last_follow_or_unfollow d u v (follow_activity d type signed from to ∷ s.activities))
        ≡ (if u == from && v == to then type == d.follow_id else last_is_follow d u v s)
  last_is_follow-cons type from to u v signed s h = ground (arith, eq_iff d.users d.users)

  -- What the index holds once a write of the index has succeeded.
  create_follow_index-is_following :
      (type from to u v : ℕ) (s : Social) {s' : Social}
      → (type ≡ d.follow_id) ⊎ (type ≡ d.unfollow_id)
      → create_follow_index d (follow_event d type) from to s ≡ (ok tt, s')
      → (is_following d u v s'
          ≡ (if u == from && v == to then type == d.follow_id else is_following d u v s))
        × (s'.activities ≡ s.activities)
  unfolding create_follow_index
  create_follow_index-is_following type from to u v s (inl e) h =
      elim (Option-cases (insert_row (follow_row d from to) s.follows)) [
        | inl no_row ↦ ground arith
        | inr (rows, done) ↦
            ground (arith, exists-insert_row (follow_row d from to) u v s.follows done)
      ]
  create_follow_index-is_following type from to u v s (inr e) h =
      elim (Option-cases (delete_row from to d.users s.follows)) [
        | inl no_row ↦ ground arith
        | inr (rows, done) ↦ ground (arith, exists-delete_row from to u v d.users s.follows done)
      ]

  -- One committed or rolled back transaction keeps the two in agreement, with no precondition
  -- checked: the unique index and the count of deleted rows refuse what the checks missed.
  pub process_user_follows_or_unfollows_user-IsConsistent :
      (type from to : ℕ) (signed : String) (s : Social)
      → (type ≡ d.follow_id) ⊎ (type ≡ d.unfollow_id)
      → IsConsistent d s
      → IsConsistent d (process_user_follows_or_unfollows_user d type signed from to s).1
  unfolding process_user_follows_or_unfollows_user
  process_user_follows_or_unfollows_user-IsConsistent type from to signed s h c u v =
      elim (run_cases (create_follow_index d (follow_event d type) from to s)) [
        | inr (e, t, failed) ↦ rw failed (c u v)
        | inl (x, t, done) ↦
            let (index, same) = create_follow_index-is_following type from to u v s h done in
            rw (done, same, index)
              (rw (last_is_follow-cons type from to u v signed s h, c u v) refl)
      ]
