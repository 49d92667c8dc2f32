-- ===== src/Social/Follow/Steps.antt =====
-- The transactions and messages of concurrent requests, in any order.
use ucom_backend.Prelude.{ℕ, String, ◌≡◌, ◌⊎◌}
use ucom_backend.Dictionary.{Dictionaries, IsLawful}
use ucom_backend.Social.State.{Job, Social, publish_with_user_activity}
use ucom_backend.Social.Follow.{process_user_follows_or_unfollows_user}
use ucom_backend.Social.Follow.Laws.{
  IsConsistent, process_user_follows_or_unfollows_user-IsConsistent,
}

module _ (d : Dictionaries) where
  -- The transactions and messages of concurrent requests, in any order.
  pub data Step : Social → Social → Type 0 where
    commit :
        (type from to : ℕ) (signed : String) (s : Social)
        → (type ≡ d.follow_id) ⊎ (type ≡ d.unfollow_id)
        → Step s (process_user_follows_or_unfollows_user d type signed from to s).1
    publish : (job : Job) (s : Social) → Step s (publish_with_user_activity job s).1

  pub data Reach (s : Social) : Social → Type 0 where
    here : Reach s s
    next : {t u : Social} → Reach s t → Step t u → Reach s u

module _ (d : Dictionaries) (w : IsLawful d) where
  -- However the requests of users interleave between their checks and their transactions, the
  -- index of follows agrees with the history of activities, if it did at the start.
  pub Reach-IsConsistent : {s t : Social} → IsConsistent d s → Reach d s t → IsConsistent d t
  unfolding publish_with_user_activity
  Reach-IsConsistent c here = c
  Reach-IsConsistent c (next r (commit type from to signed s h)) =
      process_user_follows_or_unfollows_user-IsConsistent d w type from to signed s h
        (Reach-IsConsistent c r)
  Reach-IsConsistent c (next r (publish job s)) = Reach-IsConsistent c r
