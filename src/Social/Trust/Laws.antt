-- ===== src/Social/Trust/Laws.antt =====
-- The index of trust under requests: exact outcomes, and agreement with the history.
use text.Mathlib.Text.{◌==◌ as str_eq}
use text.Mathlib.TextEquality.{eq_iff}
use ucom_backend.Prelude.{
  ℕ, String, ◌≡◌, ◌⊎◌, inl, inr, refl, Bool, false, ◌&&◌, ◌||◌, Option, none, some, ◌∷◌, arith,
  ◌==◌, if◌then◌else◌, find, Bool-cases, Option-cases,
}
use ucom_backend.Prelude.Action.{ok, run_cases}
use ucom_backend.Dictionary.{Dictionaries, IsLawful}
use ucom_backend.Social.Index.{exists, insert_row, delete_row}
use ucom_backend.Social.Index.Laws.{exists-insert_row, exists-delete_row}
use ucom_backend.Social.State.{Activity, Social, group_user_user_interaction}
use ucom_backend.Social.Trust.{
  Body, trust_row, process_trust_index, trust_activity, process_and_get_new_activity,
}

-- A trust or untrust of `to` by `from`.
abbrev pub is_trust_or_untrust : Dictionaries → ℕ → ℕ → Activity → Bool
is_trust_or_untrust d from to a =
    (a.activity_type_id == d.trust_id || a.activity_type_id == d.untrust_id)
    && (a.user_id_from == from
        && (a.entity_id_to == to
            && (str_eq a.entity_name d.users
                && a.activity_group_id == group_user_user_interaction)))

abbrev pub is_trusting : Dictionaries → ℕ → ℕ → Social → Bool
is_trusting d from to s = exists from to d.users s.trusts

abbrev pub is_trust : Dictionaries → Option Activity → Bool
is_trust d none = false
is_trust d (some a) = a.activity_type_id == d.trust_id

abbrev pub last_is_trust : Dictionaries → ℕ → ℕ → Social → Bool
last_is_trust d from to s = is_trust d (find (is_trust_or_untrust d from to) s.activities)

-- The index and the history agree about every pair of users.
abbrev pub IsConsistent : Dictionaries → Social → Type 0
IsConsistent d s = (from to : ℕ) → is_trusting d from to s ≡ last_is_trust d from to s

-- The two kinds of request, each with its event.
abbrev pub IsTrustRequest : Dictionaries → ℕ → ℕ → Type 0
IsTrustRequest d type event =
    ((type ≡ d.trust_id) × (event ≡ d.user_trusts_you))
    ⊎ ((type ≡ d.untrust_id) × (event ≡ d.user_untrusts_you))

module _ (d : Dictionaries) (w : IsLawful d) where
  last_is_trust-cons :
      (type event from to u v : ℕ) (signed : String) (s : Social)
      → IsTrustRequest d type event
      → is_trust d (
          find
            (is_trust_or_untrust d u v)
            (trust_activity d type event signed from to ∷ s.activities))
        ≡ (if u == from && v == to then type == d.trust_id else last_is_trust d u v s)
  last_is_trust-cons type event from to u v signed s h = ground (arith, eq_iff d.users d.users)

  process_trust_index-is_trusting :
      (type event from to u v : ℕ) (s : Social) {s' : Social}
      → IsTrustRequest d type event
      → process_trust_index d from to event s ≡ (ok tt, s')
      → (is_trusting d u v s'
          ≡ (if u == from && v == to then type == d.trust_id else is_trusting d u v s))
        × (s'.activities ≡ s.activities)
  unfolding process_trust_index
  process_trust_index-is_trusting type event from to u v s (inl e) h =
      elim (Option-cases (insert_row (trust_row d from to) s.trusts)) [
        | inl no_row ↦ ground arith
        | inr (rows, done) ↦
            ground (arith, exists-insert_row (trust_row d from to) u v s.trusts done)
      ]
  process_trust_index-is_trusting type event from to u v s (inr e) h =
      elim (Option-cases (delete_row from to d.users s.trusts)) [
        | inl no_row ↦ ground arith
        | inr (rows, done) ↦ ground (arith, exists-delete_row from to u v d.users s.trusts done)
      ]

  -- A transaction of a trust or an untrust, committed or rolled back, keeps the index in
  -- agreement with the history, whether or not its preconditions were checked in time.
  pub process_and_get_new_activity-IsConsistent :
      (type event from to : ℕ) (body : Body) (s : Social)
      → IsTrustRequest d type event
      → IsConsistent d s
      → IsConsistent d (process_and_get_new_activity d from to event type body s).1
  unfolding process_and_get_new_activity
  process_and_get_new_activity-IsConsistent type event from to body s h c u v =
      let a = trust_activity d type event body.signed_transaction from to in
      let t : Social = record s { activities = a ∷ s.activities } in
      elim (run_cases (process_trust_index d from to event t)) [
        | inr (e, x, failed) ↦ rw failed (c u v)
        | inl (x, t', done) ↦
            let (index, same) = process_trust_index-is_trusting type event from to u v t h done in
            let grown = last_is_trust-cons type event from to u v body.signed_transaction s h in
            elim (Bool-cases (str_eq body.blockchain_id "")) [
              | inl e ↦ rw (done, e, same, index) (rw (grown, c u v) refl)
              | inr e ↦ rw (done, e, same, index) (rw (grown, c u v) refl)
            ]
      ]
