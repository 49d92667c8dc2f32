-- ===== src/Airdrops/Pending/Run.antt =====
-- A whole run of the worker to pending: AirdropsUsersToPendingService.process.
use ucom_backend.Prelude.{ℕ, ◌≡◌, inl, inr, refl, Bool, List, [], ◌∷◌, arith}
use ucom_backend.Prelude.Action.{run_cases}
use ucom_backend.Accounts.Booking.{IsValid}
use ucom_backend.Airdrops.State.{Statuses, Airdrops, Debt, make_are_conditions_fulfilled_truthy}
use ucom_backend.Airdrops.Pending.{
  FreshUser, check_tokens_consistency, get_airdrops_account_data, fresh_users,
  reserve_airdrop_for_one_user, collect_users, reserve_users, reserve_if_any, process,
}
use ucom_backend.Airdrops.Pending.Reservation.{
  IsKept, Keeps, Keeps-refl, Keeps-trans, reserve_airdrop_for_one_user-IsKept,
}

module _ (st : Statuses) (does_user_follow_org : ℕ → ℕ → Bool) where
  collect_users-ledger :
      (org : ℕ) (us : List FreshUser) (s : Airdrops)
      → (collect_users st does_user_follow_org org us s).1.ledger ≡ s.ledger
  unfolding collect_users make_are_conditions_fulfilled_truthy
  collect_users-ledger org [] s = refl
  collect_users-ledger org (u ∷ us) s =
      let t = (make_are_conditions_fulfilled_truthy u.users_external_id s).1 in
      elim (run_cases (collect_users st does_user_follow_org org us t)) [
        | inl (a, r, done) ↦
            ground (arith, collect_users-ledger org us s, collect_users-ledger org us t)
        | inr (e, r, failed) ↦
            ground (arith, collect_users-ledger org us s, collect_users-ledger org us t)
      ]

  check_tokens_keeps :
      (debts : List Debt) (u : FreshUser) (s : Airdrops)
      → (check_tokens_consistency debts u.tokens s).1 ≡ s
  unfolding check_tokens_consistency
  check_tokens_keeps debts u s = ground arith

  reserve_users-Keeps :
      (airdrop : ℕ) (debts : List Debt) (us : List FreshUser) (s : Airdrops)
      → Keeps s.ledger (reserve_users st does_user_follow_org airdrop debts us s).1.ledger
  unfolding reserve_users
  reserve_users-Keeps airdrop debts [] s = Keeps-refl s.ledger
  reserve_users-Keeps airdrop debts (u ∷ us) s =
      let run = reserve_users st does_user_follow_org airdrop debts (u ∷ us) s in
      let same = check_tokens_keeps debts u s in
      elim (run_cases (check_tokens_consistency debts u.tokens s)) [
        | inr (e, t, failed) ↦
            let still : run.1 ≡ s = ground arith in rw still (Keeps-refl s.ledger)
        | inl (x, t, passed) ↦
            let one = reserve_airdrop_for_one_user-IsKept st airdrop u debts s in
            elim (run_cases (reserve_airdrop_for_one_user st airdrop u debts s)) [
              | inr (e, r, failed) ↦
                  let still : run.1 ≡ (reserve_airdrop_for_one_user st airdrop u debts s).1 =
                    ground arith in
                  rw still one
              | inl (y, r, done) ↦
                  let r' = (reserve_airdrop_for_one_user st airdrop u debts s).1 in
                  let still : run.1
                      ≡ (reserve_users st does_user_follow_org airdrop debts us r').1 =
                    ground arith in
                  rw still (
                    Keeps-trans s.ledger r'.ledger
                      (reserve_users st does_user_follow_org airdrop debts us r').1.ledger one
                      (reserve_users-Keeps airdrop debts us r'))
            ]
      ]

  reserve_if_any-Keeps :
      (airdrop : ℕ) (us : List FreshUser) (s : Airdrops)
      → Keeps s.ledger (reserve_if_any st does_user_follow_org airdrop us s).1.ledger
  reserve_if_any-Keeps airdrop [] s = Keeps-refl s.ledger
  reserve_if_any-Keeps airdrop (u ∷ us) s =
      let run = reserve_if_any st does_user_follow_org airdrop (u ∷ us) s in
      elim (run_cases (get_airdrops_account_data airdrop s)) [
        | inr (e, t, failed) ↦
            let still : run.1 ≡ s = ground arith in rw still (Keeps-refl s.ledger)
        | inl (debts, t, got) ↦
            let still : run.1 ≡ (reserve_users st does_user_follow_org airdrop debts (u ∷ us) s).1 =
              ground arith in
            rw still (reserve_users-Keeps airdrop debts (u ∷ us) s)
      ]

  -- A run of the worker to pending keeps a valid ledger valid and the total of every symbol,
  -- whether it reaches its end or throws at any user.
  pub process_to_pending-IsKept :
      (airdrop org : ℕ) (blacklisted : List ℕ) (s : Airdrops)
      → IsValid s.ledger
      → IsKept s.ledger (process st does_user_follow_org airdrop org blacklisted s).1.ledger
  unfolding process
  process_to_pending-IsKept airdrop org blacklisted s =
      let fresh = fresh_users st airdrop blacklisted s.users_external s.external_data in
      let run = process st does_user_follow_org airdrop org blacklisted s in
      let same = collect_users-ledger org fresh s in
      elim (run_cases (collect_users st does_user_follow_org org fresh s)) [
        | inr (e, t, failed) ↦
            let still : run.1.ledger ≡ s.ledger = ground arith in rw still (Keeps-refl s.ledger)
        | inl (us, t, done) ↦
            let still : run.1 ≡ (reserve_if_any st does_user_follow_org airdrop us t).1 =
              ground arith in
            let first : t.ledger ≡ s.ledger = ground arith in
            let start : Keeps s.ledger t.ledger = rw first (Keeps-refl s.ledger) in
            rw still (
              Keeps-trans s.ledger t.ledger
                (reserve_if_any st does_user_follow_org airdrop us t).1.ledger start
                (reserve_if_any-Keeps airdrop us t))
      ]
