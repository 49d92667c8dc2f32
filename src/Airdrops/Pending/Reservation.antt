-- ===== src/Airdrops/Pending/Reservation.antt =====
-- The ledger under the reservation of tokens: AirdropsUsersToPendingService.reserveAirdropForOneUser.
use ucom_backend.Prelude.{
  ℕ, ◌≡◌, inl, inr, refl, sym, ◌∙◌, ap, Bool, false, Option, none, some, List, [], ◌∷◌, arith,
  Bool-cases, Option-cases,
}
use ucom_backend.Prelude.Int.{ℤ, pos, ltb_ℤ, +ℤ_zero, +ℤ_comm}
use ucom_backend.Prelude.Action.{Action, Result, ok, run_cases, >>=-eq-ok}
use ucom_backend.Accounts.{
  Ledger, next_id, reserved, waiting, wallet, create_new_account, create_new_reserved_account,
  create_new_waiting_account, create_new_wallet_account, create_trx_between_two_accounts,
}
use ucom_backend.Accounts.Sums.{total}
use ucom_backend.Accounts.Booking.{
  IsValid, create_new_account-IsValid, create_trx_between_two_accounts-IsValid,
}
use ucom_backend.Accounts.Transfers.{create_trx_between_two_accounts_conserves}
use ucom_backend.Airdrops.State.{Statuses, Airdrops, Debt, on_ledger, change_status}
use ucom_backend.Airdrops.Pending.{
  FreshUser, create_accounts_and_trx_for_token, reserve_claim, reserve_one_debt, reserve_all_debts,
  reserve_airdrop_for_one_user, find_token, is_zero,
}

-- A valid ledger, with the same total of every symbol as one before it.
abbrev pub IsKept : Ledger → Ledger → Type 0
IsKept l l' = IsValid l' × ((symbol : ℕ) → total symbol l'.accounts ≡ total symbol l.accounts)

abbrev pub Keeps : Ledger → Ledger → Type 0
Keeps l l' = IsValid l → IsKept l l'

pub Keeps-refl : (l : Ledger) → Keeps l l
Keeps-refl l v = (v, λ symbol. refl)

pub Keeps-trans : (a b c : Ledger) → Keeps a b → Keeps b c → Keeps a c
Keeps-trans a b c p q v =
    let (v', t) = p v in let (v'', t') = q v' in (v'', λ symbol. t' symbol ∙ t symbol)

total-create_new_account :
    (type symbol : ℕ) (user : Option ℕ) (l : Ledger) (k : ℕ)
    → total k (create_new_account type symbol user l).1.accounts ≡ total k l.accounts
unfolding create_new_account
total-create_new_account type symbol user l k =
    ground (arith, +ℤ_comm (pos 0) (total k l.accounts), +ℤ_zero (total k l.accounts))

pub create_new_account-Keeps :
    (type symbol : ℕ) (user : Option ℕ) (l : Ledger)
    → Keeps l (create_new_account type symbol user l).1
create_new_account-Keeps type symbol user l v =
    (create_new_account-IsValid type symbol user l v, total-create_new_account type symbol user l)

pub create_trx_between_two_accounts-Keeps :
    (from to : ℕ) (amount : ℤ) (allow_negative : Bool) (parent external : Option ℕ) (l : Ledger)
    {l' : Ledger}
    → create_trx_between_two_accounts from to amount allow_negative parent external l ≡ (ok tt, l')
    → Keeps l l'
create_trx_between_two_accounts-Keeps from to amount allow parent external l h v = (
  create_trx_between_two_accounts-IsValid from to amount parent external allow l v h,
  λ symbol.
      create_trx_between_two_accounts_conserves from to amount parent external allow l symbol
        v.unique h,
)

-- A call on the accounts that succeeds, seen from the state of the airdrops.
pub on_ledger-eq-ok :
    {A : Type 0} (m : Action Ledger A) (s : Airdrops) {a : A} {s' : Airdrops}
    → on_ledger m s ≡ (ok a, s')
    → (m s.ledger ≡ (ok a, s'.ledger)) × (s' ≡ record s { ledger = s'.ledger })
on_ledger-eq-ok m s h = elim (run_cases (m s.ledger)) [
  | inl (a, l, done) ↦ ground arith
  | inr (e, l, failed) ↦ absurd (ground arith)
]

module _ (st : Statuses) (airdrop user debt symbol : ℕ) where
  -- The three accounts of the user are open.
  abbrev opened : Ledger → Ledger
  opened l =
      (create_new_wallet_account symbol user
        (create_new_waiting_account symbol user (create_new_reserved_account symbol user l).1).1).1

  opened-Keeps : (l : Ledger) → Keeps l (opened l)
  opened-Keeps l =
      let l1 = (create_new_reserved_account symbol user l).1 in
      let l2 = (create_new_waiting_account symbol user l1).1 in
      Keeps-trans l l1 (opened l) (create_new_account-Keeps reserved symbol (some user) l) (
        Keeps-trans l1 l2 (opened l) (create_new_account-Keeps waiting symbol (some user) l1)
          (create_new_account-Keeps wallet symbol (some user) l2))

  -- The transfer to the reserved account, which is the first of the three.
  create_accounts_and_trx_transfers :
      (amount : ℤ) (s : Airdrops) {s' : Airdrops}
      → create_accounts_and_trx_for_token st airdrop user debt symbol amount s ≡ (ok tt, s')
      → create_trx_between_two_accounts debt
          (next_id s.ledger.accounts)
          amount
          false
          none
          none
          (opened s.ledger)
        ≡ (ok tt, s'.ledger)
  unfolding create_accounts_and_trx_for_token create_new_account
  create_accounts_and_trx_transfers amount s {s'} h =
      elim (run_cases (
        create_trx_between_two_accounts debt (next_id s.ledger.accounts) amount false none none
          (opened s.ledger))) [
            | inl (a, l, done) ↦ ground arith
            | inr (e, l, failed) ↦ absurd (ground arith)
          ]

  create_accounts_and_trx-Keeps :
      (amount : ℤ) (s : Airdrops) {s' : Airdrops}
      → create_accounts_and_trx_for_token st airdrop user debt symbol amount s ≡ (ok tt, s')
      → Keeps s.ledger s'.ledger
  create_accounts_and_trx-Keeps amount s {s'} h =
      Keeps-trans s.ledger (opened s.ledger) s'.ledger (opened-Keeps s.ledger) (
        create_trx_between_two_accounts-Keeps debt (next_id s.ledger.accounts) amount false none
          none (opened s.ledger) (create_accounts_and_trx_transfers amount s h))

module _ (st : Statuses) (airdrop : ℕ) (user : FreshUser) where
  reserve_claim-Keeps :
      (d : Debt) (amount : ℤ) (s : Airdrops) {s' : Airdrops}
      → reserve_claim st airdrop user d amount s ≡ (ok tt, s')
      → Keeps s.ledger s'.ledger
  unfolding reserve_claim change_status
  reserve_claim-Keeps d amount s {s'} h =
      elim (run_cases (
        create_accounts_and_trx_for_token st airdrop user.user_id d.debt_account_id d.symbol_id
          amount s)) [
            | inl (a, t, done) ↦
                let same : s'.ledger ≡ t.ledger = ground arith in
                rw same (
                  create_accounts_and_trx-Keeps st airdrop user.user_id d.debt_account_id
                    d.symbol_id amount s done)
            | inr (e, t, failed) ↦ absurd (ground arith)
          ]

  reserve_one_debt-Keeps :
      (d : Debt) (s : Airdrops) {s' : Airdrops}
      → reserve_one_debt st airdrop user d s ≡ (ok tt, s')
      → Keeps s.ledger s'.ledger
  unfolding reserve_one_debt change_status
  reserve_one_debt-Keeps d s {s'} h = elim (Option-cases (find_token d.symbol user.tokens)) [
    | inl e ↦ absurd (ground arith)
    | inr (t, e) ↦ elim (Bool-cases (ltb_ℤ t.amount_claim (pos 0))) [
      | inl low ↦ absurd (ground arith)
      | inr fine ↦ elim (Bool-cases (is_zero t.amount_claim)) [
        | inl zero ↦ let same : s'.ledger ≡ s.ledger = ground arith in rw same (Keeps-refl s.ledger)
        | inr claimed ↦
            let claim : reserve_claim st airdrop user d t.amount_claim s ≡ (ok tt, s') =
              ground arith in
            reserve_claim-Keeps d t.amount_claim s claim
      ]
    ]
  ]

  reserve_all_debts-Keeps :
      (debts : List Debt) (s : Airdrops) {s' : Airdrops}
      → reserve_all_debts st airdrop user debts s ≡ (ok tt, s')
      → Keeps s.ledger s'.ledger
  unfolding reserve_all_debts
  reserve_all_debts-Keeps [] s h =
      let e : _ ≡ _ = sym (ap (λ (r : Result Unit × Airdrops). r.1.ledger) h) in
      rw e (Keeps-refl s.ledger)
  reserve_all_debts-Keeps (d ∷ ds) s {s'} h =
      let (x, t, first, rest) =
        >>=-eq-ok (reserve_one_debt st airdrop user d) (λ x. reserve_all_debts st airdrop user ds) s
          h in
      Keeps-trans s.ledger t.ledger s'.ledger (reserve_one_debt-Keeps d s first)
        (reserve_all_debts-Keeps ds t rest)

  -- Whether the reservation of a user succeeds or throws, a valid ledger stays valid and the total
  -- of every symbol stays the same.
  pub reserve_airdrop_for_one_user-IsKept :
      (debts : List Debt) (s : Airdrops)
      → IsValid s.ledger
      → IsKept s.ledger (reserve_airdrop_for_one_user st airdrop user debts s).1.ledger
  unfolding reserve_airdrop_for_one_user
  reserve_airdrop_for_one_user-IsKept debts s =
      elim (run_cases (reserve_all_debts st airdrop user debts s)) [
        | inl (a, t, done) ↦ rw done (reserve_all_debts-Keeps debts s done)
        | inr (e, t, failed) ↦ rw failed (Keeps-refl s.ledger)
      ]
