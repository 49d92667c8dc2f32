-- ===== src/Airdrops/Delivery/Received.antt =====
-- airdrops-users-to-received-service.js. The table of receipts is a parameter: the external ids
-- that it holds from a given one on.
use ucom_backend.Prelude.{
  ℕ, String, Bool, true, false, ◌&&◌, Option, none, some, List, [], ◌∷◌, ◌==◌, if◌then◌else◌,
  select, length, leb,
}
use ucom_backend.Prelude.Action.{Action, Result, ok, err, pure, gets, transaction, ◌>>=◌, ◌>>◌}
use ucom_backend.Accounts.{create_trx_between_two_accounts}
use ucom_backend.Airdrops.State.{
  Statuses, AirdropUser, Airdrops, on_ledger, change_status, change_user_status,
}
use ucom_backend.Airdrops.Delivery.{Dto, join, without_zero}

-- findFirstIdWithStatus
abbrev pub least_id : List AirdropUser → Option ℕ
least_id [] = none
least_id (u ∷ us) =
    let rest = least_id us in
    elim rest [ none ↦ some u.id | some k ↦ if leb k u.id then some k else some u.id ]

abbrev pub have_status : ℕ → List AirdropUser → Bool
have_status status [] = true
have_status status (u ∷ us) = u.status == status && have_status status us

-- `res.length === 1 ? res[0] : null`
abbrev pub only_one : List Dto → Option Dto
only_one [] = none
only_one (d ∷ []) = some d
only_one (d ∷ (e ∷ es)) = none

module _ (st : Statuses) (account_name : ℕ → String) (receipts : ℕ → List ℕ) where
  unfoldable pub find_first_id_with_status : ℕ → ℕ → Action Airdrops (Option ℕ)
  find_first_id_with_status airdrop status =
      gets (λ s. least_id (select (λ u. u.status == status && u.airdrop_id == airdrop) s.users))

  abbrev pub is_awaited : ℕ → ℕ → AirdropUser → Bool
  is_awaited airdrop id u = u.id == id && (u.status == st.waiting && u.airdrop_id == airdrop)

  abbrev pub only_one_of : Result (List Dto) → Result (Option Dto)
  only_one_of (ok rows) = ok (only_one rows)
  only_one_of (err e) = err e

  unfoldable pub get_one_data_for_status_to_received : ℕ → ℕ → Action Airdrops (Option Dto)
  get_one_data_for_status_to_received airdrop id s =
      let awaited = select (is_awaited airdrop id) s.users in
      let rows =
        join account_name (λ u. u.waiting_account_id) (λ u. u.wallet_account_id) s awaited in
      (only_one_of (without_zero rows), s)

  -- isAirdropReceivedByUser, on the rows of the airdrop and the user grouped by status
  abbrev pub is_one_group : ℕ → List AirdropUser → Bool
  is_one_group tokens [] = false
  is_one_group tokens (u ∷ us) =
      have_status u.status us && (u.status == st.received && length (u ∷ us) == tokens)

  unfoldable pub is_airdrop_received_by_user : ℕ → ℕ → ℕ → Airdrops → Bool
  is_airdrop_received_by_user airdrop user tokens s =
      is_one_group tokens (select (λ u. u.airdrop_id == airdrop && u.user_id == user) s.users)

  unfoldable pub finish : Dto → Bool → Action Airdrops (Unit {0})
  finish item is_received =
      if is_received then change_status st.received item.users_external_id else pure tt

  unfoldable pub move_to_wallet : ℕ → ℕ → Dto → Action Airdrops (Unit {0})
  move_to_wallet airdrop tokens item = do
    on_ledger (
        create_trx_between_two_accounts item.account_id_from item.account_id_to item.amount false
          none none)
    change_user_status st.received item.id
    is_received ← gets (is_airdrop_received_by_user airdrop item.user_id tokens)
    finish item is_received

  abbrev pub receive : ℕ → ℕ → Option Dto → Action Airdrops Bool
  receive airdrop tokens none = pure false
  receive airdrop tokens (some item) = transaction (move_to_wallet airdrop tokens item) >> pure true

  unfoldable pub process_one_item : ℕ → ℕ → ℕ → Action Airdrops Bool
  process_one_item airdrop tokens row = do
    item ← get_one_data_for_status_to_received airdrop row
    receive airdrop tokens item

  unfoldable pub process_rows : ℕ → ℕ → List ℕ → Action Airdrops (Unit {0})
  process_rows airdrop tokens [] = pure tt
  process_rows airdrop tokens (row ∷ rows) = do
    process_one_item airdrop tokens row
    process_rows airdrop tokens rows

  abbrev pub process_from : ℕ → Option ℕ → Action Airdrops (Unit {0})
  process_from airdrop none s = pure tt s
  process_from airdrop (some bound) s =
      process_rows airdrop (length (select (λ d. d.airdrop_id == airdrop) s.debts)) (receipts bound)
        s

  unfoldable pub process : ℕ → Action Airdrops (Unit {0})
  process airdrop = do
    bound ← find_first_id_with_status airdrop st.waiting
    process_from airdrop bound
