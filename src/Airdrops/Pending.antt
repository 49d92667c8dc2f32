-- ===== src/Airdrops/Pending.antt =====
-- From new to pending: airdrops-users-to-pending-service.js and airdrop-users-validator.js.
-- Whether a user follows the community is a parameter, read from the table of activities.
pub mod Reservation
pub mod Outcome
pub mod Run
use text.Mathlib.Text.{◌==◌ as str_eq}
use ucom_backend.Prelude.{
  ℕ, String, Bool, true, false, not, ◌&&◌, ◌||◌, Option, none, some, List, [], ◌∷◌, map, ◌==◌,
  if◌then◌else◌, find, any, select, includes, length,
}
use ucom_backend.Prelude.Int.{ℤ, pos, negsuc, ltb_ℤ}
use ucom_backend.Prelude.Action.{
  Action, Result, ok, err, Error, app_error, pure, throw, gets, modify, throw_if, transaction,
  ◌>>=◌, ◌>>◌,
}
use ucom_backend.Accounts.{
  Ledger, find_account, create_new_reserved_account, create_new_waiting_account,
  create_new_wallet_account, create_trx_between_two_accounts,
}
use ucom_backend.Airdrops.State.{
  Statuses, Token, ExternalData, Debt, UserExternal, Airdrops, on_ledger, change_status,
  make_are_conditions_fulfilled_truthy, insert_new_record,
}

-- A row of getManyUsersWithStatusNew.
pub record FreshUser : Type 0 where
  pub users_external_id : ℕ
  pub status : ℕ
  pub user_id : ℕ
  pub tokens : List Token

abbrev pub find_token : String → List Token → Option Token
find_token symbol = find (λ t. str_eq t.symbol symbol)

-- `amount === 0`
abbrev pub is_zero : ℤ → Bool
is_zero (pos n) = n == 0
is_zero (negsuc n) = false

-- AirdropUsersValidator.checkTokensConsistency
abbrev pub has_all_symbols : List Debt → List Token → Bool
has_all_symbols [] tokens = true
has_all_symbols (d ∷ ds) tokens =
    any (λ t. str_eq t.symbol d.symbol) tokens && has_all_symbols ds tokens

unfoldable pub check_tokens_consistency : List Debt → List Token → Action Airdrops (Unit {0})
check_tokens_consistency debts tokens = do
  throw_if (not (length debts == length tokens))
      (app_error "Airdrop tokens and userTokens have different length")
  throw_if (not (has_all_symbols debts tokens)) (app_error "There is no token of symbol")

-- the rows of getAirdropsAccountDataById; a balance of zero is refused
abbrev pub account_rows : Ledger → List Debt → Result (List Debt)
account_rows ledger [] = ok []
account_rows ledger (d ∷ ds) =
    let rest = account_rows ledger ds in
    elim (find_account d.debt_account_id ledger.accounts) [
      | none ↦ rest
      | some a ↦
          if is_zero a.current_balance
          then err (app_error "It is not allowed for current_balance to be zero")
          else elim rest [ ok rows ↦ ok (d ∷ rows) | err e ↦ err e ]
    ]

abbrev pub get_airdrops_account_data : ℕ → Action Airdrops (List Debt)
get_airdrops_account_data airdrop s =
    (account_rows s.ledger (select (λ d. d.airdrop_id == airdrop) s.debts), s)

module _ (st : Statuses) where
  -- the `where` of getManyUsersWithStatusNew
  abbrev pub is_to_process : ℕ → List ℕ → ExternalData → Bool
  is_to_process airdrop blacklisted r =
      r.airdrop_id == airdrop
      && ((r.status == st.new
            || (r.status == st.no_participation && not r.are_conditions_fulfilled))
          && not (includes r.id blacklisted))

  -- the inner join with users_external, of rows with a user
  abbrev pub user_of : ℕ → List UserExternal → Option ℕ
  user_of external [] = none
  user_of external (u ∷ us) = if u.id == external then u.user_id else user_of external us

  abbrev pub fresh_users : ℕ → List ℕ → List UserExternal → List ExternalData → List FreshUser
  fresh_users airdrop blacklisted us [] = []
  fresh_users airdrop blacklisted us (r ∷ rs) =
      let rest = fresh_users airdrop blacklisted us rs in
      if is_to_process airdrop blacklisted r
      then elim (user_of r.users_external_id us) [
        | none ↦ rest
        | some user ↦
            record {
              users_external_id = r.users_external_id;
              status = r.status;
              user_id = user;
              tokens = r.tokens;
            }
            ∷ rest
      ]
      else rest

  abbrev pub get_many_users_with_status_new : ℕ → List ℕ → Action Airdrops (List FreshUser)
  get_many_users_with_status_new airdrop blacklisted =
      gets (λ s. fresh_users airdrop blacklisted s.users_external s.external_data)

  unfoldable pub create_accounts_and_trx_for_token : ℕ → ℕ → ℕ → ℕ → ℤ → Action Airdrops (Unit {0})
  unfolding insert_new_record
  create_accounts_and_trx_for_token airdrop user debt_account symbol amount = do
    reserved ← on_ledger (create_new_reserved_account symbol user)
    waiting ← on_ledger (create_new_waiting_account symbol user)
    wallet ← on_ledger (create_new_wallet_account symbol user)
    on_ledger (create_trx_between_two_accounts debt_account reserved amount false none none)
    insert_new_record st user airdrop reserved waiting wallet

  unfoldable pub reserve_claim : ℕ → FreshUser → Debt → ℤ → Action Airdrops (Unit {0})
  reserve_claim airdrop user d amount = do
    create_accounts_and_trx_for_token airdrop user.user_id d.debt_account_id d.symbol_id amount
    change_status st.pending user.users_external_id

  -- One round of the loop of reserveAirdropForOneUser.
  unfoldable pub reserve_one_debt : ℕ → FreshUser → Debt → Action Airdrops (Unit {0})
  reserve_one_debt airdrop user d = elim (find_token d.symbol user.tokens) [
    | none ↦ throw (app_error "Malformed amount for symbol")
    | some t ↦
        if ltb_ℤ t.amount_claim (pos 0)
        then throw (app_error "Malformed amount for symbol")
        else if is_zero t.amount_claim
        then change_status st.no_participation user.users_external_id
        else reserve_claim airdrop user d t.amount_claim
  ]

  unfoldable pub reserve_all_debts : ℕ → FreshUser → List Debt → Action Airdrops (Unit {0})
  reserve_all_debts airdrop user [] = pure tt
  reserve_all_debts airdrop user (d ∷ ds) = do
    reserve_one_debt airdrop user d
    reserve_all_debts airdrop user ds

  unfoldable pub reserve_airdrop_for_one_user :
      ℕ → FreshUser → List Debt → Action Airdrops (Unit {0})
  reserve_airdrop_for_one_user airdrop user debts =
      transaction (reserve_all_debts airdrop user debts)

  -- A user whose conditions are met, before the others.
  abbrev pub add_user :
      FreshUser → Action Airdrops (List FreshUser) → Action Airdrops (List FreshUser)
  add_user u others = do
    make_are_conditions_fulfilled_truthy u.users_external_id
    rest ← others
    pure (if u.status == st.new then u ∷ rest else rest)

  module _ (does_user_follow_org : ℕ → ℕ → Bool) where
    -- The first loop of `process`: the users whose conditions are met and whose status is new.
    unfoldable pub collect_users : ℕ → List FreshUser → Action Airdrops (List FreshUser)
    unfolding make_are_conditions_fulfilled_truthy
    collect_users org [] = pure []
    collect_users org (u ∷ us) =
        let rest = collect_users org us in
        if does_user_follow_org u.user_id org then add_user u rest else rest

    -- The second loop of `process`.
    unfoldable pub reserve_users : ℕ → List Debt → List FreshUser → Action Airdrops (Unit {0})
    unfolding check_tokens_consistency
    reserve_users airdrop debts [] = pure tt
    reserve_users airdrop debts (u ∷ us) = do
      check_tokens_consistency debts u.tokens
      reserve_airdrop_for_one_user airdrop u debts
      reserve_users airdrop debts us

    abbrev pub reserve_if_any : ℕ → List FreshUser → Action Airdrops (Unit {0})
    reserve_if_any airdrop [] = pure tt
    reserve_if_any airdrop (u ∷ us) = do
      debts ← get_airdrops_account_data airdrop
      reserve_users airdrop debts (u ∷ us)

    -- AirdropsUsersToPendingService.process, of an airdrop that asks to follow `org`
    unfoldable pub process : ℕ → ℕ → List ℕ → Action Airdrops (Unit {0})
    process airdrop org blacklisted = do
      fresh ← get_many_users_with_status_new airdrop blacklisted
      users ← collect_users org fresh
      reserve_if_any airdrop users
