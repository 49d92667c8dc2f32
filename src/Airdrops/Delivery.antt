-- ===== src/Airdrops/Delivery.antt =====
-- From pending to received: the rows that airdrops-users-repository.js gives to the two workers
-- airdrops-users-to-waiting-service.js and airdrops-users-to-received-service.js. The names of
-- the users are a parameter, as the table of users is.
pub mod Waiting
pub mod Received
pub mod Laws
use ucom_backend.Prelude.{
  ℕ, String, Bool, true, false, ◌&&◌, ◌||◌, Option, none, some, List, [], ◌∷◌, ◌++◌, map, ◌==◌,
  if◌then◌else◌, any, select, take,
}
use ucom_backend.Prelude.Int.{ℤ}
use ucom_backend.Prelude.Action.{Result, ok, err, app_error}
use ucom_backend.Accounts.{Account, find_account}
use ucom_backend.Airdrops.State.{AirdropUser, UserExternal, Airdrops}
use ucom_backend.Airdrops.Pending.{is_zero}

-- A row of getChangeStatusDto.
pub record Dto : Type 0 where
  pub id : ℕ
  pub airdrop_id : ℕ
  pub user_id : ℕ
  pub users_external_id : ℕ
  pub account_name_to : String
  pub account_id_from : ℕ
  pub account_id_to : ℕ
  pub amount : ℤ

abbrev pub is_of_user : ℕ → Option ℕ → Bool
is_of_user user none = false
is_of_user user (some k) = k == user

module _ (account_name : ℕ → String) (from to : AirdropUser → ℕ) where
  -- The join with users_external.
  abbrev pub join_external : AirdropUser → Account → List UserExternal → List Dto
  join_external u a [] = []
  join_external u a (e ∷ es) =
      let rest = join_external u a es in
      if is_of_user u.user_id e.user_id
      then record {
        id = u.id;
        airdrop_id = u.airdrop_id;
        user_id = u.user_id;
        users_external_id = e.id;
        account_name_to = account_name u.user_id;
        account_id_from = from u;
        account_id_to = to u;
        amount = a.current_balance;
      }
        ∷ rest
      else rest

  -- The join with the account that the tokens leave.
  abbrev pub join : Airdrops → List AirdropUser → List Dto
  join s [] = []
  join s (u ∷ us) =
      let rest = join s us in
      elim (find_account (from u) s.ledger.accounts) [
        | none ↦ rest
        | some a ↦ join_external u a s.users_external ++ rest
      ]

-- convertStringFieldsToNumbersForArray: an amount of zero is refused.
abbrev pub without_zero : List Dto → Result (List Dto)
without_zero rows =
    if any (λ d. is_zero d.amount) rows
    then err (app_error "It is not allowed for amount to be zero")
    else ok rows
