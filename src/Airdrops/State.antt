-- ===== src/Airdrops/State.antt =====
-- The tables of an airdrop and the calls of its repositories
-- (airdrops-users-external-data-repository.js, airdrops-users-repository.js,
-- airdrops-tokens-repository.js). The statuses come from the package ucom.libs.common and are a
-- parameter.
use ucom_backend.Prelude.{ℕ, String, ◌≢◌, Bool, true, Option, List, ◌∷◌, map, ◌==◌, if◌then◌else◌}
use ucom_backend.Prelude.Int.{ℤ}
use ucom_backend.Prelude.Action.{Action, Result, modify}
use ucom_backend.Accounts.{Ledger, next_id}

-- AirdropStatuses
pub record Statuses : Type 0 where
  pub new : ℕ
  pub pending : ℕ
  pub waiting : ℕ
  pub received : ℕ
  pub no_participation : ℕ

-- The statuses differ.
pub record AreDistinct (st : Statuses) : Type 0 where
  pub pending_ne_new : st.pending ≢ st.new
  pub no_participation_ne_new : st.no_participation ≢ st.new
  pub no_participation_ne_pending : st.no_participation ≢ st.pending
  pub pending_ne_waiting : st.pending ≢ st.waiting
  pub waiting_ne_received : st.waiting ≢ st.received

-- An item of `json_data.tokens`.
pub record Token : Type 0 where
  pub symbol : String
  pub amount_claim : ℤ

-- A row of airdrops_users_external_data.
pub record ExternalData : Type 0 where
  pub id : ℕ
  pub airdrop_id : ℕ
  pub users_external_id : ℕ
  pub status : ℕ
  pub are_conditions_fulfilled : Bool
  pub tokens : List Token

-- A row of airdrops_users.
pub record AirdropUser : Type 0 where
  pub id : ℕ
  pub user_id : ℕ
  pub airdrop_id : ℕ
  pub reserved_account_id : ℕ
  pub waiting_account_id : ℕ
  pub wallet_account_id : ℕ
  pub status : ℕ

-- A row of airdrops_tokens, joined with its symbol.
pub record Debt : Type 0 where
  pub airdrop_id : ℕ
  pub debt_account_id : ℕ
  pub symbol_id : ℕ
  pub symbol : String

-- A row of users_external: `user_id` is `none` for null.
pub record UserExternal : Type 0 where
  pub id : ℕ
  pub user_id : Option ℕ

pub record Airdrops : Type 0 where
  pub ledger : Ledger
  pub external_data : List ExternalData
  pub users : List AirdropUser
  pub debts : List Debt
  pub users_external : List UserExternal
  -- the pushed transactions that outgoing_transactions_log holds, by their items
  pub outgoing : List ℕ

-- A call on the accounts.
abbrev pub put_ledger : {A : Type 0} → Airdrops → Result A × Ledger → Result A × Airdrops
put_ledger s (r, l) = (r, record s { ledger = l })

abbrev pub on_ledger : {A : Type 0} → Action Ledger A → Action Airdrops A
on_ledger m s = put_ledger s (m s.ledger)

-- The `update` of changeStatusTo…: every row of the external user, of whatever airdrop.
abbrev pub set_status : ℕ → ℕ → ExternalData → ExternalData
set_status status external r =
    if r.users_external_id == external then record r { status = status } else r

unfoldable pub change_status : ℕ → ℕ → Action Airdrops (Unit {0})
change_status status external =
    modify (λ s. record s { external_data = map (set_status status external) s.external_data })

abbrev pub set_fulfilled : ℕ → ExternalData → ExternalData
set_fulfilled external r =
    if r.users_external_id == external then record r { are_conditions_fulfilled = true } else r

-- makeAreConditionsFulfilledTruthy
unfoldable pub make_are_conditions_fulfilled_truthy : ℕ → Action Airdrops (Unit {0})
make_are_conditions_fulfilled_truthy external =
    modify (λ s. record s { external_data = map (set_fulfilled external) s.external_data })

-- AirdropsUsersRepository.insertNewRecord
unfoldable pub insert_new_record : Statuses → ℕ → ℕ → ℕ → ℕ → ℕ → Action Airdrops (Unit {0})
insert_new_record st user airdrop reserved waiting wallet = modify (λ s. record s {
  users =
      record {
        id = next_id s.users;
        user_id = user;
        airdrop_id = airdrop;
        reserved_account_id = reserved;
        waiting_account_id = waiting;
        wallet_account_id = wallet;
        status = st.pending;
      }
      ∷ s.users;
})

-- setStatusWaiting, setStatusReceived
abbrev pub set_user_status : ℕ → ℕ → AirdropUser → AirdropUser
set_user_status status id u = if u.id == id then record u { status = status } else u

unfoldable pub change_user_status : ℕ → ℕ → Action Airdrops (Unit {0})
change_user_status status id =
    modify (λ s. record s { users = map (set_user_status status id) s.users })
