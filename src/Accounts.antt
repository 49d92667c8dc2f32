-- ===== src/Accounts.antt =====
-- Accounts in tokens and the transfers between them: lib/accounts/service and
-- lib/accounts/repository, over the tables accounts, accounts_transactions and
-- accounts_transactions_parts. Balances are whole numbers (BIGINT) of no bound; the columns of
-- time are left out, and so are the foreign keys to users, to symbols and to
-- outgoing_transactions_log, whose row is inserted before its id is passed on.
pub mod Sums
pub mod Booking
pub mod Transfers
use Prim.Native.Nat.{suc}
use ucom_backend.Prelude.{
  ℕ, Bool, true, false, not, ◌&&◌, ◌||◌, Option, none, some, List, [], ◌∷◌, map, ◌==◌,
  if◌then◌else◌, find, any, select, length,
}
use ucom_backend.Prelude.Int.{ℤ, pos, ◌+ℤ◌, ◌-ℤ◌, ltb_ℤ}
use ucom_backend.Prelude.Action.{
  Action, Result, ok, err, Error, app_error, db_error, js_error, pure, throw, gets, modify,
  throw_if, or_throw, ◌>>=◌, ◌>>◌,
}

-- account-types-dictionary.js
abbrev pub income : ℕ
income = 1

abbrev pub debt : ℕ
debt = 2

abbrev pub reserved : ℕ
reserved = 3

abbrev pub waiting : ℕ
waiting = 4

abbrev pub wallet : ℕ
wallet = 5

pub record Account : Type 0 where
  pub id : ℕ
  pub account_type : ℕ
  pub user_id : Option ℕ
  pub symbol_id : ℕ
  pub current_balance : ℤ
  pub last_transaction_id : Option ℕ

pub record Transaction : Type 0 where
  pub id : ℕ
  pub parent_id : Option ℕ
  pub external_tr_id : Option ℕ

pub record Part : Type 0 where
  pub transaction_id : ℕ
  pub account_id : ℕ
  pub amount : ℤ

-- New rows stand first.
pub record Ledger : Type 0 where
  pub accounts : List Account
  pub transactions : List Transaction
  pub parts : List Part

-- The ids are BIGSERIAL: the next one is one above the number of rows.
abbrev pub next_id {ℓ} : {A : Type ℓ} → List A → ℕ
next_id rows = suc (length rows)

abbrev pub find_account : ℕ → List Account → Option Account
find_account id = find (λ a. a.id == id)

abbrev pub has_account : ℕ → List Account → Bool
has_account id = any (λ a. a.id == id)

abbrev is_some : Option ℕ → Bool
is_some none = false
is_some (some _) = true

-- The CHECK of the table: only income and debt accounts belong to no user.
abbrev pub is_owner_allowed : ℕ → Option ℕ → Bool
is_owner_allowed type user =
    if type == income || type == debt then not (is_some user) else is_some user

-- AccountsCreatorService.createNewAccount
unfoldable pub create_new_account : ℕ → ℕ → Option ℕ → Action Ledger ℕ
create_new_account type symbol user s =
    if is_owner_allowed type user
    then (
      ok (next_id s.accounts),
      record s {
        accounts =
            record {
              id = next_id s.accounts;
              account_type = type;
              user_id = user;
              symbol_id = symbol;
              current_balance = pos 0;
              last_transaction_id = none;
            }
            ∷ s.accounts;
      },
    )
    else (err (db_error "accounts_user_id_disallow_null_check"), s)

abbrev pub create_new_reserved_account : ℕ → ℕ → Action Ledger ℕ
create_new_reserved_account symbol user = create_new_account reserved symbol (some user)

abbrev pub create_new_waiting_account : ℕ → ℕ → Action Ledger ℕ
create_new_waiting_account symbol user = create_new_account waiting symbol (some user)

abbrev pub create_new_wallet_account : ℕ → ℕ → Action Ledger ℕ
create_new_wallet_account symbol user = create_new_account wallet symbol (some user)

abbrev pub create_new_income_account : ℕ → Action Ledger ℕ
create_new_income_account symbol = create_new_account income symbol none

abbrev pub create_new_debt_account : ℕ → Action Ledger ℕ
create_new_debt_account symbol = create_new_account debt symbol none

-- AccountsRepository.areSymbolsEqual, on the rows that the query finds: `none` for the TypeError
-- of `data[0].symbol_id` where there is no row.
abbrev pub all_symbols : ℕ → List Account → Bool
all_symbols symbol [] = true
all_symbols symbol (a ∷ rest) = a.symbol_id == symbol && all_symbols symbol rest

abbrev pub same_symbols : List Account → Option Bool
same_symbols [] = none
same_symbols (a ∷ rest) = some (all_symbols a.symbol_id rest)

abbrev pub are_symbols_equal : ℕ → ℕ → List Account → Option Bool
are_symbols_equal from to accounts =
    same_symbols (select (λ a. a.id == from || a.id == to) accounts)

-- The foreign key of parent_id.
abbrev pub is_parent_known : Option ℕ → List Transaction → Bool
is_parent_known none rows = true
is_parent_known (some id) rows = any (λ t. t.id == id) rows

abbrev pub is_external : ℕ → Option ℕ → Bool
is_external id none = false
is_external id (some other) = other == id

-- The unique index on external_tr_id, which does not count nulls.
abbrev pub is_external_new : Option ℕ → List Transaction → Bool
is_external_new none rows = true
is_external_new (some id) rows = not (any (λ t. is_external id t.external_tr_id) rows)

-- AccountsCreatorRepository.createNewTransaction
unfoldable pub create_new_transaction : Option ℕ → Option ℕ → Action Ledger ℕ
create_new_transaction parent external s =
    if is_parent_known parent s.transactions && is_external_new external s.transactions
    then (
      ok (next_id s.transactions),
      record s {
        transactions =
            record { id = next_id s.transactions; parent_id = parent; external_tr_id = external }
            ∷ s.transactions;
      },
    )
    else (err (db_error "accounts_transactions"), s)

-- `trx(ACCOUNTS_TRANSACTIONS_PARTS).insert`, with the foreign key to the account
unfoldable pub insert_part : ℕ → ℕ → ℤ → Action Ledger (Unit {0})
insert_part transaction account amount s =
    if has_account account s.accounts
    then (
      ok tt,
      record s {
        parts =
            record { transaction_id = transaction; account_id = account; amount = amount }
            ∷ s.parts;
      },
    )
    else (err (db_error "accounts_transactions_parts_account_id_fkey"), s)

-- `update` of the last transaction with an `increment`; a decrement adds the opposite.
abbrev pub adjust : ℕ → ℤ → ℕ → Account → Account
adjust id delta transaction a =
    if a.id == id
    then record a {
      current_balance = a.current_balance +ℤ delta;
      last_transaction_id = some transaction;
    }
    else a

-- `.returning('current_balance')`, as a number: 0 for no row
abbrev pub balance_of : ℕ → List Account → ℤ
balance_of id accounts = elim (find_account id accounts) [
  | none ↦ pos 0
  | some a ↦ a.current_balance
]

unfoldable pub update_account : ℕ → ℤ → ℕ → Action Ledger ℤ
update_account id delta transaction s =
    let accounts = map (adjust id delta transaction) s.accounts in
    (ok (balance_of id accounts), record s { accounts = accounts })

-- AccountsTransactionsCreatorService.createTrxBetweenTwoAccounts
unfoldable pub create_trx_between_two_accounts :
    ℕ → ℕ → ℤ → Bool → Option ℕ → Option ℕ → Action Ledger (Unit {0})
unfolding create_new_transaction insert_part update_account
create_trx_between_two_accounts from to amount allow_negative parent external = do
  equal ← gets (λ s. are_symbols_equal from to s.accounts)
  are_equal ← or_throw equal (js_error "symbol_id of undefined")
  throw_if (not are_equal)
      (app_error "It is not possible to transfer between accounts of different symbols")
  transaction ← create_new_transaction parent external
  insert_part transaction from (pos 0 -ℤ amount)
  insert_part transaction to amount
  new_balance ← update_account from (pos 0 -ℤ amount) transaction
  update_account to amount transaction
  throw_if (not allow_negative && ltb_ℤ new_balance (pos 0))
      (app_error "Current balance of account from after transaction becomes negative")
