-- ===== src/Tests/Accounts.antt =====
-- Transfers between two accounts of symbol 1.
use ucom_backend.Prelude.{◌≡◌, refl, false, none, some, [], ◌∷◌, arith, All}
use ucom_backend.Prelude.Int.{pos, ◌+ℤ◌, ◌-ℤ◌}
use ucom_backend.Prelude.Action.{ok, err, db_error}
use ucom_backend.Accounts.{Account, Ledger, create_new_account, create_trx_between_two_accounts}
use ucom_backend.Accounts.Sums.{total}
use ucom_backend.Accounts.Transfers.{moved, create_trx_between_two_accounts_conserves}
use ucom_backend.Accounts.Booking.{
  IsValid, IsNonnegative, create_trx_between_two_accounts-IsValid,
  create_trx_between_two_accounts-IsNonnegative,
}

abbrev debt_account : Account
debt_account = record {
  id = 1;
  account_type = 2;
  user_id = none;
  symbol_id = 1;
  current_balance = pos 10;
  last_transaction_id = none;
}

abbrev reserved_account : Account
reserved_account = record {
  id = 2;
  account_type = 3;
  user_id = some 7;
  symbol_id = 1;
  current_balance = pos 0;
  last_transaction_id = none;
}

abbrev ledger : Ledger
ledger = record {
  accounts = reserved_account ∷ debt_account ∷ [];
  transactions = [];
  parts = record { transaction_id = 9; account_id = 1; amount = pos 10 } ∷ [];
}

-- the ledger after a transfer of 4 from the debt account to the reserved one
abbrev after : Ledger
after = moved 1 2 (pos 4) none none ledger

ledger-IsValid : IsValid ledger
unfolding ◌+ℤ◌
ledger-IsValid = record {
  unique = (refl, (refl, tt));
  numbered = (omega arith, (omega arith, tt));
  known = (refl, tt);
  booked = (refl, (refl, tt));
}

moves_test : create_trx_between_two_accounts 1 2 (pos 4) false none none ledger ≡ (ok tt, after)
unfolding create_trx_between_two_accounts ◌+ℤ◌ ◌-ℤ◌
moves_test = refl

income_needs_no_user_test :
    create_new_account 1 1 (some 7) ledger
    ≡ (err (db_error "accounts_user_id_disallow_null_check"), ledger)
unfolding create_new_account
income_needs_no_user_test = refl

create_trx_between_two_accounts_conserves_example :
    total 1 (moved 1 2 (pos 4) none none ledger).accounts ≡ total 1 ledger.accounts
create_trx_between_two_accounts_conserves_example =
    create_trx_between_two_accounts_conserves 1 2 (pos 4) none none false ledger 1
      ledger-IsValid.unique moves_test

create_trx_between_two_accounts-IsValid_example : IsValid after
create_trx_between_two_accounts-IsValid_example =
    create_trx_between_two_accounts-IsValid 1 2 (pos 4) none none false ledger ledger-IsValid
      moves_test

create_trx_between_two_accounts-IsNonnegative_example : All IsNonnegative after.accounts
create_trx_between_two_accounts-IsNonnegative_example =
    create_trx_between_two_accounts-IsNonnegative 1 2 (pos 4) none none ledger ledger-IsValid
      (omega arith) (omega arith, (omega arith, tt)) moves_test
