-- ===== src/Tests/Airdrops.antt =====
-- An airdrop of one token with a debt account of 10, and user 7 who claims 4 of it.
use ucom_backend.Prelude.{ℕ, String, ◌≡◌, ◌⊎◌, refl, true, false, none, some, List, [], ◌∷◌, arith}
use ucom_backend.Prelude.Int.{pos, ◌+ℤ◌, ◌-ℤ◌}
use ucom_backend.Prelude.Action.{Result, ok}
use ucom_backend.Accounts.{Account, Part, create_trx_between_two_accounts}
use ucom_backend.Accounts.Booking.{IsValid}
use ucom_backend.Airdrops.State.{
  Statuses, Token, ExternalData, AirdropUser, Debt, Airdrops, change_status, change_user_status,
}
use ucom_backend.Airdrops.Pending.{FreshUser, reserve_airdrop_for_one_user}
use ucom_backend.Airdrops.Pending.Reservation.{IsKept}
use ucom_backend.Airdrops.Pending as Pending
use ucom_backend.Airdrops.Pending.Run.{process_to_pending-IsKept}
use ucom_backend.Airdrops.Delivery.{Dto}
use ucom_backend.Airdrops.Delivery.Waiting as W
use ucom_backend.Airdrops.Delivery.Received as R
use ucom_backend.Airdrops.Delivery.Waiting.Laws as WaitingLaws
use ucom_backend.Airdrops.Delivery.Laws as L

abbrev st : Statuses
st = record { new = 1; pending = 2; waiting = 3; received = 4; no_participation = 5 }

abbrev debt_account : Account
debt_account = record {
  id = 1;
  account_type = 2;
  user_id = none;
  symbol_id = 1;
  current_balance = pos 10;
  last_transaction_id = none;
}

abbrev reserved_account : Account
reserved_account = record {
  id = 2;
  account_type = 3;
  user_id = some 7;
  symbol_id = 1;
  current_balance = pos 4;
  last_transaction_id = none;
}

abbrev waiting_account : Account
waiting_account = record reserved_account { id = 3; account_type = 4 }

abbrev wallet_account : Account
wallet_account = record reserved_account { id = 4; account_type = 5; current_balance = pos 0 }

abbrev token : Token
token = record { symbol = "UOSTEST"; amount_claim = pos 4 }

abbrev debt : Debt
debt = record { airdrop_id = 1; debt_account_id = 1; symbol_id = 1; symbol = "UOSTEST" }

abbrev fresh_row : ExternalData
fresh_row = record {
  id = 20;
  airdrop_id = 1;
  users_external_id = 50;
  status = 1;
  are_conditions_fulfilled = true;
  tokens = token ∷ [];
}

abbrev part : ℕ → ℕ → Part
part account amount = record { transaction_id = 9; account_id = account; amount = pos amount }

-- before the reservation
abbrev start : Airdrops
start = record {
  ledger = record { accounts = debt_account ∷ []; transactions = []; parts = part 1 10 ∷ [] };
  external_data = fresh_row ∷ [];
  users = [];
  debts = debt ∷ [];
  users_external = record { id = 50; user_id = some 7 } ∷ [];
  outgoing = [];
}

abbrev user : FreshUser
user = record { users_external_id = 50; status = 1; user_id = 7; tokens = token ∷ [] }

abbrev row : AirdropUser
row = record {
  id = 1;
  user_id = 7;
  airdrop_id = 1;
  reserved_account_id = 2;
  waiting_account_id = 3;
  wallet_account_id = 4;
  status = 3;
}

-- with a receipt to come
abbrev sent : Airdrops
sent = record start {
  ledger = record {
    accounts = wallet_account ∷ waiting_account ∷ reserved_account ∷ debt_account ∷ [];
    transactions = [];
    parts = part 1 10 ∷ part 2 4 ∷ part 3 4 ∷ [];
  };
  users = row ∷ [];
}

-- before the sending
abbrev pending : Airdrops
pending = record sent { users = record row { status = 2 } ∷ [] }

abbrev name : ℕ → String
name id = "jane_the_first"

abbrev receipts : ℕ → List ℕ
receipts bound = bound ∷ []

abbrev accepts : Dto → Result (Unit {0})
accepts item = ok tt

abbrev item : Dto
item = record {
  id = 1;
  airdrop_id = 1;
  user_id = 7;
  users_external_id = 50;
  account_name_to = "jane_the_first";
  account_id_from = 2;
  account_id_to = 3;
  amount = pos 4;
}

abbrev reserved : Airdrops
unfolding reserve_airdrop_for_one_user
reserved = (reserve_airdrop_for_one_user st 1 user (debt ∷ []) start).1

abbrev received : Airdrops
unfolding R.process_one_item
received = (R.process_one_item st name receipts 1 1 1 sent).1

receipt_test : R.process_one_item st name receipts 1 1 1 sent ≡ (ok true, received)
unfolding R.process_one_item R.get_one_data_for_status_to_received R.move_to_wallet R.finish
    R.is_airdrop_received_by_user create_trx_between_two_accounts change_status change_user_status
    ◌+ℤ◌ ◌-ℤ◌ received
receipt_test = refl

start-IsValid : IsValid start.ledger
unfolding ◌+ℤ◌
start-IsValid = record {
  unique = (refl, tt);
  numbered = (omega arith, tt);
  known = (refl, tt);
  booked = (refl, tt);
}

sent-IsValid : IsValid sent.ledger
unfolding ◌+ℤ◌
sent-IsValid = record {
  unique = (refl, (refl, (refl, (refl, tt))));
  numbered = (omega arith, (omega arith, (omega arith, (omega arith, tt))));
  known = (refl, (refl, (refl, tt)));
  booked = (refl, (refl, (refl, (refl, tt))));
}

fetch_test : (W.get_data_for_status_to_waiting st name true accepts 10 pending).0 ≡ ok (item ∷ [])
unfolding W.get_data_for_status_to_waiting
fetch_test = refl

process_one_item_moves_or_not_example :
    ((W.process_one_item st name true accepts item sent).0 ≡ ok tt)
    × (WaitingLaws.IsMoved st name true accepts item sent
          (W.process_one_item st name true accepts item sent).1
        ⊎ (((W.process_one_item st name true accepts item sent).1.ledger ≡ sent.ledger)
            × ((W.process_one_item st name true accepts item sent).1.users ≡ sent.users)))
process_one_item_moves_or_not_example =
    WaitingLaws.process_one_item_moves_or_not st name true accepts item sent

process_one_receipt_twice_example :
    R.process_one_item st name receipts 1 1 1 received ≡ (ok false, received)
process_one_receipt_twice_example =
    L.process_one_receipt_twice st name receipts 1 1 1 sent received (omega arith) receipt_test

process_to_pending-IsKept_example :
    IsKept start.ledger (Pending.process st (λ u o. true) 1 9 [] start).1.ledger
process_to_pending-IsKept_example =
    process_to_pending-IsKept st (λ u o. true) 1 9 [] start start-IsValid
