-- ===== src/Airdrops/Delivery/Waiting.antt =====
-- airdrops-users-to-waiting-service.js. Sending to the blockchain is a parameter: whether an item
-- is accepted. The rows of `Promise.all` are written one after the other.
pub mod Laws
use text.Mathlib.Text.{◌==◌ as str_eq}
use ucom_backend.Prelude.{
  ℕ, String, Bool, false, not, ◌&&◌, none, some, List, [], ◌∷◌, ◌==◌, if◌then◌else◌, any, select,
  take, ◌+◌,
}
use ucom_backend.Prelude.Action.{Action, Result, ok, err, pure, transaction, ◌>>=◌, ◌>>◌}
use ucom_backend.Accounts.{create_trx_between_two_accounts, next_id}
use ucom_backend.Airdrops.State.{Statuses, Airdrops, on_ledger, change_user_status}
use ucom_backend.Airdrops.Delivery.{Dto, join, without_zero}

-- LegacyAccountNamesDictionary
abbrev legacy_names : List String
legacy_names =
    "spirin" ∷ "sudokey" ∷ "karolinaer" ∷ "test" ∷ "ilya" ∷ "katyac" ∷ "jane" ∷ "romanov" ∷ "vlad"
    ∷ "anzor" ∷ "sergeis" ∷ []

unfoldable pub is_account_name_legacy : Bool → String → Bool
is_account_name_legacy is_production name = not is_production && any (str_eq name) legacy_names

-- `try` with a `catch` that logs the error.
abbrev pub caught : Action Airdrops (Unit {0}) → Action Airdrops (Unit {0})
caught m s = (ok tt, (m s).1)

-- OutgoingTransactionsLogRepository.insertOneRow, which gives the id of the row
abbrev pub insert_one_row : ℕ → Action Airdrops ℕ
insert_one_row item s = (ok (next_id s.outgoing), record s { outgoing = item ∷ s.outgoing })

module _ (st : Statuses) (account_name : ℕ → String) (is_production : Bool)
    (send_transaction : Dto → Result (Unit {0})) where
  -- getDataForStatusToWaiting: new rows stand first, so this is the order of falling ids.
  unfoldable pub get_data_for_status_to_waiting : ℕ → Action Airdrops (List Dto)
  get_data_for_status_to_waiting limit s =
      let pending = select (λ u. u.status == st.pending) s.users in
      let rows =
        join account_name (λ u. u.reserved_account_id) (λ u. u.waiting_account_id) s pending in
      (without_zero (take limit rows), s)

  unfoldable pub process_blockchain_transaction : Dto → Action Airdrops ℕ
  process_blockchain_transaction item s = elim (send_transaction item) [
    | ok _ ↦ insert_one_row item.id s
    | err e ↦ (err e, s)
  ]

  unfoldable pub move_to_waiting : Dto → ℕ → Action Airdrops (Unit {0})
  move_to_waiting item external = do
    on_ledger (
        create_trx_between_two_accounts item.account_id_from item.account_id_to item.amount false
          none (some external))
    change_user_status st.waiting item.id

  unfoldable pub deliver : Dto → Action Airdrops (Unit {0})
  deliver item = do
    external ← process_blockchain_transaction item
    transaction (move_to_waiting item external)

  unfoldable pub process_one_item : Dto → Action Airdrops (Unit {0})
  process_one_item item =
      if is_account_name_legacy is_production item.account_name_to
      then pure tt
      else caught (deliver item)

  -- The loop of `process`, with the counter that it returns.
  unfoldable pub process_items : List Dto → ℕ → Action Airdrops ℕ
  process_items [] counter = pure counter
  process_items (item ∷ items) counter = do process_one_item item; process_items items (counter + 1)

  unfoldable pub process : ℕ → Action Airdrops ℕ
  process limit = do items ← get_data_for_status_to_waiting limit; process_items items 0
