-- ===== src/Airdrops/Delivery/Waiting/Laws.antt =====
-- What the worker to waiting does to the ledger and to the status of a row.
use ucom_backend.Prelude.{
  ℕ, String, ◌+◌, ◌≡◌, ◌⊎◌, inl, inr, ◌∙◌, Bool, false, none, some, List, [], ◌∷◌, map, arith,
  length,
}
use ucom_backend.Prelude.Action.{Result, ok, run_cases}
use ucom_backend.Accounts.{create_trx_between_two_accounts, next_id}
use ucom_backend.Accounts.Booking.{IsValid}
use ucom_backend.Airdrops.State.{Statuses, Airdrops, set_user_status, change_user_status}
use ucom_backend.Airdrops.Pending.Reservation.{
  IsKept, Keeps, Keeps-refl, Keeps-trans, create_trx_between_two_accounts-Keeps,
}
use ucom_backend.Airdrops.Delivery.{Dto}
use ucom_backend.Airdrops.Delivery.Waiting as W

module _ (st : Statuses) (name : ℕ → String) where
  module _ (is_production : Bool) (send : Dto → Result (Unit {0})) where
    -- An item is carried over: its transfer is made and its status is set, in one transaction.
    abbrev pub IsMoved : Dto → Airdrops → Airdrops → Type 0
    IsMoved item s s' =
        (create_trx_between_two_accounts item.account_id_from item.account_id_to item.amount false
            none (some (next_id s.outgoing)) s.ledger
          ≡ (ok tt, s'.ledger))
        × (s'.users ≡ map (set_user_status st.waiting item.id) s.users)

    -- Processing an item never throws, and it either moves the tokens and sets the status, or
    -- leaves both the ledger and the rows of the users as they were.
    pub process_one_item_moves_or_not :
        (item : Dto) (s : Airdrops)
        → ((W.process_one_item st name is_production send item s).0 ≡ ok tt)
          × (IsMoved item s (W.process_one_item st name is_production send item s).1
              ⊎ (((W.process_one_item st name is_production send item s).1.ledger ≡ s.ledger)
                  × ((W.process_one_item st name is_production send item s).1.users ≡ s.users)))
    unfolding W.process_one_item W.deliver W.process_blockchain_transaction W.move_to_waiting
        change_user_status
    process_one_item_moves_or_not item s =
        elim (run_cases (
          create_trx_between_two_accounts item.account_id_from item.account_id_to item.amount false
            none (some (next_id s.outgoing)) s.ledger)) [
              | inl (a, l, done) ↦ ground arith
              | inr (e, l, failed) ↦ ground arith
            ]

    process_one_item-Keeps :
        (item : Dto) (s : Airdrops)
        → Keeps s.ledger (W.process_one_item st name is_production send item s).1.ledger
    process_one_item-Keeps item s =
        let (_, outcome) = process_one_item_moves_or_not item s in
        elim outcome [
          | inl (moves, _) ↦
              create_trx_between_two_accounts-Keeps item.account_id_from item.account_id_to
                item.amount false none (some (next_id s.outgoing)) s.ledger moves
          | inr (same, _) ↦ rw same (Keeps-refl s.ledger)
        ]

    process_items-Keeps :
        (items : List Dto) (n : ℕ) (s : Airdrops)
        → ((W.process_items st name is_production send items n s).0 ≡ ok (n + length items))
          × Keeps s.ledger (W.process_items st name is_production send items n s).1.ledger
    unfolding W.process_items
    process_items-Keeps [] n s = (ground arith, Keeps-refl s.ledger)
    process_items-Keeps (item ∷ items) n s =
        let t = (W.process_one_item st name is_production send item s).1 in
        let run = (process_one_item_moves_or_not item s).0 in
        let (value, rest) = process_items-Keeps items (n + 1) t in
        let first = process_one_item-Keeps item s in
        let e : W.process_items st name is_production send (item ∷ items) n s
            ≡ W.process_items st name is_production send items (n + 1) t =
          ground arith in
        rw e (
          (value ∙ ground arith),
          Keeps-trans s.ledger t.ledger
              (W.process_items st name is_production send items (n + 1) t).1.ledger first rest,
        )

    -- A run of the worker to waiting keeps a valid ledger valid and the total of every symbol,
    -- whatever fails on the way.
    process_to_waiting-IsKept :
        (limit : ℕ) (s : Airdrops)
        → IsValid s.ledger
        → IsKept s.ledger (W.process st name is_production send limit s).1.ledger
    unfolding W.process W.get_data_for_status_to_waiting
    process_to_waiting-IsKept limit s =
        elim (run_cases (W.get_data_for_status_to_waiting st name is_production send limit s)) [
          | inl (items, t, done) ↦
              let keeps = (process_items-Keeps items 0 s).1 in
              let e : W.process st name is_production send limit s
                  ≡ W.process_items st name is_production send items 0 s =
                ground arith in
              rw e keeps
          | inr (e, t, failed) ↦
              let same : (W.process st name is_production send limit s).1 ≡ s = ground arith in
              rw same (Keeps-refl s.ledger)
        ]

    -- Where the rows of the users can be fetched, a run of the worker to waiting ends without an
    -- error and returns their number, whatever fails on the way.
    process_to_waiting_counts :
        (limit : ℕ) (s : Airdrops) (items : List Dto)
        → (W.get_data_for_status_to_waiting st name is_production send limit s).0 ≡ ok items
        → (W.process st name is_production send limit s).0 ≡ ok (length items)
    unfolding W.process W.get_data_for_status_to_waiting
    process_to_waiting_counts limit s items h =
        let (value, _) = process_items-Keeps items 0 s in
        let e : W.process st name is_production send limit s
            ≡ W.process_items st name is_production send items 0 s =
          ground arith in
        rw e (value ∙ ground arith)
