-- ===== src/Airdrops/Delivery/Laws.antt =====
-- What the worker of receipts does to the ledger and to the status of a row.
use mathlib.Core.Path.{subst}
use ucom_backend.Prelude.{
  ℕ, String, ◌≡◌, ◌≢◌, ◌⊎◌, inl, inr, refl, Bool, true, false, none, some, List, [], ◌∷◌, ◌++◌, map,
  arith, if◌then◌else◌, select, All, All-append, Bool-cases, Option-cases,
}
use ucom_backend.Prelude.Action.{Result, ok, err, Error, run_cases}
use ucom_backend.Accounts.{Account, find_account, create_trx_between_two_accounts}
use ucom_backend.Accounts.Booking.{IsValid}
use ucom_backend.Airdrops.State.{
  Statuses, AirdropUser, UserExternal, Airdrops, set_status, set_user_status, change_status,
  change_user_status,
}
use ucom_backend.Airdrops.Pending.Reservation.{
  IsKept, Keeps-refl, create_trx_between_two_accounts-Keeps,
}
use ucom_backend.Airdrops.Delivery.{Dto, is_of_user, join, join_external, without_zero}
use ucom_backend.Airdrops.Delivery.Received as R

-- A row of the table.
abbrev pub IsRow : AirdropUser → List AirdropUser → Type 0
IsRow u [] = ⊥
IsRow u (v ∷ vs) = (u ≡ v) ⊎ IsRow u vs

module _ (st : Statuses) (name : ℕ → String) where
  module _ (receipts : ℕ → List ℕ) (airdrop tokens : ℕ) where
    -- The tokens of a row that is received are moved to the wallet and its status is set; the
    -- external row follows when all the rows of the user are received.
    abbrev pub IsReceived : Dto → Airdrops → Airdrops → Type 0
    IsReceived item s s' =
        (create_trx_between_two_accounts item.account_id_from item.account_id_to item.amount false
            none none s.ledger
          ≡ (ok tt, s'.ledger))
        × ((s'.users ≡ map (set_user_status st.received item.id) s.users)
            × (s'.external_data ≡ (
                if R.is_airdrop_received_by_user st name receipts airdrop item.user_id tokens s'
                then map (set_status st.received item.users_external_id) s.external_data
                else s.external_data)))

    move_to_wallet_lem :
        (item : Dto) (s : Airdrops) {s' : Airdrops}
        → R.move_to_wallet st name receipts airdrop tokens item s ≡ (ok tt, s')
        → IsReceived item s s'
    unfolding R.move_to_wallet R.finish change_user_status change_status
        R.is_airdrop_received_by_user
    move_to_wallet_lem item s h =
        elim (run_cases (
          create_trx_between_two_accounts item.account_id_from item.account_id_to item.amount false
            none none s.ledger)) [
              | inl (a, l, done) ↦ ground arith
              | inr (e, l, failed) ↦ absurd (ground arith)
            ]

    -- What is fetched for a receipt: a row of the airdrop's users with the id and the status
    -- waiting, with all that is on its waiting account, from there to its wallet.
    abbrev pub IsItem : ℕ → Airdrops → Dto → Type 0
    IsItem row s item =
        (u : AirdropUser) × (a : Account) × IsRow u s.users
        × (R.is_awaited st name receipts airdrop row u ≡ true)
        × (find_account u.waiting_account_id s.ledger.accounts ≡ some a)
        × (item.id ≡ u.id)
        × (item.user_id ≡ u.user_id)
        × (item.account_id_from ≡ u.waiting_account_id)
        × (item.account_id_to ≡ u.wallet_account_id)
        × (item.amount ≡ a.current_balance)

    abbrev joined : Airdrops → List AirdropUser → List Dto
    joined = join name (λ v. v.waiting_account_id) (λ v. v.wallet_account_id)

    module _ (row : ℕ) (s : Airdrops) (u : AirdropUser) (a : Account) (there : IsRow u s.users)
        (awaited : R.is_awaited st name receipts airdrop row u ≡ true)
        (found : find_account u.waiting_account_id s.ledger.accounts ≡ some a) where
      join_external-IsItem :
          (es : List UserExternal)
          → All
              (IsItem row s)
              (join_external name (λ v. v.waiting_account_id) (λ v. v.wallet_account_id) u a es)
      join_external-IsItem [] = tt
      join_external-IsItem (e ∷ es) = elim (Bool-cases (is_of_user u.user_id e.user_id)) [
        | inl f ↦
            rw f
              ((u, a, there, awaited, found, refl, refl, refl, refl, refl), join_external-IsItem es)
        | inr f ↦ rw f (join_external-IsItem es)
      ]

    join-IsItem :
        (row : ℕ) (s : Airdrops) (us : List AirdropUser)
        → All (λ u. IsRow u s.users × (R.is_awaited st name receipts airdrop row u ≡ true)) us
        → All (IsItem row s) (joined s us)
    join-IsItem row s [] h = tt
    join-IsItem row s (u ∷ us) ((there, awaited), k) =
        elim (Option-cases (find_account u.waiting_account_id s.ledger.accounts)) [
          | inl e ↦
              let same : joined s (u ∷ us) ≡ joined s us = ground arith in
              rw same (join-IsItem row s us k)
          | inr (a, found) ↦
              let here =
                join_external name (λ v. v.waiting_account_id) (λ v. v.wallet_account_id) u a
                  s.users_external in
              let grown : joined s (u ∷ us) ≡ here ++ joined s us = ground arith in
              rw grown (
                All-append (IsItem row s) here (joined s us)
                  (join_external-IsItem row s u a there awaited found s.users_external)
                  (join-IsItem row s us k))
        ]

    awaited_rows :
        (row : ℕ) (all us : List AirdropUser)
        → ((u : AirdropUser) → IsRow u us → IsRow u all)
        → All
            (λ u. IsRow u all × (R.is_awaited st name receipts airdrop row u ≡ true))
            (select (R.is_awaited st name receipts airdrop row) us)
    awaited_rows row all [] f = tt
    awaited_rows row all (u ∷ us) f =
        elim (Bool-cases (R.is_awaited st name receipts airdrop row u)) [
          | inl e ↦ rw e ((f u (inl refl), e), awaited_rows row all us (λ v i. f v (inr i)))
          | inr e ↦ rw e (awaited_rows row all us (λ v i. f v (inr i)))
        ]

    only_one-IsItem :
        (row : ℕ) (s : Airdrops) (rows : List Dto) (item : Dto)
        → All (IsItem row s) rows
        → R.only_one_of st name receipts (without_zero rows) ≡ ok (some item)
        → IsItem row s item
    only_one-IsItem row s [] item h e = absurd (ground arith)
    only_one-IsItem row s (d ∷ []) item (h, _) e =
        let same : d ≡ item = ground arith in subst (IsItem row s) same h
    only_one-IsItem row s (d ∷ (d' ∷ ds)) item h e = absurd (ground arith)

    fetched-IsItem :
        (row : ℕ) (s : Airdrops) (item : Dto)
        → (R.get_one_data_for_status_to_received st name receipts airdrop row s).0 ≡ ok (some item)
        → IsItem row s item
    unfolding R.get_one_data_for_status_to_received
    fetched-IsItem row s item e =
        let awaited = select (R.is_awaited st name receipts airdrop row) s.users in
        only_one-IsItem row s (joined s awaited) item
          (join-IsItem row s awaited (awaited_rows row s.users s.users (λ u i. i))) e

    -- The three ways to end the processing of a receipt.
    abbrev pub ReceiptOutcome : ℕ → Airdrops → Result Bool → Airdrops → Type 0
    ReceiptOutcome row s r s' =
        ((item : Dto) × (((R.get_one_data_for_status_to_received st name receipts airdrop row s).0
              ≡ ok (some item))
            × IsItem row s item
            × ((r ≡ ok true) × IsReceived item s s')))
        ⊎ ((((R.get_one_data_for_status_to_received st name receipts airdrop row s).0 ≡ ok none)
              × ((r ≡ ok false) × (s' ≡ s)))
            ⊎ ((e : Error) × ((r ≡ err e) × (s' ≡ s))))

    pub process_one_receipt_cases :
        (row : ℕ) (s : Airdrops) (s' : Airdrops) (r : Result Bool)
        → R.process_one_item st name receipts airdrop tokens row s ≡ (r, s')
        → ReceiptOutcome row s r s'
    unfolding R.process_one_item R.get_one_data_for_status_to_received
    process_one_receipt_cases row s s' r h =
        elim (run_cases (R.get_one_data_for_status_to_received st name receipts airdrop row s)) [
          | inl (none, t, got) ↦ inr (inl (ground arith))
          | inl (some item, t, got) ↦
              elim (run_cases (R.move_to_wallet st name receipts airdrop tokens item s)) [
                | inl (a, u, done) ↦
                    let moves = move_to_wallet_lem item s done in
                    let same : s' ≡ u = ground arith in
                    let fetched : (R.get_one_data_for_status_to_received st name receipts airdrop
                          row s).0
                        ≡ ok (some item) =
                      ground arith in
                    inl (
                      item,
                      (fetched, fetched-IsItem row s item fetched, (ground arith, rw same moves)),
                    )
                | inr (e, u, failed) ↦ inr (inr (e, ground arith))
              ]
          | inr (e, t, failed) ↦ inr (inr (e, ground arith))
        ]

    -- Processing a receipt keeps a valid ledger valid and the total of every symbol, also where it
    -- throws.
    process_one_receipt-IsKept :
        (row : ℕ) (s : Airdrops)
        → IsValid s.ledger
        → IsKept s.ledger (R.process_one_item st name receipts airdrop tokens row s).1.ledger
    process_one_receipt-IsKept row s =
        let p = R.process_one_item st name receipts airdrop tokens row s in
        elim (process_one_receipt_cases row s p.1 p.0 refl) [
          | inl (item, (_, _, (_, (moves, _)))) ↦
              create_trx_between_two_accounts-Keeps item.account_id_from item.account_id_to
                item.amount false none none s.ledger moves
          | inr (inl (_, (_, same))) ↦ rw same (Keeps-refl s.ledger)
          | inr (inr (e, (_, same))) ↦ rw same (Keeps-refl s.ledger)
        ]

    not_awaited :
        (row : ℕ) (users : List AirdropUser)
        → st.waiting ≢ st.received
        → select
            (R.is_awaited st name receipts airdrop row)
            (map (set_user_status st.received row) users)
          ≡ []
    not_awaited row [] ne = refl
    not_awaited row (u ∷ us) ne = ground (arith, not_awaited row us ne)

    -- Where the statuses waiting and received differ, a receipt that was processed and is seen
    -- again finds no row and changes nothing: the tokens are not moved twice.
    pub process_one_receipt_twice :
        (row : ℕ) (s : Airdrops) (s' : Airdrops)
        → st.waiting ≢ st.received
        → R.process_one_item st name receipts airdrop tokens row s ≡ (ok true, s')
        → R.process_one_item st name receipts airdrop tokens row s' ≡ (ok false, s')
    unfolding R.process_one_item R.get_one_data_for_status_to_received
    process_one_receipt_twice row s s' ne h =
        elim (process_one_receipt_cases row s s' (ok true) h) [
          | inl (item, (_, (u, a, _, awaited, _, same, _, _, _, _), (_, (_, (users, _))))) ↦
              let id : item.id ≡ row = ground arith in
              let gone = not_awaited row s.users ne in ground arith
          | inr (inl (_, (e, _))) ↦ absurd (ground arith)
          | inr (inr (e, (f, _))) ↦ absurd (ground arith)
        ]
