-- ===== src/Accounts/Transfers.antt =====
-- A transfer in closed form: when it succeeds, and the ledger that it leaves.
use ucom_backend.Prelude.{
  ℕ, ◌≡◌, ◌⊎◌, ◌↔◌, inl, inr, refl, sym, ◌∙◌, Bool, true, false, ◌||◌, Option, some, List, [], ◌∷◌,
  map, arith, ◌==◌, select,
}
use ucom_backend.Prelude.Int.{ℤ, pos, ◌-ℤ◌, ltb_ℤ, +ℤ_transfer}
use ucom_backend.Prelude.Action.{ok}
use ucom_backend.Accounts.{
  Account, Ledger, next_id, has_account, all_symbols, same_symbols, are_symbols_equal, adjust,
  balance_of, is_parent_known, is_external_new, create_trx_between_two_accounts,
}
use ucom_backend.Accounts.Sums.{
  total, symbol_of, HasUniqueIds, HasUniqueIds-map-adjust, has_account-map-adjust,
  symbol_of-map-adjust, total-map-adjust,
}

symbol_of-all_symbols :
    (k symbol : ℕ) (rest : List Account)
    → all_symbols symbol rest ≡ true
    → has_account k rest ≡ true
    → symbol_of k rest ≡ some symbol
symbol_of-all_symbols k symbol [] h e = cc
symbol_of-all_symbols k symbol (a ∷ rest) h e = ground (arith, symbol_of-all_symbols k symbol rest)

module _ (from to : ℕ) where
  abbrev of_either : List Account → List Account
  of_either = select (λ a. a.id == from || a.id == to)

  symbol_of-of_either :
      (k : ℕ) (rest : List Account)
      → (k ≡ from) ⊎ (k ≡ to)
      → (symbol_of k (of_either rest) ≡ symbol_of k rest)
        × (has_account k (of_either rest) ≡ has_account k rest)
  symbol_of-of_either k [] h = (refl, refl)
  symbol_of-of_either k (a ∷ rest) h = ground (arith, symbol_of-of_either k rest h)

  same_symbols_agree :
      (rest : List Account) (u v : ℕ)
      → same_symbols rest ≡ some true
      → has_account u rest ≡ true
      → has_account v rest ≡ true
      → symbol_of u rest ≡ symbol_of v rest
  same_symbols_agree [] u v h p q = cc
  same_symbols_agree (a ∷ rest) u v h p q =
      ground
        (arith, symbol_of-all_symbols u a.symbol_id rest, symbol_of-all_symbols v a.symbol_id rest)

  -- Two accounts that pass the test of the symbols have one symbol.
  pub symbols_agree :
      (accounts : List Account)
      → are_symbols_equal from to accounts ≡ some true
      → has_account from accounts ≡ true
      → has_account to accounts ≡ true
      → symbol_of from accounts ≡ symbol_of to accounts
  symbols_agree accounts h p q =
      let f = symbol_of-of_either from accounts (inl refl) in
      let t = symbol_of-of_either to accounts (inr refl) in
      sym f.0 ∙ same_symbols_agree (of_either accounts) from to h (f.1 ∙ p) (t.1 ∙ q) ∙ t.0

  module _ (amount : ℤ) (parent external : Option ℕ) where
    -- The accounts after the two updates.
    abbrev pub decreased : Ledger → List Account
    decreased s = map (adjust from (pos 0 -ℤ amount) (next_id s.transactions)) s.accounts

    -- The ledger after a transfer.
    abbrev pub moved : Ledger → Ledger
    moved s = record {
      accounts = map (adjust to amount (next_id s.transactions)) (decreased s);
      transactions =
          record { id = next_id s.transactions; parent_id = parent; external_tr_id = external }
          ∷ s.transactions;
      parts =
          record { transaction_id = next_id s.transactions; account_id = to; amount = amount }
          ∷ record {
            transaction_id = next_id s.transactions;
            account_id = from;
            amount = pos 0 -ℤ amount;
          }
          ∷ s.parts;
    }

    -- The conditions of a transfer: two accounts of one symbol, a transaction that the constraints
    -- of its table allow, and a balance that stays at zero or above unless a negative one is
    -- allowed.
    pub record CanMove (allow_negative : Bool) (s : Ledger) : Type 0 where
      pub symbols : are_symbols_equal from to s.accounts ≡ some true
      pub parent_known : is_parent_known parent s.transactions ≡ true
      pub external_new : is_external_new external s.transactions ≡ true
      pub has_from : has_account from s.accounts ≡ true
      pub has_to : has_account to s.accounts ≡ true
      pub covered :
          (allow_negative ≡ true) ⊎ (ltb_ℤ (balance_of from (decreased s)) (pos 0) ≡ false)

    -- A transfer succeeds exactly under these conditions, and leaves the ledger `moved`.
    pub create_trx_between_two_accounts_iff :
        (allow_negative : Bool) (s s' : Ledger)
        → (create_trx_between_two_accounts from to amount allow_negative parent external s
            ≡ (ok tt, s'))
          ↔ (CanMove allow_negative s × (s' ≡ moved s))
    unfolding create_trx_between_two_accounts
    create_trx_between_two_accounts_iff allow s s' = ground arith

    -- Where the ids of accounts are unique, a transfer that succeeds conserves the total of every
    -- symbol.
    pub create_trx_between_two_accounts_conserves :
        (allow_negative : Bool) (s : Ledger) {s' : Ledger} (symbol : ℕ)
        → HasUniqueIds s.accounts
        → create_trx_between_two_accounts from to amount allow_negative parent external s
          ≡ (ok tt, s')
        → total symbol s'.accounts ≡ total symbol s.accounts
    create_trx_between_two_accounts_conserves allow s {s'} symbol u h =
        let (can, e) = (create_trx_between_two_accounts_iff allow s s').0 h in
        let t : ℕ = next_id s.transactions in
        let less = total-map-adjust from (pos 0 -ℤ amount) t symbol s.accounts u can.has_from in
        let more =
          total-map-adjust to amount t symbol (decreased s)
            (HasUniqueIds-map-adjust from (pos 0 -ℤ amount) t s.accounts u)
            (has_account-map-adjust from (pos 0 -ℤ amount) t to s.accounts ∙ can.has_to) in
        let keeps = symbol_of-map-adjust from (pos 0 -ℤ amount) t to s.accounts in
        let same = symbols_agree s.accounts can.symbols can.has_from can.has_to in
        rw e (ground (arith, less, more, keeps, same, +ℤ_transfer (total symbol s.accounts) amount))
