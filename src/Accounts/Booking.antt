-- ===== src/Accounts/Booking.antt =====
-- The ledger's invariant: ids are unique, parts belong to accounts, and every balance is booked.
use ucom_backend.Prelude.{
  ℕ, suc, ◌+◌, ◌≤◌, ◌≡◌, inl, inr, refl, sym, ◌∙◌, Bool, true, false, Option, none, List, [], ◌∷◌,
  map, arith, ◌==◌, All, length, Bool-cases,
}
use ucom_backend.Prelude.Int.{ℤ, pos, ◌-ℤ◌, ◌≤ℤ◌, ltb_ℤ, int_laws, +ℤ_parts}
use ucom_backend.Prelude.Action.{ok}
use ucom_backend.Accounts.{
  Account, Ledger, Part, next_id, has_account, adjust, balance_of, is_owner_allowed,
  create_new_account, create_trx_between_two_accounts,
}
use ucom_backend.Accounts.Sums.{
  part_sum, HasUniqueIds, IsBooked, All-IsBooked-adjust, HasUniqueIds-map-adjust,
  has_account-map-adjust,
}
use ucom_backend.Accounts.Transfers.{create_trx_between_two_accounts_iff, decreased}

abbrev pub IsAtMost : ℕ → Account → Type 0
IsAtMost n a = a.id ≤ n

abbrev pub IsKnown : List Account → Part → Type 0
IsKnown accounts p = has_account p.account_id accounts ≡ true

pub record IsValid (s : Ledger) : Type 0 where
  pub unique : HasUniqueIds s.accounts
  pub numbered : All (IsAtMost (length s.accounts)) s.accounts
  pub known : All (IsKnown s.accounts) s.parts
  pub booked : All (IsBooked s.parts) s.accounts

fresh_id :
    (n k : ℕ) (rest : List Account) → All (IsAtMost n) rest → n + 1 ≤ k → has_account k rest ≡ false
fresh_id n k [] h le = refl
fresh_id n k (a ∷ rest) (h, t) le = ground (arith, fresh_id n k rest t le)

IsAtMost-mono :
    (n m : ℕ) (rest : List Account) → n ≤ m → All (IsAtMost n) rest → All (IsAtMost m) rest
IsAtMost-mono n m [] le h = tt
IsAtMost-mono n m (a ∷ rest) le (h, t) = (omega arith, IsAtMost-mono n m rest le t)

IsAtMost-map-adjust :
    (n id : ℕ) (delta : ℤ) (t : ℕ) (rest : List Account)
    → All (IsAtMost n) rest
    → All (IsAtMost n) (map (adjust id delta t) rest)
IsAtMost-map-adjust n id delta t [] h = tt
IsAtMost-map-adjust n id delta t (a ∷ rest) (h, k) =
    (ground arith, IsAtMost-map-adjust n id delta t rest k)

length-map-adjust :
    (id : ℕ) (delta : ℤ) (t : ℕ) (rest : List Account)
    → length (map (adjust id delta t) rest) ≡ length rest
length-map-adjust id delta t [] = refl
length-map-adjust id delta t (a ∷ rest) = ground (arith, length-map-adjust id delta t rest)

IsKnown-cons :
    (a : Account) (rest : List Account) (parts : List Part)
    → All (IsKnown rest) parts
    → All (IsKnown (a ∷ rest)) parts
IsKnown-cons a rest [] h = tt
IsKnown-cons a rest (p ∷ ps) (h, k) = (ground arith, IsKnown-cons a rest ps k)

IsKnown-map-adjust :
    (id : ℕ) (delta : ℤ) (t : ℕ) (rest : List Account) (parts : List Part)
    → All (IsKnown rest) parts
    → All (IsKnown (map (adjust id delta t) rest)) parts
IsKnown-map-adjust id delta t rest [] h = tt
IsKnown-map-adjust id delta t rest (p ∷ ps) (h, k) = (
  has_account-map-adjust id delta t p.account_id rest ∙ h,
  IsKnown-map-adjust id delta t rest ps k,
)

-- An account that no part belongs to adds up to nothing.
part_sum_unknown :
    (k : ℕ) (rest : List Account) (parts : List Part)
    → has_account k rest ≡ false
    → All (IsKnown rest) parts
    → part_sum k parts ≡ pos 0
part_sum_unknown k rest [] f h = refl
part_sum_unknown k rest (p ∷ ps) f (h, t) = elim (Bool-cases (p.account_id == k)) [
  | inl e ↦ let same : k ≡ p.account_id = ground arith in absurd (ground (arith, rw same at f))
  | inr e ↦ rw e (part_sum_unknown k rest ps f t)
]

-- Opening an account keeps the ledger valid, whether the database accepts the row or not.
pub create_new_account-IsValid :
    (type symbol : ℕ) (user : Option ℕ) (s : Ledger)
    → IsValid s
    → IsValid (create_new_account type symbol user s).1
unfolding create_new_account
create_new_account-IsValid type symbol user s v =
    let n = length s.accounts in
    let fresh : has_account (next_id s.accounts) s.accounts ≡ false =
      fresh_id n (next_id s.accounts) s.accounts v.numbered (omega arith) in
    let opened : Account = record {
      id = next_id s.accounts;
      account_type = type;
      user_id = user;
      symbol_id = symbol;
      current_balance = pos 0;
      last_transaction_id = none;
    } in
    let grown : IsValid (record s { accounts = opened ∷ s.accounts }) = record {
      unique = (fresh, v.unique);
      numbered = (omega arith, IsAtMost-mono n (suc n) s.accounts (omega arith) v.numbered);
      known = IsKnown-cons opened s.accounts s.parts v.known;
      booked =
          (sym (part_sum_unknown (next_id s.accounts) s.accounts s.parts fresh v.known), v.booked);
    } in
    elim (Bool-cases (is_owner_allowed type user)) [ inl e ↦ rw e grown | inr e ↦ rw e v ]

-- A transfer that succeeds keeps a valid ledger valid: the ids of accounts are unique, every part
-- is of an account, and each balance is still the sum of its parts.
pub create_trx_between_two_accounts-IsValid :
    (from to : ℕ) (amount : ℤ) (parent external : Option ℕ) (allow_negative : Bool) (s : Ledger)
    {s' : Ledger}
    → IsValid s
    → create_trx_between_two_accounts from to amount allow_negative parent external s ≡ (ok tt, s')
    → IsValid s'
create_trx_between_two_accounts-IsValid from to amount parent external allow s {s'} v h =
    let (can, e) =
      (create_trx_between_two_accounts_iff from to amount parent external allow s s').0 h in
    let t : ℕ = next_id s.transactions in
    let l : List Account = decreased from to amount parent external s in
    let minus : ℤ = pos 0 -ℤ amount in
    let len : length (map (adjust to amount t) l) ≡ length s.accounts =
      length-map-adjust to amount t l ∙ length-map-adjust from minus t s.accounts in
    rw e (record {
      unique =
          HasUniqueIds-map-adjust to amount t l
            (HasUniqueIds-map-adjust from minus t s.accounts v.unique);
      numbered = rw len (
          IsAtMost-map-adjust (length s.accounts) to amount t l
            (IsAtMost-map-adjust (length s.accounts) from minus t s.accounts v.numbered));
      known = (
        has_account-map-adjust to amount t to l
            ∙ (has_account-map-adjust from minus t to s.accounts ∙ can.has_to),
        (
          has_account-map-adjust to amount t from l
              ∙ (has_account-map-adjust from minus t from s.accounts ∙ can.has_from),
          IsKnown-map-adjust to amount t l s.parts
              (IsKnown-map-adjust from minus t s.accounts s.parts v.known),
        ),
      );
      booked =
          All-IsBooked-adjust to amount t
            (record { transaction_id = t; account_id = from; amount = minus } ∷ s.parts) l
            (All-IsBooked-adjust from minus t s.parts s.accounts v.booked);
    })

abbrev pub IsNonnegative : Account → Type 0
IsNonnegative a = pos 0 ≤ℤ a.current_balance

All-IsNonnegative-absent :
    (id : ℕ) (delta : ℤ) (t : ℕ) (rest : List Account)
    → has_account id rest ≡ false
    → All IsNonnegative rest
    → All IsNonnegative (map (adjust id delta t) rest)
All-IsNonnegative-absent id delta t [] g h = tt
All-IsNonnegative-absent id delta t (a ∷ rest) g (h, k) =
    (ground arith, All-IsNonnegative-absent id delta t rest (ground arith) k)

-- No account but that of `id` is changed, and that one is covered.
All-IsNonnegative-decrease :
    (id : ℕ) (delta : ℤ) (t : ℕ) (rest : List Account)
    → HasUniqueIds rest
    → All IsNonnegative rest
    → ltb_ℤ (balance_of id (map (adjust id delta t) rest)) (pos 0) ≡ false
    → All IsNonnegative (map (adjust id delta t) rest)
All-IsNonnegative-decrease id delta t [] u h c = tt
All-IsNonnegative-decrease id delta t (a ∷ rest) (fresh, u) (h, k) c =
    elim (Bool-cases (a.id == id)) [
      | inl e ↦
          let same : id ≡ a.id = ground arith in
          let gone : has_account id rest ≡ false = rw same fresh in
          (ground arith, All-IsNonnegative-absent id delta t rest gone k)
      | inr e ↦ (ground arith, All-IsNonnegative-decrease id delta t rest u k (ground arith))
    ]

All-IsNonnegative-increase :
    (id : ℕ) (delta : ℤ) (t : ℕ) (rest : List Account)
    → pos 0 ≤ℤ delta
    → All IsNonnegative rest
    → All IsNonnegative (map (adjust id delta t) rest)
All-IsNonnegative-increase id delta t [] p h = tt
All-IsNonnegative-increase id delta t (a ∷ rest) p (h, k) = (
  grind (int_laws, +ℤ_parts a.current_balance delta),
  All-IsNonnegative-increase id delta t rest p k,
)

-- In a valid ledger a transfer of zero or more that may not overdraw, and that succeeds, leaves no
-- balance below zero, if there was none before.
pub create_trx_between_two_accounts-IsNonnegative :
    (from to : ℕ) (amount : ℤ) (parent external : Option ℕ) (s : Ledger) {s' : Ledger}
    → IsValid s
    → pos 0 ≤ℤ amount
    → All IsNonnegative s.accounts
    → create_trx_between_two_accounts from to amount false parent external s ≡ (ok tt, s')
    → All IsNonnegative s'.accounts
create_trx_between_two_accounts-IsNonnegative from to amount parent external s {s'} v p h done =
    let (can, e) =
      (create_trx_between_two_accounts_iff from to amount parent external false s s').0 done in
    let covered : ltb_ℤ (balance_of from (decreased from to amount parent external s)) (pos 0)
        ≡ false =
      ground (arith, can.covered) in
    rw e (
      All-IsNonnegative-increase to amount (next_id s.transactions)
        (decreased from to amount parent external s) p
        (All-IsNonnegative-decrease from (pos 0 -ℤ amount) (next_id s.transactions) s.accounts
          v.unique h covered))
