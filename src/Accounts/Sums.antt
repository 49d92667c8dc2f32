-- ===== src/Accounts/Sums.antt =====
-- Sums of balances and of parts, and how one update moves them.
use ucom_backend.Prelude.{
  ℕ, ◌≡◌, refl, Bool, true, false, Option, none, some, List, [], ◌∷◌, map, arith, ◌==◌,
  if◌then◌else◌, All, inl, inr, Bool-cases,
}
use ucom_backend.Prelude.Int.{ℤ, pos, ◌+ℤ◌, +ℤ_assoc, +ℤ_comm, +ℤ_right_comm}
use ucom_backend.Accounts.{Account, Part, adjust, has_account}

-- The balances of one symbol together.
abbrev pub total : ℕ → List Account → ℤ
total symbol [] = pos 0
total symbol (a ∷ rest) =
    if a.symbol_id == symbol then a.current_balance +ℤ total symbol rest else total symbol rest

-- What the parts of an account add up to.
abbrev pub part_sum : ℕ → List Part → ℤ
part_sum account [] = pos 0
part_sum account (p ∷ ps) =
    if p.account_id == account then p.amount +ℤ part_sum account ps else part_sum account ps

-- No id is given twice.
abbrev pub HasUniqueIds : List Account → Type 0
HasUniqueIds [] = Unit
HasUniqueIds (a ∷ rest) = (has_account a.id rest ≡ false) × HasUniqueIds rest

abbrev pub symbol_of : ℕ → List Account → Option ℕ
symbol_of id [] = none
symbol_of id (a ∷ rest) = if a.id == id then some a.symbol_id else symbol_of id rest

abbrev pub symbol_is : ℕ → Option ℕ → Bool
symbol_is symbol none = false
symbol_is symbol (some k) = k == symbol

module _ (id : ℕ) (delta : ℤ) (transaction : ℕ) where
  pub has_account-map-adjust :
      (k : ℕ) (rest : List Account)
      → has_account k (map (adjust id delta transaction) rest) ≡ has_account k rest
  has_account-map-adjust k [] = refl
  has_account-map-adjust k (a ∷ rest) = ground (arith, has_account-map-adjust k rest)

  pub symbol_of-map-adjust :
      (k : ℕ) (rest : List Account)
      → symbol_of k (map (adjust id delta transaction) rest) ≡ symbol_of k rest
  symbol_of-map-adjust k [] = refl
  symbol_of-map-adjust k (a ∷ rest) = ground (arith, symbol_of-map-adjust k rest)

  pub HasUniqueIds-map-adjust :
      (rest : List Account)
      → HasUniqueIds rest
      → HasUniqueIds (map (adjust id delta transaction) rest)
  HasUniqueIds-map-adjust [] h = tt
  HasUniqueIds-map-adjust (a ∷ rest) (h, k) =
      (ground (arith, has_account-map-adjust a.id rest), HasUniqueIds-map-adjust rest k)

  -- Where there is no account of that id, nothing changes.
  pub total-map-adjust_none :
      (symbol : ℕ) (rest : List Account)
      → has_account id rest ≡ false
      → total symbol (map (adjust id delta transaction) rest) ≡ total symbol rest
  total-map-adjust_none symbol [] h = refl
  total-map-adjust_none symbol (a ∷ rest) h = ground (arith, total-map-adjust_none symbol rest)

  pub total-map-adjust :
      (symbol : ℕ) (rest : List Account)
      → HasUniqueIds rest
      → has_account id rest ≡ true
      → total symbol (map (adjust id delta transaction) rest) ≡ (
          if symbol_is symbol (symbol_of id rest)
          then total symbol rest +ℤ delta
          else total symbol rest)
  total-map-adjust symbol [] u h = ground arith
  total-map-adjust symbol (a ∷ rest) (fresh, u) h = elim (Bool-cases (a.id == id)) [
    | inl e ↦
        let same : id ≡ a.id = ground arith in
        let gone : has_account id rest ≡ false = rw same fresh in
        ground (
          arith,
          total-map-adjust_none symbol rest gone,
          +ℤ_right_comm a.current_balance delta (total symbol rest),
        )
    | inr e ↦ ground (
      arith,
      total-map-adjust symbol rest u,
      +ℤ_assoc a.current_balance (total symbol rest) delta,
    )
  ]

-- Booking: a balance is the sum of the account's parts.
abbrev pub IsBooked : List Part → Account → Type 0
IsBooked parts a = a.current_balance ≡ part_sum a.id parts

-- A part and the update of its account keep every account booked.
pub All-IsBooked-adjust :
    (id : ℕ) (delta : ℤ) (transaction : ℕ) (parts : List Part) (rest : List Account)
    → All (IsBooked parts) rest
    → All
        (IsBooked
          (record { transaction_id = transaction; account_id = id; amount = delta } ∷ parts))
        (map (adjust id delta transaction) rest)
All-IsBooked-adjust id delta transaction parts [] h = tt
All-IsBooked-adjust id delta transaction parts (a ∷ rest) (h, k) = (
  elim (Bool-cases (a.id == id)) [
    | inl e ↦ ground (arith, +ℤ_comm a.current_balance delta)
    | inr e ↦ ground arith
  ],
  All-IsBooked-adjust id delta transaction parts rest k,
)
