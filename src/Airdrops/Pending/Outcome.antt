-- ===== src/Airdrops/Pending/Outcome.antt =====
-- The status that a reservation leaves: the loop over the tokens writes it once for each.
use ucom_backend.Prelude.{ℕ, none, some, List, [], ◌∷◌, map, if◌then◌else◌}
use ucom_backend.Prelude.Int.{ℤ, pos}
use ucom_backend.Airdrops.State.{Statuses, Airdrops, Debt, ExternalData, set_status}
use ucom_backend.Airdrops.Pending.{FreshUser, find_token, is_zero}

-- What the user claims of a token: nothing where the token is missing.
abbrev pub claim_of : FreshUser → Debt → ℤ
claim_of user d = elim (find_token d.symbol user.tokens) [ none ↦ pos 0 | some t ↦ t.amount_claim ]

module _ (st : Statuses) (airdrop : ℕ) (user : FreshUser) where
  abbrev pub status_after : Debt → ℕ
  status_after d = if is_zero (claim_of user d) then st.no_participation else st.pending

  -- The status that the last of the debts gives.
  abbrev pub last_status : Debt → List Debt → ℕ
  last_status d [] = status_after d
  last_status d (e ∷ es) = last_status e es

  abbrev pub with_status : ℕ → List ExternalData → List ExternalData
  with_status status = map (set_status status user.users_external_id)
