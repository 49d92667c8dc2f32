-- ===== src/ManyToMany/Team/Created.antt =====
-- The rows that createNew of users-team-repository.js adds for users that exist.
use ucom_backend.Prelude.{
  ℕ, suc, String, ◌≡◌, inl, inr, refl, Bool, true, List, [], ◌∷◌, select, All, Bool-cases,
}
use ucom_backend.Prelude.Action.{ok}
use ucom_backend.ManyToMany.Team.{Table, create_new, create_all}

-- The table after a row for a pending member.
abbrev pub with_row : ℕ → String → ℕ → Table → Table
with_row entity name k t = record {
  rows =
      record { id = suc t.last_id; user_id = k; entity_id = entity; entity_name = name; status = 0 }
      ∷ t.rows;
  last_id = suc t.last_id;
}

unfoldable pub with_rows : ℕ → String → List ℕ → Table → Table
with_rows entity name [] t = t
with_rows entity name (k ∷ ks) t = with_rows entity name ks (with_row entity name k t)

abbrev pub AreKnown : (ℕ → Bool) → List ℕ → Type 0
AreKnown is_user = All (λ k. is_user k ≡ true)

pub known_select :
    (is_user p : ℕ → Bool) (ks : List ℕ) → AreKnown is_user ks → AreKnown is_user (select p ks)
known_select is_user p [] h = tt
known_select is_user p (k ∷ ks) (h, h') = elim (Bool-cases (p k)) [
  | inl e ↦ rw e (h, known_select is_user p ks h')
  | inr e ↦ rw e (known_select is_user p ks h')
]

-- Rows for users that exist are created.
pub create_all_known :
    (is_user : ℕ → Bool) (entity : ℕ) (name : String) (ks : List ℕ) (t : Table)
    → AreKnown is_user ks
    → create_all is_user entity name ks t ≡ (ok tt, with_rows entity name ks t)
unfolding create_all create_new with_rows
create_all_known is_user entity name [] t h = refl
create_all_known is_user entity name (k ∷ ks) t (h, h') =
    rw h (create_all_known is_user entity name ks (with_row entity name k t) h')
