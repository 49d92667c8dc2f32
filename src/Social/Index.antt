-- ===== src/Social/Index.antt =====
-- The index tables users_activity_follow, users_activity_trust and users_activity_vote: one row
-- for a user and an entity, under a unique index on both (users-activity-*-repository.js).
pub mod Laws
use ucom_backend.Prelude.{
  ℕ, String, Bool, not, ◌&&◌, Option, none, some, List, ◌∷◌, ◌==◌, if◌then◌else◌, any, find, select,
}
use text.Mathlib.Text.{◌==◌ as str_eq}

pub record IndexRow : Type 0 where
  pub user_id : ℕ
  pub entity_id : ℕ
  pub entity_name : String
  -- of users_activity_vote only
  pub interaction_type : ℕ

-- the `where` of the repositories
abbrev pub matches : ℕ → ℕ → String → IndexRow → Bool
matches user entity name row =
    row.user_id == user && row.entity_id == entity && str_eq row.entity_name name

-- `.first()`, with `none` for null
abbrev pub get_row : ℕ → ℕ → String → List IndexRow → Option IndexRow
get_row user entity name = find (matches user entity name)

-- `data !== null`
abbrev pub exists : ℕ → ℕ → String → List IndexRow → Bool
exists user entity name = any (matches user entity name)

-- `insert`: `none` where the CHECK on the entity's id or the unique index refuses the row.
unfoldable pub insert_row : IndexRow → List IndexRow → Option (List IndexRow)
insert_row row rows =
    if row.entity_id == 0
    then none
    else if exists row.user_id row.entity_id row.entity_name rows
    then none
    else some (row ∷ rows)

-- `delete('id')`: `none` where no row was deleted.
unfoldable pub delete_row : ℕ → ℕ → String → List IndexRow → Option (List IndexRow)
delete_row user entity name rows =
    if exists user entity name rows
    then some (select (λ row. not (matches user entity name row)) rows)
    else none
