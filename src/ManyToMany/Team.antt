-- ===== src/ManyToMany/Team.antt =====
-- Teams of users: lib/users/users-team-service.js over the table users_team
-- (users-team-repository.js). New rows stand first; the columns of time are left out, and an
-- element of a form has no field but its id. Whether the table Users has an id, to which the column
-- user_id refers, is a parameter. The calls that updateRelations starts together are of a
-- transaction of its caller, which a failure aborts: they are sequential here and end at the first
-- that fails. Those of processNewModelWithTeam are of no transaction, so all of them are made.
pub mod Rows
pub mod Created
pub mod Laws
use text.Mathlib.Text.{◌==◌ as str_eq}
use ucom_backend.Prelude.{
  ℕ, suc, String, Bool, true, false, not, ◌&&◌, ◌||◌, Option, none, some, List, [], ◌∷◌, ◌==◌,
  if◌then◌else◌, any, select, length,
}
use ucom_backend.Prelude.Action.{Action, Result, ok, err, db_error, pure, gets, modify, ◌>>=◌, ◌>>◌}
use ucom_backend.ManyToMany.Delta.{get_create_delete_only_delta}

pub record TeamRow : Type 0 where
  pub id : ℕ
  pub user_id : ℕ
  pub entity_id : ℕ
  pub entity_name : String
  pub status : ℕ

-- An element of the array `users_team` of a form: an empty string, or an object with the id of a
-- user.
pub data Entry : Type 0 where
  blank : Entry
  user : ℕ → Entry

-- DeleteAllInArrayValidator.isValueMeanDeleteAll
abbrev pub is_value_mean_delete_all : List Entry → Bool
is_value_mean_delete_all [] = false
is_value_mean_delete_all (blank ∷ []) = true
is_value_mean_delete_all (user _ ∷ []) = false
is_value_mean_delete_all (e ∷ (f ∷ rest)) = false

-- `_.filter` with no predicate: the blank entries go.
abbrev pub users_of : List Entry → List ℕ
users_of [] = []
users_of (blank ∷ rest) = users_of rest
users_of (user k ∷ rest) = k ∷ users_of rest

-- `idToExclude === null || +user.id !== idToExclude`
abbrev pub is_not_excluded : Option ℕ → ℕ → Bool
is_not_excluded none k = true
is_not_excluded (some e) k = not (k == e)

-- The table with the last id that its sequence gave.
pub record Table : Type 0 where
  pub rows : List TeamRow
  pub last_id : ℕ

abbrev pub keep_if : (TeamRow → Bool) → Table → Table
keep_if p t = record t { rows = select p t.rows }

module _ (entity_id : ℕ) (entity_name : String) where
  abbrev pub is_related : TeamRow → Bool
  is_related r = r.entity_id == entity_id && str_eq r.entity_name entity_name

  -- findAllRelatedToEntity
  abbrev pub find_all_related_to_entity : Table → List TeamRow
  find_all_related_to_entity t = select is_related t.rows

  -- isTeamMember: the status confirmed is 1
  abbrev pub is_team_member : ℕ → Table → Bool
  is_team_member k t = any (λ r. is_related r && r.user_id == k && r.status == 1) t.rows

  -- deleteAllByEntityIdEntityName
  unfoldable pub delete_all_by_entity : Table → Table
  delete_all_by_entity = keep_if (λ r. not (is_related r))

-- `destroy` by id
unfoldable pub destroy_all : List TeamRow → Table → Table
destroy_all [] t = t
destroy_all (d ∷ ds) t = destroy_all ds (keep_if (λ r. not (r.id == d.id)) t)

module _ (is_user : ℕ → Bool) (entity_id : ℕ) (entity_name : String) where
  -- createNew: a row with the status pending, which is 0. A refused row uses up an id as well.
  unfoldable pub create_new : ℕ → Action Table Unit
  create_new k t =
      if is_user k
      then (
        ok tt,
        record {
          rows =
              record {
                id = suc t.last_id;
                user_id = k;
                entity_id = entity_id;
                entity_name = entity_name;
                status = 0;
              }
              ∷ t.rows;
          last_id = suc t.last_id;
        },
      )
      else (
        err (db_error "users_team_user_id_fkey"),
        record { rows = t.rows; last_id = suc t.last_id },
      )

  unfoldable pub create_all : List ℕ → Action Table Unit
  create_all [] = pure tt
  create_all (k ∷ ks) = create_new k >> create_all ks

  abbrev pub also : Action Table Unit → Result Unit × Table → Result Unit × Table
  also rest (ok tt, t) = rest t
  also rest (err e, t) = (err e, (rest t).1)

  -- Every row is created that can be; the first error is thrown.
  unfoldable pub create_each : List ℕ → Action Table Unit
  create_each [] t = pure tt t
  create_each (k ∷ ks) t = also (create_each ks) (create_new k t)

  -- processNewModelWithTeam
  unfoldable pub process_new_model_with_team : List Entry → Option ℕ → Action Table Unit
  process_new_model_with_team form excluded =
      create_each (select (is_not_excluded excluded) (users_of form))

  -- updateRelations: the deletions are those of rows that were there before
  unfoldable pub update_relations : List ℕ × List TeamRow → Action Table Unit
  update_relations (added, deleted) = create_all added >> modify (destroy_all deleted)

  abbrev pub update_members : List ℕ → Action Table Unit
  update_members ks = gets (find_all_related_to_entity entity_id entity_name) >>= λ source.
      update_relations
        (get_create_delete_only_delta (λ (r : TeamRow). r.user_id) (λ k. k) source ks)

  abbrev pub update_if_any : List ℕ → List ℕ → Action Table Unit
  update_if_any [] ks = pure tt
  update_if_any (_ ∷ _) ks = update_members ks

  -- processUsersTeamUpdating; `none` for a form without the field
  unfoldable pub process_users_team_updating : Option (List Entry) → Option ℕ → Action Table Unit
  process_users_team_updating none excluded = pure tt
  process_users_team_updating (some form) excluded =
      if is_value_mean_delete_all form
      then modify (delete_all_by_entity entity_id entity_name)
      else update_if_any (users_of form) (select (is_not_excluded excluded) (users_of form))
