-- ===== src/ManyToMany/Team/Laws.antt =====
-- The members of a team after an update of users-team-service.js.
use ucom_backend.Prelude.{ℕ, String, Bool, not, ◌&&◌, List, ◌==◌, any, select}
use ucom_backend.ManyToMany.Delta.{is_in_source, is_in_updated}
use ucom_backend.ManyToMany.Team.{TeamRow, Table, is_related, find_all_related_to_entity}
use ucom_backend.ManyToMany.Team.Rows.{IsValid}

module _ (entity : ℕ) (name : String) (is_status : ℕ → Bool) where
  abbrev is_row_of : ℕ → TeamRow → Bool
  is_row_of k r = is_related entity name r && r.user_id == k && is_status r.status

  -- Whether a user has a row in the team with such a status.
  abbrev pub is_listed : ℕ → Table → Bool
  is_listed k t = any (λ r. is_related entity name r && r.user_id == k && is_status r.status) t.rows

  module _ (ks : List ℕ) (t : Table) (v : IsValid t) where
    abbrev removed : List TeamRow
    removed =
        select (λ x. not (is_in_updated (λ (r : TeamRow). r.user_id) (λ k. k) ks x))
          (find_all_related_to_entity entity name t)

    is_removed : TeamRow → Bool
    is_removed r = is_related entity name r && not (any (λ u. r.user_id == u) ks)

    abbrev added : List ℕ
    added =
        select
          (λ u. not (
            is_in_source (λ (r : TeamRow). r.user_id) (λ i. i)
              (find_all_related_to_entity entity name t) u))
          ks
