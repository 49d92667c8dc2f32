-- ===== src/Tests/Helpers.antt =====
-- Reading a table of three rows by two, and the team of an organization with users 1 and 2.
use ucom_backend.Prelude.{
  ℕ, ◌+◌, ◌≡◌, inr, refl, true, false, Option, none, some, List, [], ◌∷◌, arith, length,
}
use ucom_backend.Prelude.Action.{err, app_error, db_error}
use ucom_backend.Batch.{done, failed, process_with_batch, rounds, one_round}
use ucom_backend.Batch.Laws.{read, handle_batch, read_all, process_with_batch_visits_all}
use ucom_backend.Prelude.Int.{pos}
use ucom_backend.Prelude.{◌*◌, ◌≤◌, ◌↔◌, Bool, ◌&&◌, ◌==◌, ltb}
use ucom_backend.Filters.{get_offset_limit, get_metadata_by_offset_limit}
use ucom_backend.Filters.Laws.{pages, pages_complete, get_offset_limit_bounds}
use ucom_backend.ManyToMany.Team.{
  create_each, process_new_model_with_team, TeamRow, Entry, user, Table, create_all, create_new,
}
use ucom_backend.ManyToMany.Team.Laws.{is_listed}

abbrev add_one : ℕ → ℕ → ℕ
add_one row sum = sum + row

abbrev table : List ℕ
table = 5 ∷ 6 ∷ 7 ∷ []

process_with_batch_visits_all_example :
    read_all add_one table 2 true 10 0 0 ≡ (done (record { processed = 3; skipped = 0 }), 18)
process_with_batch_visits_all_example =
    process_with_batch_visits_all add_one table 2 true 10 0 (omega arith) (omega arith)
      (inr (omega arith))

overflow_test :
    (process_with_batch
      (read add_one table)
      length
      (λ r. false)
      (handle_batch add_one table)
      2
      false
      3
      0
      0).0
    ≡ failed (app_error "Batch cycle limiter is triggered")
unfolding process_with_batch rounds one_round
overflow_test = refl

abbrev member_row : ℕ → ℕ → TeamRow
member_row id who = record {
  id = id;
  user_id = who;
  entity_id = 9;
  entity_name = "org       ";
  status = 1;
}

abbrev team : Table
team = record { rows = member_row 2 2 ∷ member_row 1 1 ∷ []; last_id = 2 }

abbrev form : List Entry
form = user 2 ∷ user 3 ∷ []

-- The users 1 to 5 exist.
abbrev is_user : ℕ → Bool
is_user k = ltb 0 k && ltb k 6

-- The second user is not in the table Users.
unknown_user_test :
    (create_all is_user 9 "org       " (3 ∷ 7 ∷ []) team).0
    ≡ err (db_error "users_team_user_id_fkey")
unfolding create_all create_new
unknown_user_test = refl

-- The first of these users does not exist; the second becomes a pending member all the same.
new_team_test :
    let r = process_new_model_with_team is_user 9 "org       " (user 7 ∷ (user 3 ∷ [])) none team in
    (r.0 ≡ err (db_error "users_team_user_id_fkey"))
    × (is_listed 9 "org       " (λ s. s == 0) 3 r.1 ≡ true)
unfolding process_new_model_with_team create_each create_new
new_team_test = (refl, refl)

abbrev some_id : ℕ → Option ℕ
some_id = some

pages_complete_example :
    ((get_metadata_by_offset_limit 1 3
        (some (pos 2))
        (some (pos 2))
        (get_offset_limit 1 (some (pos 2)) (some (pos 2))).offset
        (get_offset_limit 1 (some (pos 2)) (some (pos 2))).limit).has_more
      ≡ false)
    ↔ (pages table 2 2 ≡ table)
pages_complete_example = pages_complete table 1 2 (omega arith) (omega arith)

-- Page 1 of 4 / 10 of a row.
get_offset_limit_bounds_example :
    (1 ≤ (get_offset_limit 10 (some (pos 10)) (some (pos 4))).limit)
    × ((get_offset_limit 10 (some (pos 10)) (some (pos 4))).limit ≤ 50 * (10 * 10))
get_offset_limit_bounds_example =
    get_offset_limit_bounds 10 (some (pos 10)) (some (pos 4)) (omega arith)

-- Page 2, and page 1.5 of ten rows.
get_offset_limit_tests :
    (get_offset_limit 1 (some (pos 2)) (some (pos 1000)) ≡ record { offset = 50; limit = 50 })
    × (get_offset_limit 2 (some (pos 3)) (some (pos 20)) ≡ record { offset = 20; limit = 40 })
unfolding get_offset_limit
get_offset_limit_tests = (refl, refl)
