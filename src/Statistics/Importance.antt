-- ===== src/Statistics/Importance.antt =====
-- The events of importance: processEntitiesImportance of service/entity-job-executor-service.js, with
-- findManyPostsEntityEvents of posts-repository.js and findManyOrgsEntityEvents of
-- organizations-repository.js. The table is a parameter, in the order of ids. A rate has ten
-- decimal places, and is an integer in ten-billionths. The groups and the JSON of an event,
-- which are the same for all, are left out.
pub mod Laws
use ucom_backend.Prelude.{
  ℕ, zero, suc, String, Bool, true, Option, none, some, List, [], ◌∷◌, ◌++◌, map, ◌==◌,
  if◌then◌else◌, ltb, length, select, take,
}
use ucom_backend.Prelude.Int.{ℤ}
use ucom_backend.Batch.{Outcome, done, failed, out_of_fuel}

-- A row of posts or of organizations.
pub record Model : Type 0 where
  pub id : ℕ
  pub blockchain_id : String
  pub current_rate : ℤ

-- A row of entity_event_param.
pub record Event : Type 0 where
  pub entity_id : ℕ
  pub entity_blockchain_id : String
  pub result_value : ℤ
  pub entity_name : String
  pub event_type : ℕ

-- An item of fetchSet.
pub record FetchItem : Type 0 where
  pub rows : List Model
  pub entity_name : String
  pub event_type : ℕ

-- `if (lastId)`: an id that is 0 is none.
abbrev pub after_id : Option ℕ → Model → Bool
after_id none m = true
after_id (some zero) m = true
after_id (some (suc n)) m = ltb (suc n) m.id

-- findManyPostsEntityEvents and findManyOrgsEntityEvents
unfoldable pub find_many_entity_events : List Model → ℕ → Option ℕ → List Model
find_many_entity_events rows limit last_id = take limit (select (after_id last_id) rows)

abbrev pub event_of : FetchItem → Model → Event
event_of item m = record {
  entity_id = m.id;
  entity_blockchain_id = m.blockchain_id;
  result_value = m.current_rate;
  entity_name = item.entity_name;
  event_type = item.event_type;
}

-- getStatsModelFromDbModels
abbrev pub get_stats_model_from_db_models : FetchItem → List Model → List Event
get_stats_model_from_db_models item models = map (event_of item) models

abbrev pub last_id_of : List Model → Option ℕ
last_id_of [] = none
last_id_of (m ∷ []) = some m.id
last_id_of (m ∷ (n ∷ ms)) = last_id_of (n ∷ ms)

-- One pass of the loop: `rest` goes on from the last id, with the events.
abbrev pub after_models :
    FetchItem
    → ℕ
    → (Option ℕ → List Event → Outcome (List Event))
    → List Model
    → List Event
    → Outcome (List Event)
after_models item batch_size rest models events =
    if length models == 0
    then done events
    else (if ltb (length models) batch_size
        then done (events ++ get_stats_model_from_db_models item models)
        else rest (last_id_of models) (events ++ get_stats_model_from_db_models item models))

-- The `while` on fuel, from the fetch of its models on.
unfoldable pub importance_rounds : FetchItem → ℕ → ℕ → Option ℕ → List Event → Outcome (List Event)
importance_rounds item zero batch_size last_id events = out_of_fuel
importance_rounds item (suc fuel) batch_size last_id events =
    after_models item batch_size (λ n es. importance_rounds item fuel batch_size n es)
      (find_many_entity_events item.rows batch_size last_id) events

-- processEntitiesImportance, with the table of events; there is a round for each row and one more.
unfoldable pub process_entities_importance : FetchItem → ℕ → List Event → Outcome (List Event)
process_entities_importance item batch_size events =
    importance_rounds item (suc (length item.rows)) batch_size none events

abbrev pub next_items :
    Outcome (List Event) → (List Event → Outcome (List Event)) → Outcome (List Event)
next_items (done events) rest = rest events
next_items (failed e) rest = failed e
next_items out_of_fuel rest = out_of_fuel

-- The loop over fetchSet in processEntityEventParam.
unfoldable pub process_fetch_set : List FetchItem → ℕ → List Event → Outcome (List Event)
process_fetch_set [] batch_size events = done events
process_fetch_set (item ∷ items) batch_size events =
    next_items (process_entities_importance item batch_size events)
      (λ es. process_fetch_set items batch_size es)
