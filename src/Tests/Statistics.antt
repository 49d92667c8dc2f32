-- ===== src/Tests/Statistics.antt =====
-- Two posts and an organization, and the change of a statistic of two entities.
use ucom_backend.Prelude.{ℕ, ◌≡◌, refl, some, List, [], ◌∷◌, ◌++◌, All, length, arith}
use ucom_backend.Prelude.Action.{ok}
use ucom_backend.Prelude.Int.{pos, negsuc, ◌-ℤ◌}
use ucom_backend.Batch.{done}
use ucom_backend.Statistics.Importance.{Model, Event, FetchItem, process_fetch_set}
use ucom_backend.Statistics.Importance.Laws.{IsSorted, all_events, process_fetch_set_lem}
use ucom_backend.Statistics.Delta.{
  Stat, DeltaEvent, process_one_to_one, prepare_delta_data_to_process, calculate_delta_value,
}
use ucom_backend.Statistics.Delta.Laws.{find_event, delta_of, process_one_to_one_lem}

abbrev model : ℕ → Model
model id = record { id = id; blockchain_id = "id"; current_rate = pos 7 }

abbrev posts : FetchItem
posts = record {
  rows = model 1 ∷ (model 4 ∷ (model 9 ∷ []));
  entity_name = "posts";
  event_type = 1;
}

abbrev orgs : FetchItem
orgs = record { rows = model 2 ∷ []; entity_name = "org"; event_type = 1 }

abbrev no_events : List Event
no_events = []

posts-IsSorted : IsSorted posts.rows
posts-IsSorted = (
  omega arith,
  (omega arith, (omega arith, tt)),
  (omega arith, (omega arith, tt), (omega arith, tt, tt)),
)

orgs-IsSorted : IsSorted orgs.rows
orgs-IsSorted = (omega arith, tt, tt)

process_fetch_set_lem_example :
    process_fetch_set (posts ∷ (orgs ∷ [])) 2 no_events
    ≡ done (no_events ++ all_events (posts ∷ (orgs ∷ [])))
process_fetch_set_lem_example =
    process_fetch_set_lem (posts ∷ (orgs ∷ [])) 2 no_events (omega arith)
      (posts-IsSorted, (orgs-IsSorted, tt))

abbrev stat : ℕ → ℕ → Stat
stat id n = record { entity_id = id; entity_blockchain_id = "id"; value = pos n }

process_one_to_one_lem_example :
    (events : List DeltaEvent) × (process_one_to_one
        (stat 5 3 ∷ (stat 2 9 ∷ []))
        (stat 5 4 ∷ (stat 8 1 ∷ []))
      ≡ ok events)
    × All
        (λ x. find_event x.entity_id events ≡ some (delta_of (stat 5 4 ∷ (stat 8 1 ∷ [])) x))
        (stat 5 3 ∷ (stat 2 9 ∷ []))
    × (length events ≡ length (stat 5 3 ∷ (stat 2 9 ∷ [])))
process_one_to_one_lem_example =
    process_one_to_one_lem (stat 5 3) (stat 5 4) (stat 2 9 ∷ []) (stat 8 1 ∷ []) (refl, (refl, tt))
      (refl, (refl, tt))

delta_test :
    process_one_to_one (stat 5 3 ∷ (stat 2 9 ∷ [])) (stat 5 4 ∷ (stat 8 1 ∷ []))
    ≡ ok (
        record { entity_id = 2; entity_blockchain_id = "id"; result_value = pos 9 }
        ∷ (record { entity_id = 5; entity_blockchain_id = "id"; result_value = negsuc 0 } ∷ []))
unfolding process_one_to_one prepare_delta_data_to_process calculate_delta_value ◌-ℤ◌
delta_test = refl
