-- ===== src/Statistics/Delta.antt =====
-- How much a statistic has changed in a window of time: prepareDeltaDataToProcess,
-- calculateDeltaValue and createImportanceDeltaEvents of service/entity-calculation-service.js, for a
-- statistic of integers (isFloat is false). An object whose keys are the ids of entities is
-- iterated in their order, and is a list in that order. The rows of current parameters that follow
-- the deltas, and the texts and groups of the events, are left out.
pub mod Prepared
pub mod Laws
use ucom_backend.Prelude.{
  ℕ, String, Bool, true, false, Option, none, some, List, [], ◌∷◌, map, ◌==◌, if◌then◌else◌, ltb,
  any,
}
use ucom_backend.Prelude.Action.{Error, js_error, Result, ok, err}
use ucom_backend.Prelude.Int.{ℤ, pos, negsuc, ◌-ℤ◌}

-- A row of entity_event_param, with the field of its JSON that is processed.
pub record Stat : Type 0 where
  pub entity_id : ℕ
  pub entity_blockchain_id : String
  pub value : ℤ

pub record ToProcess : Type 0 where
  pub entity_id : ℕ
  pub entity_blockchain_id : String
  pub first_value : ℤ
  pub last_value : ℤ
  pub delta_value : ℤ

pub record DeltaEvent : Type 0 where
  pub entity_id : ℕ
  pub entity_blockchain_id : String
  pub result_value : ℤ

abbrev pub bind : {A B : Type 0} → Result A → (A → Result B) → Result B
bind (ok a) f = f a
bind (err e) f = err e

abbrev pub prepared : Stat → ToProcess
prepared c = record {
  entity_id = c.entity_id;
  entity_blockchain_id = c.entity_blockchain_id;
  first_value = pos 0;
  last_value = c.value;
  delta_value = c.value;
}

abbrev pub has_entity : ℕ → List ToProcess → Bool
has_entity id ts = any (λ t. t.entity_id == id) ts

-- A new key of the object.
abbrev pub insert_entity : ToProcess → List ToProcess → List ToProcess
insert_entity t [] = t ∷ []
insert_entity t (u ∷ us) =
    if ltb u.entity_id t.entity_id then u ∷ insert_entity t us else t ∷ (u ∷ us)

abbrev pub prepare_rows : List Stat → List ToProcess → Result (List ToProcess)
prepare_rows [] ts = ok ts
prepare_rows (c ∷ cs) ts =
    let rest = prepare_rows cs (insert_entity (prepared c) ts) in
    if has_entity c.entity_id ts
    then err (js_error "There is toProcess already. There are duplications in requests")
    else rest

unfoldable pub prepare_delta_data_to_process : List Stat → Result (List ToProcess)
prepare_delta_data_to_process [] = err (js_error "LastData array is empty")
prepare_delta_data_to_process (c ∷ cs) = prepare_rows (c ∷ cs) []

abbrev pub is_negative : ℤ → Bool
is_negative (pos n) = false
is_negative (negsuc n) = true

-- The change of `related`.
abbrev pub with_first_value : Stat → ToProcess → ToProcess
with_first_value c t = record t { first_value = c.value; delta_value = t.last_value -ℤ c.value }

abbrev pub set_first_value : Stat → List ToProcess → List ToProcess
set_first_value c [] = []
set_first_value c (t ∷ ts) =
    (if t.entity_id == c.entity_id then with_first_value c t else t) ∷ set_first_value c ts

abbrev pub calculate_rows : List Stat → List ToProcess → Result (List ToProcess)
calculate_rows [] ts = ok ts
calculate_rows (c ∷ cs) ts =
    let skipped = calculate_rows cs ts in
    let changed = calculate_rows cs (set_first_value c ts) in
    if has_entity c.entity_id ts
    then (if is_negative c.value
        then err (js_error "Importance value is negative for entity")
        else changed)
    else skipped

unfoldable pub calculate_delta_value : List ToProcess → List Stat → Result (List ToProcess)
calculate_delta_value ts [] = err (js_error "lastOfGivenDateData is empty")
calculate_delta_value ts (c ∷ cs) = calculate_rows (c ∷ cs) ts

abbrev pub delta_event : ToProcess → DeltaEvent
delta_event t = record {
  entity_id = t.entity_id;
  entity_blockchain_id = t.entity_blockchain_id;
  result_value = t.delta_value;
}

-- createImportanceDeltaEvents
abbrev pub create_importance_delta_events : List ToProcess → List DeltaEvent
create_importance_delta_events ts = map delta_event ts

-- The calculations of processOneToOne, with the events that it inserts.
unfoldable pub process_one_to_one : List Stat → List Stat → Result (List DeltaEvent)
process_one_to_one last_data last_of_given_date_data =
    bind (prepare_delta_data_to_process last_data) (λ ts.
      bind (calculate_delta_value ts last_of_given_date_data)
        (λ us. ok (create_importance_delta_events us)))
