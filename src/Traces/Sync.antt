-- ===== src/Traces/Sync.antt =====
-- service/blockchain-traces-sync-service.js, validator/traces-common-fields-validator.js and the
-- two writers of repository/irreversible-traces-repository.js: the traces of the blockchain's
-- database are read in batches by block number, and the rows made of them are inserted. The
-- collection of that database is a parameter, in the order of `sort({ blocknum: 1 })`.
pub mod Inserts
pub mod Added
pub mod Complete
pub mod Ends
pub mod Liveness
use text.Mathlib.Text.{◌==◌ as str_eq}
use ucom_backend.Prelude.{
  ℕ, zero, suc, ◌+◌, String, Bool, true, false, not, ◌&&◌, Option, none, some, List, [], ◌∷◌, ◌==◌,
  if◌then◌else◌, leb, length, any, select, take,
}
use ucom_backend.Prelude.Action.{Action, Result, ok, err, js_error}
use ucom_backend.Batch.{Outcome, done, failed, out_of_fuel}
use ucom_backend.Traces.State.{
  Fields, Act, Trace, Row, Attempt, unable, malformed, type_error, ◌>>=◌, text_length,
}
use ucom_backend.Traces.State as State
use ucom_backend.Traces.Processor.{Schema, TracesProcessor}
use ucom_backend.Traces.Chain.{process_chain}

abbrev pub Table : Type 0
Table = List Row

-- The unique index on block_number, tr_id and block_id.
abbrev pub same_parts : Row → Row → Bool
same_parts r s =
    r.block_number == s.block_number && (str_eq r.tr_id s.tr_id && str_eq r.block_id s.block_id)

-- `INSERT … ON CONFLICT DO NOTHING RETURNING tr_id`
unfoldable pub insert_many_traces : List Row → Table → List String × Table
insert_many_traces [] table = ([], table)
insert_many_traces (r ∷ rs) table =
    if any (same_parts r) table
    then insert_many_traces rs table
    else (let (ids, after) = insert_many_traces rs (r ∷ table) in (r.tr_id ∷ ids, after))

-- The greatest block number, or null for an empty table.
abbrev pub greater : ℕ → Option ℕ → ℕ
greater n none = n
greater n (some m) = if leb n m then m else n

unfoldable pub find_last_block_number : Table → Option ℕ
find_last_block_number [] = none
find_last_block_number (r ∷ rs) = some (greater r.block_number (find_last_block_number rs))

-- `_.difference(a, b)`
abbrev pub difference : List String → List String → List String
difference a b = select (λ x. not (any (str_eq x) b)) a

pub record BatchResult : Type 0 where
  pub last_block_number : Option ℕ
  pub skipped_count : ℕ
  pub inserted_count : ℕ

pub record Totals : Type 0 where
  pub total_processed_counter : ℕ
  pub total_skipped_counter : ℕ

abbrev pub last_of : List Trace → Option ℕ
last_of [] = none
last_of (t ∷ []) = some t.blocknum
last_of (t ∷ (u ∷ us)) = last_of (u ∷ us)

-- `===` between block numbers and null
abbrev pub same_block : Option ℕ → Option ℕ → Bool
same_block none none = true
same_block none (some m) = false
same_block (some n) none = false
same_block (some n) (some m) = n == m

-- The condition of fetchTracesFromMongoDb.
abbrev pub wanted : Option ℕ → Trace → Bool
wanted none t = t.irreversible
wanted (some n) t = t.irreversible && leb n t.blocknum

abbrev pub joined : Option Row → List Row → List Row
joined none rows = rows
joined (some r) rows = r ∷ rows

abbrev pub tr_ids : List Row → List String
tr_ids [] = []
tr_ids (r ∷ rs) = r.tr_id ∷ tr_ids rs

-- The end of processBatch for traces that are not empty: their last block number, how many they
-- are, and what the processors made of them.
abbrev pub store : Option ℕ → ℕ → Attempt (List Row) → Action Table BatchResult
store last n (State.ok []) table =
    (ok (record { last_block_number = last; skipped_count = n; inserted_count = 0 }), table)
store last n (State.ok (r ∷ rs)) table =
    let (inserted, after) = insert_many_traces (r ∷ rs) table in
    (
      ok (record {
        last_block_number = last;
        skipped_count = length (difference (tr_ids (r ∷ rs)) inserted);
        inserted_count = length inserted;
      }),
      after,
    )
store last n unable table = (err (js_error "unable to process"), table)
store last n (malformed e) table = (err (js_error e), table)
store last n (type_error e) table = (err (js_error e), table)

abbrev pub add_counts : Totals → BatchResult → Totals
add_counts t r = record {
  total_processed_counter = t.total_processed_counter + r.inserted_count;
  total_skipped_counter = t.total_skipped_counter + r.skipped_count;
}

-- What follows a batch: an error, the end of the loop, or the rest.
abbrev pub after_batch :
    Bool
    → Option ℕ
    → Totals
    → (Option ℕ → Totals → Table → Outcome Totals × Table)
    → Result BatchResult × Table
    → Outcome Totals × Table
after_batch only_one_batch greater_than totals rest (err e, table) = (failed e, table)
after_batch only_one_batch greater_than totals rest (ok r, table) =
    if same_block r.last_block_number greater_than
    then (done (add_counts totals r), table)
    else (if only_one_batch
        then (done (add_counts totals r), table)
        else rest r.last_block_number (add_counts totals r) table)

-- The block number to start from.
abbrev pub start : Bool → Table → Option ℕ
start resync table = if resync then none else find_last_block_number table

-- `process_one` is processOneTrace, and `docs` the collection.
module _ (process_one : Trace → Attempt (Option Row)) (docs : List Trace) where
  abbrev pub process_traces : List Trace → Attempt (List Row)
  process_traces [] = State.ok []
  process_traces (t ∷ ts) =
      process_one t >>= λ o. process_traces ts >>= λ rows. State.ok (joined o rows)

  abbrev pub fetch_traces_from_mongo_db : ℕ → Option ℕ → List Trace
  fetch_traces_from_mongo_db limit greater_than = take limit (select (wanted greater_than) docs)

  abbrev pub batch_of : List Trace → Action Table BatchResult
  batch_of [] table =
      (ok (record { last_block_number = none; skipped_count = 0; inserted_count = 0 }), table)
  batch_of (t ∷ ts) table =
      store (last_of (t ∷ ts)) (length (t ∷ ts)) (process_traces (t ∷ ts)) table

  unfoldable pub process_batch : ℕ → Option ℕ → Action Table BatchResult
  process_batch limit greater_than = batch_of (fetch_traces_from_mongo_db limit greater_than)

  -- The `do … while (true)` on fuel.
  unfoldable pub sync_rounds : ℕ → ℕ → Bool → Option ℕ → Totals → Table → Outcome Totals × Table
  sync_rounds zero limit only_one_batch greater_than totals table = (out_of_fuel, table)
  sync_rounds (suc fuel) limit only_one_batch greater_than totals table =
      after_batch only_one_batch greater_than totals
        (λ b t s. sync_rounds fuel limit only_one_batch b t s)
        (process_batch limit greater_than table)

  -- The fuel is two rounds more than there are traces.
  unfoldable pub process_sync : ℕ → Bool → Bool → Table → Outcome Totals × Table
  process_sync single_batch_size only_one_batch resync table =
      sync_rounds (suc (suc (length docs))) single_batch_size only_one_batch (start resync table)
        (record { total_processed_counter = 0; total_skipped_counter = 0 }) table

-- validateOneTrace. The fields of an action that the model leaves out are validated by `joi_action`.
module _ (joi_action : Act → Bool) where
  abbrev pub validate_one_trace : Trace → Bool
  validate_one_trace t =
      leb 1 (length t.actions)
      && (not (any (λ a. not (joi_action a)) t.actions)
          && (leb 1 (text_length t.account)
              && (leb (text_length t.account) 12
                  && (leb 1 (text_length t.blockid)
                      && (leb 1 t.blocknum
                          && (leb 1 (text_length t.blocktime) && leb 1 (text_length t.trxid)))))))

  -- processOneTrace
  unfoldable pub process_one_trace :
      (Schema → Fields → Bool) → List TracesProcessor → Trace → Attempt (Option Row)
  process_one_trace joi processors t =
      if validate_one_trace t then process_chain joi processors t else State.ok none
