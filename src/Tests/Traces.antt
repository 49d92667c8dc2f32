-- ===== src/Tests/Traces.antt =====
-- Three traces of two blocks: a transfer, a vote and one that no processor knows.
use ucom_backend.Prelude.{
  ℕ, ◌<◌, String, ◌≡◌, ◌≢◌, ◌↔◌, refl, Bool, true, false, Option, some, List, [], ◌∷◌, length,
  select, All, arith,
}
use ucom_backend.Prelude.Int.{ℤ, pos}
use ucom_backend.Batch.{done, out_of_fuel}
use ucom_backend.Traces.State.{Value, str, strs, Fields, Act, Trace, Row, tokens_active, Attempt}
use ucom_backend.Traces.State as State
use ucom_backend.Traces.Processor.{
  Schema, TraceTypes, TracesProcessor, process_trace, find_actions_data_by_rules,
}
use ucom_backend.Traces.Processors.{trace_processors}
use ucom_backend.Traces.Chain.{process_chain}
use ucom_backend.Traces.Chain.Laws.{Recorded, process_chain_iff}
use ucom_backend.Traces.Sync.{
  Totals, process_one_trace, process_sync, insert_many_traces, process_batch, sync_rounds, wanted,
  start,
}
use ucom_backend.Traces.Sync.Inserts.{IsUnique}
use ucom_backend.Traces.Sync.Added.{IsMade, IsGrown, process_sync_adds}
use ucom_backend.Traces.Sync.Complete.{IsStored}
use ucom_backend.Traces.Sync.Complete.Loop.{of_block}
use ucom_backend.Traces.Sync.Ends.{process_sync_ends}
use ucom_backend.Traces.Sync.Liveness.{process_sync_stores_all}

abbrev types : TraceTypes
types = record {
  transfer = 10;
  vote_for_bp = 20;
  vote_for_calculator_nodes = 25;
  claim_emission = 30;
  stake_resources = 40;
  unstaking_request = 50;
  stake_with_unstake = 60;
  buy_ram_bytes = 70;
  sell_ram = 80;
  upvote_content = 100;
}

abbrev every_schema : Schema → Fields → Bool
every_schema schema fields = true

abbrev five : String → ℤ
five s = pos 5

abbrev act : String → Fields → Act
act name fields = record { name = name; act_data = fields; inline_traces = [] }

abbrev trace : ℕ → String → List Act → Trace
trace block trx acts = record {
  account = "alice";
  blocknum = block;
  blocktime = "now";
  blockid = "b";
  trxid = trx;
  irreversible = true;
  actions = acts;
}

abbrev transfer : Trace
transfer = trace 5 "t1" (
    act "transfer" (("from", str "alice") ∷ ("to", str "bob") ∷ ("quantity", str "0.0005 UOS") ∷ [])
    ∷ [])

abbrev unknown : Trace
unknown = trace 5 "t2" (act "other" [] ∷ [])

abbrev vote : Trace
vote =
    trace 6 "t3"
      (act "voteproducer" (("voter", str "bob") ∷ ("producers", strs ("p" ∷ [])) ∷ []) ∷ [])

abbrev processors : List TracesProcessor
processors = trace_processors five types every_schema

abbrev transfer_row : Row
transfer_row = record {
  tr_type = 10;
  block_number = 5;
  tr_id = "t1";
  block_id = "b";
  tr_processed_data = tokens_active (pos 5);
  account_name_from = some (str "alice");
  account_name_to = some (str "bob");
  memo = some (str "");
}

transfer_test : process_chain every_schema processors transfer ≡ State.ok (some transfer_row)
unfolding process_chain process_trace find_actions_data_by_rules
transfer_test = refl

process_chain_iff_example :
    (process_chain every_schema processors transfer ≡ State.ok (some transfer_row))
    ↔ Recorded every_schema processors transfer transfer_row
process_chain_iff_example = process_chain_iff every_schema five types transfer transfer_row

abbrev process_one : Trace → Attempt (Option Row)
process_one = process_one_trace (λ a. true) every_schema processors

abbrev docs : List Trace
docs = transfer ∷ unknown ∷ vote ∷ []

sync_test :
    (process_sync process_one docs 3 false true []).0
    ≡ done (record { total_processed_counter = 2; total_skipped_counter = 1 })
unfolding process_sync sync_rounds process_batch insert_many_traces process_one_trace process_chain
    process_trace find_actions_data_by_rules
sync_test = refl

process_sync_adds_example :
    let after = (process_sync process_one docs 3 false false (transfer_row ∷ [])).1 in
    IsGrown (IsMade process_one docs) (transfer_row ∷ []) after × IsUnique after
process_sync_adds_example =
    process_sync_adds process_one docs 3 false false (transfer_row ∷ []) (refl, tt)

process_sync_ends_example :
    (process_sync process_one docs 3 false false (transfer_row ∷ [])).0 ≢ out_of_fuel
process_sync_ends_example =
    process_sync_ends process_one docs 3 (omega arith) false false (transfer_row ∷ [])

answers : All (λ t. (o : Option Row) × (process_one t ≡ State.ok o)) docs
unfolding process_one_trace process_chain process_trace find_actions_data_by_rules
answers = ((_, refl), ((_, refl), ((_, refl), tt)))

few : (n : ℕ) → length (select (of_block n) docs) < 3
few n = ground arith

process_sync_stores_all_example :
    (totals : Totals) × (after : List Row) × (process_sync process_one docs 3 false true []
      ≡ (done totals, after))
    × All (λ t. wanted (start true []) t ≡ true → IsStored process_one docs after t) docs
process_sync_stores_all_example =
    process_sync_stores_all process_one docs answers 3 true [] (omega arith)
      ((omega arith, (omega arith, tt)), ((omega arith, tt), (tt, tt))) few
