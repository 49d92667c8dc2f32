-- ===== src/Traces/Processors.antt =====
-- The ten processors of lib/blockchain-traces/trace-processors/processors and their helpers, in
-- the order in which inversify/blockchain-traces.inversify.config.js binds them.
-- `tokens_amount` is the number that `+` reads in a text once ' UOS' is taken out, in
-- ten-thousandths, and the types of traces are those of the package ucom-libs-wallet.
pub mod Resources
pub mod Ram
use ucom_backend.Prelude.{String, Bool, List, [], ◌∷◌, ◌==◌, length, find}
use ucom_backend.Traces.Processors.Resources.{
  stake_resources_only_processor, unstake_resources_only_processor,
  stake_unstake_resources_processor,
}
use ucom_backend.Traces.Processors.Ram.{buy_ram_processor, sell_ram_processor}
use text.Mathlib.Text.{◌==◌ as str_eq}
use ucom_backend.Prelude.Int.{ℤ}
use ucom_backend.Traces.State.{
  Fields, field, InlineTrace, Act, tokens_active, emission, producers, calculators, content,
  Thumbnail, Attempt, ok, malformed, type_error, ◌>>=◌, ◌>>◌, guard, found_or,
}
use ucom_backend.Traces.Processor.{
  Rule, Found, FromToMemo, TracesProcessor, account_name, optional_text, required_text,
  optional_texts, allowed_number, first_of, from_account, once, transfer_schema, TraceTypes,
  get_tokens_amount_from_string,
}

module _ (tokens_amount : String → ℤ) (types : TraceTypes) where
  abbrev pub transfer_uos_tokens_trace_processor : TracesProcessor
  transfer_uos_tokens_trace_processor = record {
    trace_type = types.transfer;
    expected_actions_data = once "transfer" transfer_schema ∷ [];
    get_trace_thumbnail = λ found. first_of "transfer" found >>= λ action.
        get_tokens_amount_from_string tokens_amount (field "quantity" action.act_data) >>= λ amount.
        ok (tokens_active amount);
    get_from_to_and_memo = λ found. first_of "transfer" found >>= λ action. ok (record {
      account_from = field "from" action.act_data;
      account_to = field "to" action.act_data;
      memo = field "memo" action.act_data;
    });
  }

  abbrev pub vote_for_block_producers_trace_processor : TracesProcessor
  vote_for_block_producers_trace_processor = record {
    trace_type = types.vote_for_bp;
    expected_actions_data =
        once "voteproducer"
          (("voter", account_name) ∷ ("proxy", optional_text) ∷ ("producers", optional_texts) ∷ [])
        ∷ [];
    get_trace_thumbnail = λ found. first_of "voteproducer" found >>= λ action.
        ok (producers (field "producers" action.act_data));
    get_from_to_and_memo = from_account "voteproducer" "voter";
  }

  abbrev pub vote_for_calculators_trace_processor : TracesProcessor
  vote_for_calculators_trace_processor = record {
    trace_type = types.vote_for_calculator_nodes;
    expected_actions_data =
        once "votecalc" (("voter", account_name) ∷ ("calculators", optional_texts) ∷ []) ∷ [];
    get_trace_thumbnail = λ found. first_of "votecalc" found >>= λ action.
        ok (calculators (field "calculators" action.act_data));
    get_from_to_and_memo = from_account "votecalc" "voter";
  }

  -- The inline trace of a name, with the error where it is missing.
  abbrev pub inline_named : String → String → List InlineTrace → Attempt InlineTrace
  inline_named name message traces =
      found_or (malformed message) (find (λ item. str_eq item.name name) traces)

  abbrev pub claim_emission_thumbnail : Found → Attempt Thumbnail
  claim_emission_thumbnail found = first_of "withdrawal" found >>= λ action.
      guard (length action.inline_traces == 2) (malformed "inlineTraces.length !== 2")
      >> (inline_named "issue" "There is no issue trace" action.inline_traces >>= λ issue_trace.
          inline_named "transfer" "There is no transfer trace" action.inline_traces >>= λ transfer.
          get_tokens_amount_from_string tokens_amount (field "quantity" transfer.act_data)
          >>= λ amount. ok (emission amount))

  abbrev pub claim_emission_trace_processor : TracesProcessor
  claim_emission_trace_processor = record {
    trace_type = types.claim_emission;
    expected_actions_data = once "withdrawal" (("owner", account_name) ∷ []) ∷ [];
    get_trace_thumbnail = claim_emission_thumbnail;
    get_from_to_and_memo = from_account "withdrawal" "owner";
  }

  abbrev pub upvotes_trace_processor : TracesProcessor
  upvotes_trace_processor = record {
    trace_type = types.upvote_content;
    expected_actions_data =
        once "usertocont" (
          ("acc", account_name)
          ∷ ("content_id", required_text)
          ∷ ("interaction_type_id", allowed_number 2)
          ∷ [])
        ∷ [];
    get_trace_thumbnail = λ found. first_of "usertocont" found >>= λ action. ok (
        content (field "content_id" action.act_data) (field "interaction_type_id" action.act_data));
    get_from_to_and_memo = from_account "usertocont" "acc";
  }

  module _ (joi_validate : List (String × Rule) → Fields → Bool) where
    -- addTraceProcessors
    abbrev pub trace_processors : List TracesProcessor
    trace_processors =
        transfer_uos_tokens_trace_processor
        ∷ vote_for_block_producers_trace_processor
        ∷ vote_for_calculators_trace_processor
        ∷ claim_emission_trace_processor
        ∷ stake_resources_only_processor tokens_amount types
        ∷ unstake_resources_only_processor tokens_amount types
        ∷ stake_unstake_resources_processor tokens_amount types
        ∷ buy_ram_processor joi_validate tokens_amount types
        ∷ sell_ram_processor joi_validate tokens_amount types
        ∷ upvotes_trace_processor
        ∷ []
