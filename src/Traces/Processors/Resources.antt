-- ===== src/Traces/Processors/Resources.antt =====
-- Staking and unstaking CPU and NET: processors/stake-resources-only-processor.js,
-- unstake-resources-only-processor.js, stake-unstake-resources-processor.js and
-- helpers/stake-unstake-helper.js.
use ucom_backend.Prelude.{String, Bool, false, not, ◌&&◌, ◌||◌, List, [], ◌∷◌, ◌==◌, if◌then◌else◌}
use ucom_backend.Prelude.Int.{ℤ, pos, negsuc}
use ucom_backend.Traces.State.{
  field, Act, Thumbnail, resources, Attempt, ok, malformed, type_error, ◌>>=◌, ◌>>◌, guard,
  found_or,
}
use ucom_backend.Traces.Processor.{
  Schema, Found, TracesProcessor, account_name, quantity, required_number, first_of, from_account,
  once, TraceTypes, get_tokens_amount_from_string,
}

abbrev pub get_delegate_bw_validation_schema : Schema
get_delegate_bw_validation_schema =
    ("from", account_name)
    ∷ ("receiver", account_name)
    ∷ ("stake_net_quantity", quantity)
    ∷ ("stake_cpu_quantity", quantity)
    ∷ ("transfer", required_number)
    ∷ []

abbrev pub get_undelegate_bw_validation_schema : Schema
get_undelegate_bw_validation_schema =
    ("from", account_name)
    ∷ ("receiver", account_name)
    ∷ ("unstake_net_quantity", quantity)
    ∷ ("unstake_cpu_quantity", quantity)
    ∷ []

abbrev pub is_zero : ℤ → Bool
is_zero (pos n) = n == 0
is_zero (negsuc n) = false

-- What the loop over the actions has found.
pub record Quantities : Type 0 where
  pub cpu : ℤ
  pub net : ℤ

-- A quantity that is not zero is taken, if there was none before.
abbrev pub take_quantity : ℤ → ℤ → String → Attempt ℤ
take_quantity given old message =
    if is_zero given then ok old else if is_zero old then ok given else malformed message

module _ (tokens_amount : String → ℤ) where
  abbrev pub one_action : String → String → Act → Quantities → Attempt Quantities
  one_action cpu_key net_key action q =
      get_tokens_amount_from_string tokens_amount (field cpu_key action.act_data) >>= λ given_cpu.
      get_tokens_amount_from_string tokens_amount (field net_key action.act_data) >>= λ given_net.
      take_quantity given_cpu q.cpu "There is more than one stake cpu action inside a trace"
      >>= λ cpu.
          take_quantity given_net q.net "There is more than one stake net action inside a trace"
          >>= λ net. ok (record { cpu = cpu; net = net })

  -- The `for` over the actions, with the fields for CPU and NET.
  abbrev pub sum_actions : String → String → List Act → Quantities → Attempt Quantities
  sum_actions cpu_key net_key [] q = ok q
  sum_actions cpu_key net_key (action ∷ rest) q =
      one_action cpu_key net_key action q >>= λ r. sum_actions cpu_key net_key rest r

  abbrev pub not_both_zero : Quantities → Attempt (Unit {0})
  not_both_zero q =
      guard (not (is_zero q.cpu && is_zero q.net))
        (malformed "Both CPU and NET quantities are zero but at least one of them must be > 0")

  abbrev pub quantities_of : String → String → String → Found → Attempt Quantities
  quantities_of name cpu_key net_key found =
      found_or (type_error "manyActions is not iterable") (field name found) >>= λ many_actions.
      sum_actions cpu_key net_key many_actions (record { cpu = pos 0; net = pos 0 }) >>= λ q.
      not_both_zero q >> ok q

  -- One resource of one action.
  abbrev pub only_one_quantity : String → String → Act → Attempt Quantities
  only_one_quantity net_key cpu_key action =
      get_tokens_amount_from_string tokens_amount (field net_key action.act_data) >>= λ net.
      get_tokens_amount_from_string tokens_amount (field cpu_key action.act_data) >>= λ cpu.
      guard (is_zero net || is_zero cpu) (
        malformed
          "Both net and cpu is unstaked in one action. Expected that only one resource per action.")
      >> ok (record { cpu = cpu; net = net })

  abbrev pub stake_unstake_thumbnail : Found → Attempt Thumbnail
  stake_unstake_thumbnail found = first_of "undelegatebw" found >>= λ unstake_action.
      only_one_quantity "unstake_net_quantity" "unstake_cpu_quantity" unstake_action >>= λ unstaked.
      first_of "delegatebw" found >>= λ stake_action.
      only_one_quantity "stake_net_quantity" "stake_cpu_quantity" stake_action >>= λ staked. ok (
        resources (record { self_delegated = staked.cpu; unstaking_request = unstaked.cpu })
          (record { self_delegated = staked.net; unstaking_request = unstaked.net }))

  module _ (types : TraceTypes) where
    abbrev pub stake_resources_only_processor : TracesProcessor
    stake_resources_only_processor = record {
      trace_type = types.stake_resources;
      expected_actions_data =
          record (once "delegatebw" get_delegate_bw_validation_schema) { max_number_of_actions = 2 }
          ∷ [];
      get_trace_thumbnail = λ found.
          quantities_of "delegatebw" "stake_cpu_quantity" "stake_net_quantity" found >>= λ q. ok (
            resources (record { self_delegated = q.cpu; unstaking_request = pos 0 })
              (record { self_delegated = q.net; unstaking_request = pos 0 }));
      get_from_to_and_memo = from_account "delegatebw" "from";
    }

    abbrev pub unstake_resources_only_processor : TracesProcessor
    unstake_resources_only_processor = record {
      trace_type = types.unstaking_request;
      expected_actions_data =
          record (once "undelegatebw" get_undelegate_bw_validation_schema) {
            max_number_of_actions = 2;
          }
          ∷ [];
      get_trace_thumbnail = λ found.
          quantities_of "undelegatebw" "unstake_cpu_quantity" "unstake_net_quantity" found >>= λ q.
          ok (
            resources (record { self_delegated = pos 0; unstaking_request = q.cpu })
              (record { self_delegated = pos 0; unstaking_request = q.net }));
      get_from_to_and_memo = from_account "undelegatebw" "from";
    }

    abbrev pub stake_unstake_resources_processor : TracesProcessor
    stake_unstake_resources_processor = record {
      trace_type = types.stake_with_unstake;
      expected_actions_data =
          once "delegatebw" get_delegate_bw_validation_schema
          ∷ once "undelegatebw" get_undelegate_bw_validation_schema
          ∷ [];
      get_trace_thumbnail = stake_unstake_thumbnail;
      get_from_to_and_memo = from_account "undelegatebw" "from";
    }
