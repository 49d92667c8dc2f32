-- ===== src/Traces/Processor.antt =====
-- The part that all processors share: trace-processors/abstract-traces-processor.js and
-- common-traces-processor.js. The schemas are those that the processors declare; whether the
-- package joi accepts data under a schema is a parameter.
use text.Mathlib.Text.{◌==◌ as str_eq}
use ucom_backend.Prelude.Int.{ℤ}
use ucom_backend.Prelude.{
  ℕ, String, Bool, not, ◌&&◌, Option, none, some, List, [], ◌∷◌, leb, length, select, any,
}
use ucom_backend.Traces.State.{
  Value, str, Fields, field, Act, Trace, Thumbnail, Row, Attempt, ok, unable, malformed, type_error,
  ◌>>=◌, ◌>>◌, guard, found_or,
}

-- The rules of the schemas: joi.string().required().min(1).max(12);
-- joi.string().required().regex(UOS_REGEX); joi.string().required(); joi.string().empty('');
-- joi.number().required(); joi.number().required().allow(n); joi.array().items(joi.string()).
pub data Rule : Type 0 where
  account_name quantity required_text optional_text required_number optional_texts : Rule
  allowed_number : ℕ → Rule

abbrev pub Schema : Type 0
Schema = List (String × Rule)

pub record Expected : Type 0 where
  pub act_name : String
  pub validation_schema : Schema
  pub min_number_of_actions : ℕ
  pub max_number_of_actions : ℕ

pub record FromToMemo : Type 0 where
  pub account_from : Option Value
  pub account_to : Option Value
  pub memo : Option Value

-- The object from names of actions to the actions found.
abbrev pub Found : Type 0
Found = List (String × List Act)

pub record TracesProcessor : Type 0 where
  pub trace_type : ℕ
  pub expected_actions_data : List Expected
  pub get_trace_thumbnail : Found → Attempt Thumbnail
  pub get_from_to_and_memo : Found → Attempt FromToMemo

abbrev pub is_expected : List Expected → String → Bool
is_expected es name = any (λ e. str_eq e.act_name name) es

abbrev pub all_act_names_allowed : List Expected → List Act → Bool
all_act_names_allowed es acts = not (any (λ a. not (is_expected es a.name)) acts)

abbrev pub named : String → List Act → List Act
named name acts = select (λ a. str_eq a.name name) acts

-- `actNameToActionDataArray[actName][0]`, of which a field is read at once
abbrev pub head_or : List Act → Attempt Act
head_or [] = type_error "Cannot read property 'act_data' of undefined"
head_or (a ∷ as') = ok a

abbrev pub first_of : String → Found → Attempt Act
first_of name found =
    found_or (type_error "Cannot read property '0' of undefined") (field name found) >>= head_or

-- The default `memo = ''`, for a memo that is undefined.
abbrev pub memo_or_empty : Option Value → Option Value
memo_or_empty none = some (str "")
memo_or_empty (some memo) = some memo

-- getTraceToInsertToDb
abbrev pub get_trace_to_insert_to_db : ℕ → Thumbnail → Trace → FromToMemo → Row
get_trace_to_insert_to_db trace_type thumbnail t p = record {
  tr_type = trace_type;
  block_number = t.blocknum;
  tr_id = t.trxid;
  block_id = t.blockid;
  tr_processed_data = thumbnail;
  account_name_from = p.account_from;
  account_name_to = p.account_to;
  memo = memo_or_empty p.memo;
}

module _ (joi_validate : Schema → Fields → Bool) where
  abbrev pub validate_actions : Schema → List Act → Attempt (Unit {0})
  validate_actions schema [] = ok tt
  validate_actions schema (a ∷ as') =
      guard (joi_validate schema a.act_data) (malformed "the data of an action")
      >> validate_actions schema as'

  unfoldable pub find_actions_data_by_rules : Expected → Trace → Attempt (List Act)
  find_actions_data_by_rules e t =
      let target = named e.act_name t.actions in
      guard
        (leb e.min_number_of_actions (length target) && leb (length target) e.max_number_of_actions)
        unable
      >> validate_actions e.validation_schema target
      >> ok target

  -- The loop over the expected actions.
  abbrev pub find_all : List Expected → Trace → Attempt Found
  find_all [] t = ok []
  find_all (e ∷ es) t = find_actions_data_by_rules e t >>= λ acts.
      find_all es t >>= λ rest. ok ((e.act_name, acts) ∷ rest)

  unfoldable pub process_trace : TracesProcessor → Trace → Attempt Row
  process_trace p t =
      guard (all_act_names_allowed p.expected_actions_data t.actions) unable
      >> (find_all p.expected_actions_data t >>= λ found.
          p.get_trace_thumbnail found >>= λ thumbnail. p.get_from_to_and_memo found >>= λ accounts.
          ok (get_trace_to_insert_to_db p.trace_type thumbnail t accounts))

-- BlockchainTrTraces of the package ucom-libs-wallet.
pub record TraceTypes : Type 0 where
  pub transfer : ℕ
  pub vote_for_bp : ℕ
  pub vote_for_calculator_nodes : ℕ
  pub claim_emission : ℕ
  pub stake_resources : ℕ
  pub unstaking_request : ℕ
  pub stake_with_unstake : ℕ
  pub buy_ram_bytes : ℕ
  pub sell_ram : ℕ
  pub upvote_content : ℕ

-- Exactly one action of the name.
abbrev pub once : String → Schema → Expected
once name schema = record {
  act_name = name;
  validation_schema = schema;
  min_number_of_actions = 1;
  max_number_of_actions = 1;
}

-- `from` in the field of the first action of the name, no `to` and an empty memo
abbrev pub from_account : String → String → Found → Attempt FromToMemo
from_account name key found = first_of name found >>= λ action.
    ok
      (record { account_from = field key action.act_data; account_to = none; memo = some (str "") })

-- transfer-uos-helper.js, getValidationSchema
abbrev pub transfer_schema : Schema
transfer_schema =
    ("from", account_name)
    ∷ ("to", account_name)
    ∷ ("quantity", quantity)
    ∷ ("memo", optional_text)
    ∷ []

-- balances-helper.js, getTokensAmountFromString: a value that is no text has no `replace`.
abbrev pub get_tokens_amount_from_string : (String → ℤ) → Option Value → Attempt ℤ
get_tokens_amount_from_string tokens_amount (some (str s)) = ok (tokens_amount s)
get_tokens_amount_from_string tokens_amount _ = type_error "stringValue.replace is not a function"
