-- ===== src/Traces/Processors/Ram.antt =====
-- Buying and selling RAM: processors/buy-ram-processor.js, sell-ram-processor.js and
-- helpers/buy-sell-ram-helper.js. The kilobytes are in ten-thousandths: `toFixed(4)` rounds, and
-- the tokens have four places already.
use Prim.Native.Nat.{◌*◌, ◌/◌}
use text.Mathlib.Text.{◌==◌ as str_eq}
use ucom_backend.Prelude.{
  ℕ, ◌+◌, String, Bool, false, ◌&&◌, List, [], ◌∷◌, Option, some, ◌==◌, length, find,
}
use ucom_backend.Prelude.Int.{ℤ, pos, negsuc, ◌+ℤ◌, ◌-ℤ◌}
use ucom_backend.Traces.State.{
  Value, str, num, Fields, field, InlineTrace, Act, Thumbnail, ram, Attempt, ok, malformed,
  type_error, ◌>>=◌, ◌>>◌, guard, found_or,
}
use ucom_backend.Traces.Processor.{
  Schema, TracesProcessor, account_name, required_number, first_of, from_account, once,
  transfer_schema, TraceTypes, get_tokens_amount_from_string,
}

pub record PriceAndFee : Type 0 where
  pub ram_price : ℤ
  pub ram_fee : ℤ

abbrev pub is_text : String → Option Value → Bool
is_text s (some (str v)) = str_eq v s
is_text s _ = false

-- `+(bytes / 1024).toFixed(4)`, in ten-thousandths
abbrev pub kilobytes : ℕ → ℕ
kilobytes bytes = (bytes * 10000 + 512) / 1024

-- The same of a number in ten-thousandths, half away from zero
abbrev pub kilobytes_of_read : ℤ → ℤ
kilobytes_of_read (pos n) = pos ((n + 512) / 1024)
kilobytes_of_read (negsuc n) = pos 0 -ℤ pos ((n + 513) / 1024)

-- getThumbnail. By the schema `bytes` is a number or a text that reads as one: a text without
-- ' UOS', which `tokens_amount` reads as `/` does.
abbrev pub get_thumbnail : (String → ℤ) → Option Value → ℤ → Attempt Thumbnail
get_thumbnail number_of (some (num bytes)) tokens_amount =
    ok (ram (pos (kilobytes bytes)) tokens_amount)
get_thumbnail number_of (some (str bytes)) tokens_amount =
    ok (ram (kilobytes_of_read (number_of bytes)) tokens_amount)
get_thumbnail number_of _ tokens_amount = type_error "bytes is not a number"

module _ (joi_validate : Schema → Fields → Bool) (tokens_amount : String → ℤ) where
  -- validateTraceActDataOrMalformed, and the amount
  abbrev pub transferred : InlineTrace → Attempt ℤ
  transferred trace =
      guard (joi_validate transfer_schema trace.act_data) (malformed "the data of a transfer")
      >> get_tokens_amount_from_string tokens_amount (field "quantity" trace.act_data)

  abbrev pub get_ram_price : String → List InlineTrace → Attempt ℤ
  get_ram_price memo traces =
      found_or (malformed "There is no ramPriceTrace") (
        find (λ item. str_eq item.name "transfer" && is_text memo (field "memo" item.act_data))
          traces)
      >>= transferred

  abbrev pub get_ram_fee : List InlineTrace → Attempt ℤ
  get_ram_fee traces =
      found_or (malformed "There is no ramFeeTrace") (
        find
          (λ item. str_eq item.name "transfer" && is_text "eosio.ramfee" (field "to" item.act_data))
          traces)
      >>= transferred

  unfoldable pub get_ram_price_and_fee : String → Act → Attempt PriceAndFee
  get_ram_price_and_fee memo action =
      guard (length action.inline_traces == 2) (malformed "inlineTraces.length !== 2")
      >> (get_ram_price memo action.inline_traces >>= λ price.
          get_ram_fee action.inline_traces >>= λ fee.
          ok (record { ram_price = price; ram_fee = fee }))

  module _ (types : TraceTypes) where
    abbrev pub buy_ram_processor : TracesProcessor
    buy_ram_processor = record {
      trace_type = types.buy_ram_bytes;
      expected_actions_data =
          once "buyrambytes"
            (("payer", account_name) ∷ ("receiver", account_name) ∷ ("bytes", required_number) ∷ [])
          ∷ [];
      get_trace_thumbnail = λ found. first_of "buyrambytes" found >>= λ action.
          get_ram_price_and_fee "buy ram" action >>= λ p.
          get_thumbnail tokens_amount (field "bytes" action.act_data) (p.ram_price +ℤ p.ram_fee);
      get_from_to_and_memo = from_account "buyrambytes" "payer";
    }

    abbrev pub sell_ram_processor : TracesProcessor
    sell_ram_processor = record {
      trace_type = types.sell_ram;
      expected_actions_data =
          once "sellram" (("account", account_name) ∷ ("bytes", required_number) ∷ []) ∷ [];
      get_trace_thumbnail = λ found. first_of "sellram" found >>= λ action.
          get_ram_price_and_fee "sell ram" action >>= λ p.
          get_thumbnail tokens_amount (field "bytes" action.act_data) (p.ram_price -ℤ p.ram_fee);
      get_from_to_and_memo = from_account "sellram" "account";
    }
