-- ===== src/Batch.antt =====
-- lib/common/helper/batch-processing-helper.js: the loop that reads a table in batches. The four
-- functions that the loop is given are parameters, and so are the rows of a response. What the
-- loop writes to the console is left out.
pub mod Laws
use ucom_backend.Prelude.{
  ℕ, zero, suc, ◌+◌, Bool, true, false, ◌&&◌, ◌==◌, if◌then◌else◌, ltb, Option, none, some,
}
use ucom_backend.Prelude.Action.{
  Action, Result, ok, err, Error, app_error, js_error, pure, throw, throw_if, ◌>>=◌, ◌>>◌,
}

-- What processingFunction gives back, and what processWithBatch does.
pub record Counters : Type 0 where
  pub processed : ℕ
  pub skipped : ℕ

abbrev pub add : Counters → Counters → Counters
add a b = record { processed = a.processed + b.processed; skipped = a.skipped + b.skipped }

-- The end of a call: `out_of_fuel` stands for a loop that goes on.
pub data Outcome (A : Type 0) : Type 0 where
  done : A → Outcome A
  failed : Error → Outcome A
  out_of_fuel : Outcome A

module _ {S : Type 0} where
  abbrev pub counted : Result Counters × S → Result (Option Counters) × S
  counted (ok c, t) = (ok (some c), t)
  counted (err e, t) = (err e, t)

  -- What follows a round: the end of the loop, an error, or the rest.
  abbrev pub after_round :
      Counters
      → (Counters → S → Outcome Counters × S)
      → Result (Option Counters) × S
      → Outcome Counters × S
  after_round totals rest (ok none, t) = (done totals, t)
  after_round totals rest (ok (some c), t) = rest c t
  after_round totals rest (err e, t) = (failed e, t)

module _ {S : Type 0} {R : Type 0} where
  module _ (fetch : ℕ → ℕ → Action S R) (counting : R → ℕ) (breaking : R → Bool)
      (processing : R → Action S Counters) where
    module _ (limit : ℕ) (error_if_no_first_batch_data : Bool) (overflow_limit : ℕ) where
      -- One round: `none` for `break`, or the counters of the round.
      abbrev pub process_response : R → Action S (Option Counters)
      process_response response s =
          if breaking response then (ok none, s) else counted (processing response s)

      unfoldable pub one_round : ℕ → ℕ → Action S (Option Counters)
      one_round offset counter = do
        response ← fetch offset limit
        throw_if (counting response == 0 && (counter == 0 && error_if_no_first_batch_data))
            (app_error "There is no data for the first batch")
        process_response response

      -- The `do … while (true)`, with the offset, the counter of rounds and the totals.
      unfoldable pub rounds : ℕ → ℕ → ℕ → Counters → S → Outcome Counters × S
      rounds zero offset counter totals s = (out_of_fuel, s)
      rounds (suc fuel) offset counter totals s =
          after_round totals
            (λ c t.
              if ltb overflow_limit (counter + 1)
              then (failed (app_error "Batch cycle limiter is triggered"), t)
              else rounds fuel (offset + limit) (counter + 1) (add totals c) t)
            (one_round offset counter s)

      unfoldable pub process_with_batch : ℕ → S → Outcome Counters × S
      process_with_batch basic_offset =
          rounds (suc overflow_limit) basic_offset 0 (record { processed = 0; skipped = 0 })
