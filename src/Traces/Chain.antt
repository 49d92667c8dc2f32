-- ===== src/Traces/Chain.antt =====
-- service/blockchain-traces-processor-chain.js: the processors are tried in order, and the first
-- that does not refuse the trace makes the row. What is logged of a malformed trace is left out.
pub mod Laws
use ucom_backend.Prelude.{Bool, Option, none, some, List, [], ◌∷◌}
use ucom_backend.Traces.State.{Fields, Trace, Row, Attempt, ok, unable, malformed, type_error}
use ucom_backend.Traces.Processor.{Schema, TracesProcessor, process_trace}

-- The answer of a processor, and what the processors after it give.
abbrev pub or_continue : Attempt Row → Attempt (Option Row) → Attempt (Option Row)
or_continue (ok row) rest = ok (some row)
or_continue unable rest = rest
or_continue (malformed e) rest = rest
or_continue (type_error e) rest = type_error e

unfoldable pub process_chain :
    (Schema → Fields → Bool) → List TracesProcessor → Trace → Attempt (Option Row)
process_chain joi [] t = ok none
process_chain joi (p ∷ ps) t = or_continue (process_trace joi p t) (process_chain joi ps t)
