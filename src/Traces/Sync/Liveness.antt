-- ===== src/Traces/Sync/Liveness.antt =====
-- A synchronisation stores what it is meant to store.
use ucom_backend.Prelude.{
  ℕ, zero, suc, ◌≤◌, ◌<◌, ◌≡◌, ◌⊎◌, inl, inr, refl, Bool, true, false, Option, List, [], ◌∷◌,
  length, select, take, All, All-select, Bool-cases,
}
use ucom_backend.Prelude.Action.{ok}
use ucom_backend.Batch.{Outcome, done, failed, out_of_fuel}
use ucom_backend.Traces.State.{Trace, Row, Attempt, ◌>>=◌}
use ucom_backend.Traces.State as State
use ucom_backend.Traces.Sync.{
  Table, process_traces, store, batch_of, process_batch, sync_rounds, process_sync, add_counts,
  BatchResult, Totals, start, same_block, wanted, last_of, joined,
}
use ucom_backend.Traces.Sync.Complete.{IsStored}
use ucom_backend.Traces.Sync.Complete.Order.{IsSorted, All-take}
use ucom_backend.Traces.Sync.Complete.Loop.{of_block, sync_rounds_complete}
use ucom_backend.Traces.Sync.Ends.{process_sync_ends}

Outcome-cases :
    {A S : Type 0} (r : Outcome A × S)
    → ((a : A) × (s : S) × (r ≡ (done a, s)))
      ⊎ (((e : _) × (s : S) × (r ≡ (failed e, s))) ⊎ (r.0 ≡ out_of_fuel))
Outcome-cases (done a, s) = inl (a, s, refl)
Outcome-cases (failed e, s) = inr (inl (e, s, refl))
Outcome-cases (out_of_fuel, s) = inr (inr refl)

module _ (process_one : Trace → Attempt (Option Row)) where
  -- The processors know the trace or leave it.
  abbrev pub Answers : Trace → Type 0
  Answers t = (o : Option Row) × (process_one t ≡ State.ok o)

  process_traces-Answers :
      (docs ts : List Trace)
      → All Answers ts
      → (rows : List Row) × (process_traces process_one docs ts ≡ State.ok rows)
  process_traces-Answers docs [] a = ([], refl)
  process_traces-Answers docs (t ∷ ts) ((o, e), a) =
      let (rows, f) = process_traces-Answers docs ts a in (joined o rows, rw (e, f) refl)

  store_answers :
      (last : Option ℕ) (n : ℕ) (rows : List Row) (table : Table)
      → (r : BatchResult) × (after : Table) × (store last n (State.ok rows) table ≡ (ok r, after))
  store_answers last n [] table = (_, _, refl)
  store_answers last n (r ∷ rs) table = (_, _, refl)

  module _ (docs : List Trace) (answers : All Answers docs) where
    batch_of-Answers :
        (ts : List Trace) (table : Table)
        → All Answers ts
        → (r : BatchResult) × (after : Table) × (batch_of process_one docs ts table ≡ (ok r, after))
    batch_of-Answers [] table a = (_, _, refl)
    batch_of-Answers (t ∷ ts) table a =
        let (rows, e) = process_traces-Answers docs (t ∷ ts) a in
        let (r, after, f) = store_answers (last_of (t ∷ ts)) (length (t ∷ ts)) rows table in
        (r, after, rw e f)

    rounds_answer :
        (fuel limit : ℕ) (b : Option ℕ) (totals : Totals) (table : Table) (e : _) (s : Table)
        → sync_rounds process_one docs fuel limit false b totals table ≡ (failed e, s)
        → ⊥
    unfolding sync_rounds process_batch
    rounds_answer zero limit b totals table e s h = cc
    rounds_answer (suc fuel) limit b totals table e s h =
        let (r, mid, f) =
          batch_of-Answers (take limit (select (wanted b) docs)) table
            (All-take Answers limit _ (All-select Answers (wanted b) docs answers)) in
        elim (Bool-cases (same_block r.last_block_number b)) [
          | inl stop ↦ cc (rw (f, stop) at h)
          | inr go ↦
              rounds_answer fuel limit r.last_block_number (add_counts totals r) mid e s
                (rw (f, go) at h)
        ]

    -- A synchronisation that is not held to one batch ends with totals, and then the table holds
    -- the row of every irreversible trace from the block on where it started, or of every one at
    -- all on a resync. It takes a collection in the order of the blocks, processors that throw no
    -- other errors than those of their own classes, and fewer traces in each block than a batch
    -- may have.
    pub process_sync_stores_all :
        (limit : ℕ) (resync : Bool) (table : Table)
        → 1 ≤ limit
        → IsSorted docs
        → ((n : ℕ) → length (select (of_block n) docs) < limit)
        → (totals : Totals) × (after : Table) × (process_sync process_one docs limit false resync
              table
            ≡ (done totals, after))
          × All (λ t. wanted (start resync table) t ≡ true → IsStored process_one docs after t) docs
    unfolding process_sync
    process_sync_stores_all limit resync table positive sorted few =
        elim (Outcome-cases (process_sync process_one docs limit false resync table)) [
          | inl (totals, after, h) ↦ (
            totals,
            after,
            h,
            sync_rounds_complete process_one docs limit positive sorted few _ _ _ table after totals
                h,
          )
          | inr (inl (e, s, h)) ↦ absurd (rounds_answer _ limit _ _ table e s h)
          | inr (inr h) ↦
              absurd (process_sync_ends process_one docs limit positive false resync table h)
        ]
