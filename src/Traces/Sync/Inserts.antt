-- ===== src/Traces/Sync/Inserts.antt =====
-- What an insertion does to the table of traces.
use text.Mathlib.TextEquality.{eq_iff}
use mathlib.Core.Path.{subst}
use ucom_backend.Prelude.{
  if◌then◌else◌, ℕ, zero, suc, ◌≡◌, inl, inr, Bool, true, false, Option, List, [], ◌∷◌, any, All,
  arith, Bool-cases,
}
use ucom_backend.Prelude.Action.{Result, ok, err}
use ucom_backend.Traces.State.{Trace, Row, Attempt, unable, malformed, type_error, ◌>>=◌}
use ucom_backend.Traces.State as State
use ucom_backend.Traces.Sync.{
  Table, same_parts, insert_many_traces, store, process_traces, batch_of, process_batch,
  sync_rounds, after_batch, BatchResult, Totals, same_block, add_counts,
}

pub same_parts_self : (r : Row) → same_parts r r ≡ true
same_parts_self r = ground (arith, eq_iff r.tr_id r.tr_id, eq_iff r.block_id r.block_id)

-- The unique index.
abbrev pub IsUnique : Table → Type 0
IsUnique [] = Unit
IsUnique (r ∷ rs) = (any (same_parts r) rs ≡ false) × IsUnique rs

abbrev pub Holds : Table → Row → Type 0
Holds table r = any (same_parts r) table ≡ true

pub insert_many_traces-IsUnique :
    (rs : List Row) (table : Table) → IsUnique table → IsUnique (insert_many_traces rs table).1
unfolding insert_many_traces
insert_many_traces-IsUnique [] table u = u
insert_many_traces-IsUnique (r ∷ rs) table u = elim (Bool-cases (any (same_parts r) table)) [
  | inl e ↦ rw e (insert_many_traces-IsUnique rs table u)
  | inr e ↦ rw e (insert_many_traces-IsUnique rs (r ∷ table) (e, u))
]

pub insert_many_traces-keeps :
    (rs : List Row) (table : Table) (k : Row)
    → Holds table k
    → Holds (insert_many_traces rs table).1 k
unfolding insert_many_traces
insert_many_traces-keeps [] table k h = h
insert_many_traces-keeps (r ∷ rs) table k h = elim (Bool-cases (any (same_parts r) table)) [
  | inl e ↦ rw e (insert_many_traces-keeps rs table k h)
  | inr e ↦ rw e (insert_many_traces-keeps rs (r ∷ table) k (ground arith))
]

-- The table after one row.
abbrev with_row : Row → Table → Table
with_row r table = if any (same_parts r) table then table else r ∷ table

with_row-Holds : (r : Row) (table : Table) → Holds (with_row r table) r
with_row-Holds r table = elim (Bool-cases (any (same_parts r) table)) [
  | inl e ↦ rw e e
  | inr e ↦ rw e (ground (arith, same_parts_self r))
]

insert_many_traces-cons :
    (r : Row) (rs : List Row) (table : Table)
    → (insert_many_traces rs (with_row r table)).1 ≡ (insert_many_traces (r ∷ rs) table).1
unfolding insert_many_traces
insert_many_traces-cons r rs table = elim (Bool-cases (any (same_parts r) table)) [
  | inl e ↦ rw e
  | inr e ↦ rw e
]

pub insert_many_traces-Holds :
    (rs : List Row) (table : Table) → All (Holds (insert_many_traces rs table).1) rs
insert_many_traces-Holds [] table = tt
insert_many_traces-Holds (r ∷ rs) table =
    let after = with_row r table in
    subst (λ u. All (Holds u) (r ∷ rs)) (insert_many_traces-cons r rs table)
      (
        insert_many_traces-keeps rs after r (with_row-Holds r table),
        insert_many_traces-Holds rs after,
      )

-- A property of tables that every insertion keeps.
module _ (P : Table → Type 0)
    (keep : (rs : List Row) (table : Table) → P table → P (insert_many_traces rs table).1) where
  store_keeps :
      (last : Option ℕ) (n : ℕ) (rows : Attempt (List Row)) (table : Table)
      → P table
      → P (store last n rows table).1
  store_keeps last n (State.ok []) table p = p
  store_keeps last n (State.ok (r ∷ rs)) table p = keep (r ∷ rs) table p
  store_keeps last n unable table p = p
  store_keeps last n (malformed e) table p = p
  store_keeps last n (type_error e) table p = p

  module _ (process_one : Trace → Attempt (Option Row)) (docs : List Trace) where
    batch_of_keeps :
        (ts : List Trace) (table : Table) → P table → P (batch_of process_one docs ts table).1
    batch_of_keeps [] table p = p
    batch_of_keeps (t ∷ ts) table p =
        store_keeps _ _ (process_traces process_one docs (t ∷ ts)) table p

    pub process_batch_keeps :
        (limit : ℕ) (b : Option ℕ) (table : Table)
        → P table
        → P (process_batch process_one docs limit b table).1
    unfolding process_batch
    process_batch_keeps limit b table p = batch_of_keeps _ table p

-- A property of tables that every batch keeps.
module _ (P : Table → Type 0) (process_one : Trace → Attempt (Option Row)) (docs : List Trace)
    (limit : ℕ)
    (step : (b : Option ℕ) (table : Table)
      → P table
      → P (process_batch process_one docs limit b table).1) where
  pub sync_rounds_keep :
      (fuel : ℕ) (one : Bool) (b : Option ℕ) (totals : Totals) (table : Table)
      → P table
      → P (sync_rounds process_one docs fuel limit one b totals table).1
  unfolding sync_rounds
  sync_rounds_keep zero one b totals table p = p
  sync_rounds_keep (suc fuel) one b totals table p =
      after (process_batch process_one docs limit b table) (step b table p)
        (sync_rounds_keep fuel false)
    where
      after :
          (r : Result BatchResult × Table)
          → P r.1
          → ((c : Option ℕ) (t : Totals) (s : Table)
              → P s
              → P (sync_rounds process_one docs fuel limit false c t s).1)
          → P
              (after_batch one b totals
                (λ c t s. sync_rounds process_one docs fuel limit one c t s)
                r).1
      after (err e, s) q rest = q
      after (ok r, s) q rest = elim (Bool-cases (same_block r.last_block_number b)) [
        | inl stop ↦ rw stop q
        | inr go ↦ elim (Bool-cases one) [
          | inl stop ↦ rw (go, stop) q
          | inr more ↦ rw (go, more) (rest r.last_block_number (add_counts totals r) s q)
        ]
      ]

pub sync_rounds_keeps :
    (P : Table → Type 0)
    → ((rs : List Row) (table : Table) → P table → P (insert_many_traces rs table).1)
    → (process_one : Trace → Attempt (Option Row)) (docs : List Trace) (fuel limit : ℕ) (one : Bool)
      (b : Option ℕ) (totals : Totals) (table : Table)
    → P table
    → P (sync_rounds process_one docs fuel limit one b totals table).1
sync_rounds_keeps P keep process_one docs fuel limit =
    sync_rounds_keep P process_one docs limit (process_batch_keeps P keep process_one docs limit)
      fuel
