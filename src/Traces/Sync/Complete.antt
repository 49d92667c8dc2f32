-- ===== src/Traces/Sync/Complete.antt =====
-- Which traces a batch has stored when it ends.
pub mod Loop
pub mod Order
use mathlib.Core.Path.{subst}
use ucom_backend.Prelude.{
  ℕ, zero, suc, ◌≤◌, ◌<◌, ◌≡◌, ◌⊎◌, inl, inr, refl, Bool, true, false, ◌&&◌, ◌==◌, Option, none,
  some, List, [], ◌∷◌, if◌then◌else◌, leb, length, any, select, take, drop, All, arith, Bool-cases,
}
use ucom_backend.Prelude.Action.{Result, ok, err}
use ucom_backend.Batch.{Outcome, done}
use ucom_backend.Traces.State.{
  Trace, Row, Attempt, unable, malformed, type_error, ◌>>=◌, bind-eq-ok,
}
use ucom_backend.Traces.State as State
use ucom_backend.Traces.Sync.{
  Table, insert_many_traces, store, process_traces, batch_of, process_batch, sync_rounds,
  process_sync, joined, after_batch, BatchResult, Totals, start, same_block, wanted, last_of,
  fetch_traces_from_mongo_db,
}
use ucom_backend.Traces.Sync.Inserts.{
  Holds, insert_many_traces-keeps, insert_many_traces-Holds, sync_rounds_keeps, process_batch_keeps,
}

-- What holds of the first k rows of a selection, or of the rest, holds of all that are selected.
module _ {A : Type 0} (P Q : A → Type 0) (w : A → Bool) where
  All-take-drop :
      (k : ℕ) (xs : List A)
      → All P (take k (select w xs))
      → All Q (drop k (select w xs))
      → All (λ x. w x ≡ true → P x ⊎ Q x) xs
  All-take-drop k [] p q = tt
  All-take-drop zero (x ∷ xs) p q = elim (Bool-cases (w x)) [
    | inl e ↦ let q' = rw e at q in (λ _. inr q'.0, All-take-drop zero xs tt q'.1)
    | inr e ↦ (λ f. cc, All-take-drop zero xs tt (rw e at q))
  ]
  All-take-drop (suc k) (x ∷ xs) p q = elim (Bool-cases (w x)) [
    | inl e ↦ let p' = rw e at p in (λ _. inl p'.0, All-take-drop k xs p'.1 (rw e at q))
    | inr e ↦ (λ f. cc, All-take-drop (suc k) xs (rw e at p) (rw e at q))
  ]

joined_rows :
    (P : Row → Type 0) (o : Option Row) (rows : List Row)
    → All P (joined o rows)
    → ((r : Row) → o ≡ some r → P r) × All P rows
joined_rows P none rows p = (λ r h. cc, p)
joined_rows P (some s) rows (q, p) = (λ r h. subst P (cc) q, p)

store_lem :
    (last : Option ℕ) (n : ℕ) (rows : Attempt (List Row)) (table after : Table) (r : BatchResult)
    → store last n rows table ≡ (ok r, after)
    → (r.last_block_number ≡ last) × (l : List Row) × (rows ≡ State.ok l) × All (Holds after) l
store_lem last n (State.ok []) table after r h = (ground arith, [], refl, tt)
store_lem last n (State.ok (s ∷ ss)) table after r h = (
  ground arith,
  s ∷ ss,
  refl,
  subst (λ u. All (Holds u) (s ∷ ss)) (ground arith) (insert_many_traces-Holds (s ∷ ss) table),
)
store_lem last n unable table after r h = cc
store_lem last n (malformed e) table after r h = cc
store_lem last n (type_error e) table after r h = cc

module _ (process_one : Trace → Attempt (Option Row)) (docs : List Trace) where
  -- The table holds the row that is made of the trace, if one is.
  abbrev pub IsStored : Table → Trace → Type 0
  IsStored table t = (r : Row) → process_one t ≡ State.ok (some r) → Holds table r

  processed_rows :
      (P : Row → Type 0) (ts : List Trace) (rows : List Row)
      → process_traces process_one docs ts ≡ State.ok rows
      → All P rows
      → All (λ t. (r : Row) → process_one t ≡ State.ok (some r) → P r) ts
  processed_rows P [] rows h p = tt
  processed_rows P (t ∷ ts) rows h p =
      let (o, e, rest) = bind-eq-ok (process_one t) _ h in
      let (rows', e', fin) = bind-eq-ok (process_traces process_one docs ts) _ rest in
      let (q, p') = joined_rows P o rows' (subst (All P) (ground arith) p) in
      ((λ r g. q r (cc)), processed_rows P ts rows' e' p')

  batch_of_lem :
      (ts : List Trace) (table after : Table) (r : BatchResult)
      → batch_of process_one docs ts table ≡ (ok r, after)
      → (r.last_block_number ≡ last_of ts) × All (IsStored after) ts
  batch_of_lem [] table after r h = (ground arith, tt)
  batch_of_lem (t ∷ ts) table after r h =
      let rows = process_traces process_one docs (t ∷ ts) in
      let (last, l, e, held) =
        store_lem (last_of (t ∷ ts)) (length (t ∷ ts)) rows table after r h in
      (last, processed_rows (Holds after) (t ∷ ts) l e held)

  -- A batch that ends stores every trace that was fetched.
  pub process_batch_lem :
      (limit : ℕ) (b : Option ℕ) (table after : Table) (r : BatchResult)
      → process_batch process_one docs limit b table ≡ (ok r, after)
      → (r.last_block_number ≡ last_of (fetch_traces_from_mongo_db process_one docs limit b))
        × All (IsStored after) (fetch_traces_from_mongo_db process_one docs limit b)
  unfolding process_batch
  process_batch_lem limit b table after r h = batch_of_lem _ table after r h
