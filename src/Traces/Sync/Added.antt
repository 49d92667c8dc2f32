-- ===== src/Traces/Sync/Added.antt =====
-- What a synchronisation adds to the table of traces.
use ucom_backend.Prelude.{
  ℕ, ◌≡◌, ◌⊎◌, inl, inr, refl, Bool, true, Option, none, some, List, [], ◌∷◌, ◌++◌, any, select,
  All, All-append, arith, Bool-cases,
}
use mathlib.Core.List.{append_assoc}
use ucom_backend.Traces.State.{Trace, Row, Attempt, unable, malformed, type_error, ◌>>=◌}
use ucom_backend.Traces.State as State
use ucom_backend.Traces.Sync.{
  Table, same_parts, insert_many_traces, store, process_traces, batch_of, process_batch,
  process_sync, joined, wanted,
}
use ucom_backend.Traces.Sync.Inserts.{
  IsUnique, insert_many_traces-IsUnique, sync_rounds_keep, sync_rounds_keeps,
}
use ucom_backend.Traces.Sync.Complete.Order.{All-take}

abbrev pub IsOf : Trace → List Trace → Type 0
IsOf d [] = ⊥
IsOf d (t ∷ ts) = (d ≡ t) ⊎ IsOf d ts

-- A row that was made of an irreversible trace of the collection.
pub record IsMade (process_one : Trace → Attempt (Option Row)) (docs : List Trace) (r : Row)
    : Type 0 where
  pub doc : Trace
  pub of_docs : IsOf doc docs
  pub irreversible : doc.irreversible ≡ true
  pub made : process_one doc ≡ State.ok (some r)

module _ (P : Row → Type 0) where
  -- The rows of a table stay as they are, and those added have a property.
  abbrev pub IsGrown : Table → Table → Type 0
  IsGrown before after = (added : List Row) × (after ≡ (added ++ before)) × All P added

  IsGrown-further :
      (before : Table) (r : Row) (after : Table)
      → P r
      → IsGrown (r ∷ before) after
      → IsGrown before after
  IsGrown-further before r after p (added, e, h) = (
    added ++ (r ∷ []),
    ground (arith, append_assoc added (r ∷ []) before, e),
    All-append P added (r ∷ []) h (p, tt),
  )

  IsGrown-again : (t u v : Table) → IsGrown t u → IsGrown u v → IsGrown t v
  IsGrown-again t u v (xs, e, h) (ys, f, k) =
      (ys ++ xs, ground (arith, append_assoc ys xs t, e, f), All-append P ys xs k h)

  insert_many_traces-IsGrown :
      (rs : List Row) (table : Table) → All P rs → IsGrown table (insert_many_traces rs table).1
  unfolding insert_many_traces
  insert_many_traces-IsGrown [] table h = ([], refl, tt)
  insert_many_traces-IsGrown (r ∷ rs) table (p, h) = elim (Bool-cases (any (same_parts r) table)) [
    | inl e ↦ rw e (insert_many_traces-IsGrown rs table h)
    | inr e ↦ rw e (
        IsGrown-further table r (insert_many_traces rs (r ∷ table)).1 p
          (insert_many_traces-IsGrown rs (r ∷ table) h))
  ]

  HaveAll : Attempt (List Row) → Type 0
  HaveAll (State.ok rows) = All P rows
  HaveAll unable = Unit
  HaveAll (malformed e) = Unit
  HaveAll (type_error e) = Unit

  joined-HaveAll :
      (o : Attempt (Option Row)) (rest : Attempt (List Row))
      → ((r : Row) → o ≡ State.ok (some r) → P r)
      → HaveAll rest
      → HaveAll (o >>= λ x. rest >>= λ rows. State.ok (joined x rows))
  unfolding HaveAll
  joined-HaveAll (State.ok none) (State.ok rows) f h = h
  joined-HaveAll (State.ok (some r)) (State.ok rows) f h = (f r refl, h)
  joined-HaveAll (State.ok o) unable f h = tt
  joined-HaveAll (State.ok o) (malformed e) f h = tt
  joined-HaveAll (State.ok o) (type_error e) f h = tt
  joined-HaveAll unable rest f h = tt
  joined-HaveAll (malformed e) rest f h = tt
  joined-HaveAll (type_error e) rest f h = tt

  store-IsGrown :
      (last : Option ℕ) (n : ℕ) (rows : Attempt (List Row)) (table : Table)
      → HaveAll rows
      → IsGrown table (store last n rows table).1
  unfolding HaveAll
  store-IsGrown last n (State.ok []) table h = ([], refl, tt)
  store-IsGrown last n (State.ok (r ∷ rs)) table h = insert_many_traces-IsGrown (r ∷ rs) table h
  store-IsGrown last n unable table h = ([], refl, tt)
  store-IsGrown last n (malformed e) table h = ([], refl, tt)
  store-IsGrown last n (type_error e) table h = ([], refl, tt)

module _ (process_one : Trace → Attempt (Option Row)) (docs : List Trace) where
  -- A trace of the collection that is irreversible.
  abbrev IsSource : Trace → Type 0
  IsSource d = IsOf d docs × (d.irreversible ≡ true)

  process_traces-HaveAll :
      (ts : List Trace)
      → All IsSource ts
      → HaveAll (IsMade process_one docs) (process_traces process_one docs ts)
  unfolding HaveAll
  process_traces-HaveAll [] h = tt
  process_traces-HaveAll (t ∷ ts) ((of_docs, irreversible), h) =
      joined-HaveAll (IsMade process_one docs) (process_one t) (process_traces process_one docs ts)
        (λ r e. record { doc = t; of_docs = of_docs; irreversible = irreversible; made = e })
        (process_traces-HaveAll ts h)

  batch_of-IsGrown :
      (ts : List Trace) (table : Table)
      → All IsSource ts
      → IsGrown (IsMade process_one docs) table (batch_of process_one docs ts table).1
  batch_of-IsGrown [] table h = ([], refl, tt)
  batch_of-IsGrown (t ∷ ts) table h =
      store-IsGrown (IsMade process_one docs) _ _ (process_traces process_one docs (t ∷ ts)) table
        (process_traces-HaveAll (t ∷ ts) h)

  wanted_irreversible : (b : Option ℕ) (t : Trace) → wanted b t ≡ true → t.irreversible ≡ true
  wanted_irreversible none t h = h
  wanted_irreversible (some n) t h = ground arith

  selected :
      (b : Option ℕ) (ts : List Trace)
      → ((d : Trace) → IsOf d ts → IsOf d docs)
      → All IsSource (select (wanted b) ts)
  selected b [] sub = tt
  selected b (t ∷ ts) sub =
      let rest = selected b ts (λ d m. sub d (inr m)) in
      elim (Bool-cases (wanted b t)) [
        | inl e ↦ rw e ((sub t (inl refl), wanted_irreversible b t e), rest)
        | inr e ↦ rw e rest
      ]

  process_batch-IsGrown :
      (limit : ℕ) (b : Option ℕ) (table : Table)
      → IsGrown (IsMade process_one docs) table (process_batch process_one docs limit b table).1
  unfolding process_batch
  process_batch-IsGrown limit b table =
      batch_of-IsGrown _ table
        (All-take IsSource limit (select (wanted b) docs) (selected b docs (λ d m. m)))

-- However a synchronisation ends, an error included, it only adds rows: those that were there stay
-- as they are, each added one is what the processors made of an irreversible trace of the
-- collection, and no two rows have the same block number, transaction and block if none had.
pub process_sync_adds :
    (process_one : Trace → Attempt (Option Row)) (docs : List Trace) (limit : ℕ)
    (only_one_batch resync : Bool) (table : Table)
    → IsUnique table
    → let after = (process_sync process_one docs limit only_one_batch resync table).1 in
      IsGrown (IsMade process_one docs) table after × IsUnique after
unfolding process_sync
process_sync_adds process_one docs limit one resync table u = (
  sync_rounds_keep (IsGrown (IsMade process_one docs) table) process_one docs limit
      (λ b t g.
        IsGrown-again (IsMade process_one docs) table t _ g
          (process_batch-IsGrown process_one docs limit b t))
      _ one _ _ table ([], refl, tt),
  sync_rounds_keeps IsUnique insert_many_traces-IsUnique process_one docs _ limit one _ _ table u,
)
