-- ===== src/Traces/Sync/Complete/Loop.antt =====
-- The whole loop: what is stored when it has ended.
use mathlib.Core.Path.{subst}
use ucom_backend.Prelude.{
  ℕ, zero, suc, ◌≤◌, ◌<◌, ◌≡◌, ◌⊎◌, inl, inr, sym, ap, ◌∙◌, Bool, true, false, ◌&&◌, ◌==◌, Option,
  none, some, List, [], ◌∷◌, length, select, take, drop, All, arith, Bool-cases,
}
use ucom_backend.Prelude.Action.{run_cases}
use ucom_backend.Batch.{done}
use ucom_backend.Traces.State.{Trace, Row, Attempt}
use ucom_backend.Traces.Sync.{
  Table, process_batch, sync_rounds, add_counts, Totals, same_block, wanted, last_of,
  fetch_traces_from_mongo_db,
}
use ucom_backend.Traces.Sync.Inserts.{Holds, insert_many_traces-keeps, sync_rounds_keeps}
use ucom_backend.Traces.Sync.Complete.{IsStored, process_batch_lem, All-take-drop}
use ucom_backend.Traces.Sync.Complete.Order.{
  All-take, All-zip, All-selected, IsSorted, select-IsSorted, last_of-take, last_of_none,
  length-take-select, take_cases, same_block_eq,
}

pub All-map :
    {A : Type 0} (P Q : A → Type 0) (xs : List A) → ((x : A) → P x → Q x) → All P xs → All Q xs
All-map P Q [] f h = tt
All-map P Q (x ∷ xs) f (p, h) = (f x p, All-map P Q xs f h)

pair_eq : {A B : Type 0} {a c : A} {b d : B} → ◌≡◌ {A = A × B} (a, b) (c, d) → (a ≡ c) × (b ≡ d)
pair_eq h = (ap (λ p. p.0) h, ap (λ p. p.1) h)

stored_of : {A B : Type 0} → (A → B) → A ⊎ ⊥ → B
stored_of f (inl a) = f a
stored_of f (inr e) = absurd e

abbrev pub of_block : ℕ → Trace → Bool
of_block n t = t.irreversible && t.blocknum == n

wanted_of_later :
    (b : Option ℕ) (n : ℕ) (t : Trace)
    → wanted b t ≡ true
    → n ≤ t.blocknum
    → wanted (some n) t ≡ true
wanted_of_later none n t h k = ground arith
wanted_of_later (some m) n t h k = ground arith

module _ (process_one : Trace → Attempt (Option Row)) (docs : List Trace) (limit : ℕ)
    (positive : 1 ≤ limit) (sorted : IsSorted docs)
    (few : (n : ℕ) → length (select (of_block n) docs) < limit) where
  abbrev fetched : Option ℕ → List Trace
  fetched b = fetch_traces_from_mongo_db process_one docs limit b

  -- All that is wanted from the last block number on was fetched, if that number came back.
  nothing_left :
      (b : Option ℕ) → last_of (fetched b) ≡ b → All (λ t. ⊥) (drop limit (select (wanted b) docs))
  nothing_left none h = last_of_none (λ t. ⊥) limit _ positive h
  nothing_left (some n) h = elim (take_cases (λ t. ⊥) limit (select (wanted (some n)) docs)) [
    | inl full ↦
        let ws = select (wanted (some n)) docs in
        let order = last_of-take limit n ws (select-IsSorted (wanted (some n)) docs sorted) h in
        let here =
          All-zip (λ t. t.blocknum ≤ n) (λ t. wanted (some n) t ≡ true) (λ t. of_block n t ≡ true)
            (take limit ws) (λ t p q. ground arith) order.0
            (All-take (λ t. wanted (some n) t ≡ true) limit ws
              (All-selected (wanted (some n)) docs)) in
        absurd (
          omega
            (arith, few n, full, length-take-select (wanted (some n)) (of_block n) limit docs here))
    | inr rest ↦ rest
  ]

  kept :
      (fuel : ℕ) (b : Option ℕ) (totals : Totals) (mid : Table) (t : Trace)
      → IsStored process_one docs mid t
      → IsStored process_one docs (sync_rounds process_one docs fuel limit false b totals mid).1 t
  kept fuel b totals mid t h r e =
      sync_rounds_keeps (λ s. Holds s r) (λ rs s. insert_many_traces-keeps rs s r) process_one docs
        fuel limit false b totals mid (h r e)

  -- What was not fetched is wanted in the next round.
  wanted_next :
      (b next : Option ℕ)
      → next ≡ last_of (fetched b)
      → All (λ t. wanted b t ≡ true → wanted next t ≡ true) (drop limit (select (wanted b) docs))
  wanted_next b none h = last_of_none _ limit _ positive (sym h)
  wanted_next b (some n) h =
      let ws = select (wanted b) docs in
      let order = last_of-take limit n ws (select-IsSorted (wanted b) docs sorted) (sym h) in
      All-map (λ t. n ≤ t.blocknum) (λ t. wanted b t ≡ true → wanted (some n) t ≡ true)
        (drop limit ws) (λ t k w. wanted_of_later b n t w k) order.1

  pub sync_rounds_complete :
      (fuel : ℕ) (b : Option ℕ) (totals : Totals) (table after : Table) (c : Totals)
      → sync_rounds process_one docs fuel limit false b totals table ≡ (done c, after)
      → All (λ t. wanted b t ≡ true → IsStored process_one docs after t) docs
  unfolding sync_rounds
  sync_rounds_complete zero b totals table after c h = cc
  sync_rounds_complete (suc fuel) b totals table after c h =
      elim (run_cases (process_batch process_one docs limit b table)) [
        | inl (r, mid, e) ↦
            let (last, stored) = process_batch_lem process_one docs limit b table mid r e in
            elim (Bool-cases (same_block r.last_block_number b)) [
              | inl stop ↦
                  let (done_eq, after_eq) = pair_eq (rw (e, stop) at h) in
                  All-map _ (λ t. wanted b t ≡ true → IsStored process_one docs after t) docs
                    (λ t f w. stored_of (subst (λ s. IsStored process_one docs s t) after_eq) (f w))
                    (All-take-drop (IsStored process_one docs mid) (λ t. ⊥) (wanted b) limit docs
                      stored (nothing_left b (sym last ∙ same_block_eq _ b stop)))
              | inr go ↦
                  let h' = rw (e, go) at h in
                  let ih =
                    sync_rounds_complete fuel r.last_block_number (add_counts totals r) mid after c
                      h' in
                  let split =
                    All-take-drop (IsStored process_one docs mid)
                      (λ t. wanted b t ≡ true → wanted r.last_block_number t ≡ true) (wanted b)
                      limit docs stored (wanted_next b r.last_block_number last) in
                  All-zip _ _ (λ t. wanted b t ≡ true → IsStored process_one docs after t) docs
                    (λ t s next w. elim (s w) [
                      | inl x ↦
                          subst (λ u. IsStored process_one docs u t) (ap (λ p. p.1) h')
                            (kept fuel r.last_block_number (add_counts totals r) mid t x)
                      | inr x ↦ next (x w)
                    ])
                    split ih
            ]
        | inr (f, mid, e) ↦ cc (rw e at h)
      ]
