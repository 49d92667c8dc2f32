-- ===== src/Traces/Sync/Ends.antt =====
-- The loop of batches ends: the block number rises with every round but the last two.
use ucom_backend.Prelude.{
  ℕ, zero, suc, ◌≤◌, ◌<◌, ◌≡◌, ◌≢◌, inl, inr, refl, sym, ◌∙◌, Bool, true, false, ◌&&◌, ◌==◌, Option,
  none, some, List, [], ◌∷◌, ltb, length, any, select, take, arith, Bool-cases,
}
use ucom_backend.Prelude.Action.{run_cases}
use ucom_backend.Batch.{out_of_fuel}
use ucom_backend.Traces.State.{Trace, Row, Attempt}
use ucom_backend.Traces.Sync.{
  Table, process_batch, sync_rounds, process_sync, add_counts, Totals, start, same_block, wanted,
  last_of, fetch_traces_from_mongo_db,
}
use ucom_backend.Traces.Sync.Complete.{process_batch_lem}
use ucom_backend.Traces.Sync.Complete.Order.{last_of_cons, last_of-ne-none}

-- The blocks that a round has not reached.
abbrev above : Option ℕ → Trace → Bool
above none t = true
above (some n) t = ltb n t.blocknum

-- A selection that misses one is smaller.
length-select-lt :
    {A : Type 0} (p q : A → Bool) (xs : List A)
    → ((x : A) → p x ≡ true → q x ≡ true)
    → length (select p xs) ≤ length (select q xs)
length-select-lt p q [] f = omega arith
length-select-lt p q (x ∷ xs) f = ground (arith, f x, length-select-lt p q xs f)

length-select-lt_of_any :
    {A : Type 0} (p q r : A → Bool) (xs : List A)
    → ((x : A) → p x ≡ true → q x ≡ true)
    → ((x : A) → r x ≡ true → (p x ≡ false) × (q x ≡ true))
    → any r xs ≡ true
    → length (select p xs) < length (select q xs)
length-select-lt_of_any p q r [] f g h = cc
length-select-lt_of_any p q r (x ∷ xs) f g h = elim (Bool-cases (r x)) [
  | inl e ↦ let (no_p, is_q) = g x e in rw (no_p, is_q) (omega (arith, length-select-lt p q xs f))
  | inr e ↦ let ih = length-select-lt_of_any p q r xs f g (rw e at h) in ground (arith, f x)
]

length-select-le : {A : Type 0} (p : A → Bool) (xs : List A) → length (select p xs) ≤ length xs
length-select-le p [] = omega arith
length-select-le p (x ∷ xs) = ground (arith, length-select-le p xs)

-- The last block number of a fetched batch is that of a wanted trace.
any_of_last :
    (w : Trace → Bool) (k n : ℕ) (ts : List Trace)
    → last_of (take k (select w ts)) ≡ some n
    → any (λ t. w t && t.blocknum == n) ts ≡ true
any_of_last w zero n [] h = cc
any_of_last w zero n (t ∷ ts) h = cc
any_of_last w (suc k) n [] h = cc
any_of_last w (suc k) n (t ∷ ts) h = elim (Bool-cases (w t)) [
  | inl e ↦ elim (last_of_cons t (take k (select w ts)) n (rw e at h)) [
    | inl (_, same) ↦ ground arith
    | inr g ↦ let ih = any_of_last w k n ts g in ground arith
  ]
  | inr e ↦ rw e (any_of_last w (suc k) n ts (rw e at h))
]

last_of_wanted :
    (w : Trace → Bool) (k : ℕ) (ts : List Trace)
    → any w ts ≡ true
    → 1 ≤ k
    → last_of (take k (select w ts)) ≢ none
last_of_wanted w zero ts h p e = omega arith
last_of_wanted w (suc k) [] h p e = cc
last_of_wanted w (suc k) (t ∷ ts) h p e = elim (Bool-cases (w t)) [
  | inl f ↦ last_of-ne-none t (take k (select w ts)) (rw f at e)
  | inr f ↦ last_of_wanted w (suc k) ts (rw f at h) p (rw f at e)
]

last_of_unwanted :
    (w : Trace → Bool) (k : ℕ) (ts : List Trace)
    → any w ts ≡ false
    → last_of (take k (select w ts)) ≡ none
last_of_unwanted w zero [] h = refl
last_of_unwanted w (suc k) [] h = refl
last_of_unwanted w k (t ∷ ts) h = elim (Bool-cases (w t)) [
  | inl f ↦ cc (rw f at h)
  | inr f ↦ rw f (last_of_unwanted w k ts (rw f at h))
]

any_imp :
    {A : Type 0} (p q : A → Bool) (xs : List A)
    → ((x : A) → p x ≡ true → q x ≡ true)
    → any p xs ≡ true
    → any q xs ≡ true
any_imp p q [] f h = cc
any_imp p q (x ∷ xs) f h = elim (Bool-cases (p x)) [
  | inl e ↦ rw (f x e) refl
  | inr e ↦ let ih = any_imp p q xs f (rw e at h) in ground arith
]

any_fact :
    {A : Type 0} (P : Type 0) (p : A → Bool) (xs : List A)
    → ((x : A) → p x ≡ true → P)
    → any p xs ≡ true
    → P
any_fact P p [] f h = cc
any_fact P p (x ∷ xs) f h = elim (Bool-cases (p x)) [
  | inl e ↦ f x e
  | inr e ↦ any_fact P p xs f (rw e at h)
]

module _ (process_one : Trace → Attempt (Option Row)) (docs : List Trace) (limit : ℕ)
    (positive : 1 ≤ limit) where
  abbrev left_over : Option ℕ → ℕ
  left_over b = length (select (above b) docs)

  -- Where something is wanted, or at the very start.
  abbrev Goes : Option ℕ → Type 0
  Goes none = Unit
  Goes (some n) = any (wanted (some n)) docs ≡ true

  next_Goes :
      (b : Option ℕ) (n : ℕ)
      → any (λ t. wanted b t && t.blocknum == n) docs ≡ true
      → same_block (some n) b ≡ false
      → Goes (some n) × (left_over (some n) < left_over b)
  next_Goes none n h go = (
    any_imp _ (wanted (some n)) docs (λ t k. ground arith) h,
    length-select-lt_of_any (above (some n)) (above none) _ docs (λ t k. refl)
        (λ t k. (ground arith, refl)) h,
  )
  next_Goes (some m) n h go =
      let le = any_fact (m ≤ n) _ docs (λ t k. ground arith) h in
      (
        any_imp _ (wanted (some n)) docs (λ t k. ground arith) h,
        length-select-lt_of_any (above (some n)) (above (some m)) _ docs (λ t k. ground arith)
            (λ t k. (ground arith, ground arith)) h,
      )

  continues :
      (b next : Option ℕ)
      → Goes b
      → next ≡ last_of (fetch_traces_from_mongo_db process_one docs limit b)
      → same_block next b ≡ false
      → Goes next × (left_over next < left_over b)
  continues none none g e go = cc
  continues (some m) none g e go =
      absurd (last_of_wanted (wanted (some m)) limit docs g positive (sym e))
  continues b (some n) g e go = next_Goes b n (any_of_last (wanted b) limit n docs (sym e)) go

  rounds_end :
      (fuel : ℕ) (one : Bool) (b : Option ℕ) (totals : Totals) (table : Table)
      → Goes b
      → left_over b < fuel
      → (sync_rounds process_one docs fuel limit one b totals table).0 ≢ out_of_fuel
  unfolding sync_rounds
  rounds_end zero one b totals table g p = absurd (omega arith)
  rounds_end (suc fuel) one b totals table g p =
      elim (run_cases (process_batch process_one docs limit b table)) [
        | inl (r, mid, e) ↦
            let (last, _) = process_batch_lem process_one docs limit b table mid r e in
            elim (Bool-cases (same_block r.last_block_number b)) [
              | inl stop ↦ rw (e, stop) (λ h. cc)
              | inr go ↦ elim (Bool-cases one) [
                | inl only ↦ rw (e, go, only) (λ h. cc)
                | inr more ↦
                    let (g', less) = continues b r.last_block_number g last go in
                    rw (e, go, more)
                      (rounds_end fuel false r.last_block_number (add_counts totals r) mid g'
                        (omega arith))
              ]
            ]
        | inr (f, mid, e) ↦ rw e (λ h. cc)
      ]

  -- A block number that the collection does not reach costs one round.
  any_rounds_end :
      (fuel : ℕ) (one : Bool) (b : Option ℕ) (totals : Totals) (table : Table)
      → length docs < fuel
      → (sync_rounds process_one docs (suc fuel) limit one b totals table).0 ≢ out_of_fuel
  unfolding sync_rounds
  any_rounds_end fuel one none totals table p =
      rounds_end (suc fuel) one none totals table tt
        (omega (arith, length-select-le (above none) docs))
  any_rounds_end fuel one (some n) totals table p = elim (Bool-cases (any (wanted (some n)) docs)) [
    | inl g ↦
        rounds_end (suc fuel) one (some n) totals table g
          (omega (arith, length-select-le (above (some n)) docs))
    | inr g ↦ elim (run_cases (process_batch process_one docs limit (some n) table)) [
      | inl (r, mid, e) ↦
          let (last, _) = process_batch_lem process_one docs limit (some n) table mid r e in
          let is_null = last ∙ last_of_unwanted (wanted (some n)) limit docs g in
          elim (Bool-cases one) [
            | inl only ↦ rw (e, is_null, only) (λ h. cc)
            | inr more ↦
                rw (e, is_null, more)
                  (rounds_end fuel false none (add_counts totals r) mid tt
                    (omega (arith, length-select-le (above none) docs)))
          ]
      | inr (f, mid, e) ↦ rw e (λ h. cc)
    ]
  ]

  -- A synchronisation always ends, with totals or with an error, whatever block the table has
  -- last, for batches of at least one trace.
  pub process_sync_ends :
      (only_one_batch resync : Bool) (table : Table)
      → (process_sync process_one docs limit only_one_batch resync table).0 ≢ out_of_fuel
  unfolding process_sync
  process_sync_ends one resync table =
      any_rounds_end (suc (length docs)) one (start resync table) _ table (omega arith)
