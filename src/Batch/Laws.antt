-- ===== src/Batch/Laws.antt =====
-- The end of the loop of batches, and the rows of a table that it visits.
use native.Mathlib.Nat.{mul-suc, mul-zero}
use ucom_backend.Prelude.{
  ℕ, zero, suc, ◌+◌, ◌*◌, ◌≤◌, ◌≡◌, ◌≢◌, ◌⊎◌, inl, inr, refl, sym, ◌∙◌, Bool, false, ◌==◌, ltb,
  none, some, List, [], ◌∷◌, length, take, drop, ◌-◌, arith, Bool-cases,
}
use ucom_backend.Prelude.Action.{Action, ok, run_cases}
use ucom_backend.Batch.{
  Counters, add, Outcome, done, out_of_fuel, one_round, rounds, process_with_batch,
}

module _ {S : Type 0} {R : Type 0} (fetch : ℕ → ℕ → Action S R) (counting : R → ℕ)
    (breaking : R → Bool) (processing : R → Action S Counters) (limit : ℕ)
    (error_if_no_first_batch_data : Bool) (overflow_limit : ℕ) where
  rounds_end :
      (fuel offset counter : ℕ) (totals : Counters) (s : S)
      → overflow_limit + 1 ≤ counter + fuel
      → counter ≤ overflow_limit
      → (rounds fetch counting breaking processing limit error_if_no_first_batch_data overflow_limit
          fuel offset counter totals s).0
        ≢ out_of_fuel
  unfolding rounds
  rounds_end zero offset counter totals s enough p = absurd (omega arith)
  rounds_end (suc fuel) offset counter totals s enough p =
      elim (run_cases (
        one_round fetch counting breaking processing limit error_if_no_first_batch_data
          overflow_limit offset counter s)) [
            | inl (none, t, e) ↦ ground arith
            | inl (some c, t, e) ↦ elim (Bool-cases (ltb overflow_limit (counter + 1))) [
              | inl over ↦ ground arith
              | inr go ↦
                  let rest =
                    rounds_end fuel (offset + limit) (counter + 1) (add totals c) t (omega arith)
                      (ground arith) in
                  ground arith
            ]
            | inr (f, t, e) ↦ ground arith
          ]

  -- Whatever the four functions do, as long as each returns, the loop ends: it gives totals or an
  -- error.
  process_with_batch_ends :
      (basic_offset : ℕ) (s : S)
      → (process_with_batch fetch counting breaking processing limit error_if_no_first_batch_data
          overflow_limit basic_offset s).0
        ≢ out_of_fuel
  unfolding process_with_batch
  process_with_batch_ends basic_offset s =
      rounds_end (suc overflow_limit) basic_offset 0 _ s (omega arith) (omega arith)

abbrev empty_rows : (A : Type 0) → List A
empty_rows A = []

drop_nil : (A : Type 0) (n : ℕ) → drop n (empty_rows A) ≡ []
drop_nil A zero = refl
drop_nil A (suc n) = refl

drop-+ : {A : Type 0} (m n : ℕ) (xs : List A) → drop (m + n) xs ≡ drop n (drop m xs)
drop-+ zero n xs = ground arith
drop-+ {A = A} (suc m) n [] = drop_nil A (suc m + n) ∙ sym (drop_nil A n)
drop-+ (suc m) n (x ∷ xs) = let e : suc m + n ≡ suc (m + n) = omega arith in rw e (drop-+ m n xs)

length-drop : {A : Type 0} (n : ℕ) (xs : List A) → length (drop n xs) ≡ length xs - n
length-drop zero xs = ground arith
length-drop (suc n) [] = ground arith
length-drop (suc n) (x ∷ xs) = ground (arith, length-drop n xs)

length-take-drop :
    {A : Type 0} (n : ℕ) (xs : List A) → length (take n xs) + length (drop n xs) ≡ length xs
length-take-drop zero xs = ground arith
length-take-drop (suc n) [] = ground arith
length-take-drop (suc n) (x ∷ xs) = ground (arith, length-take-drop n xs)

empty_of_length : {A : Type 0} (xs : List A) → length xs ≡ 0 → xs ≡ []
empty_of_length [] h = refl
empty_of_length (x ∷ xs) h = absurd (omega arith)

-- Reading a table of rows with a step for each row.
module _ {S : Type 0} {A : Type 0} (step : A → S → S) (rows : List A) where
  abbrev pub handle : List A → S → S
  handle [] s = s
  handle (x ∷ xs) s = handle xs (step x s)

  abbrev pub read : ℕ → ℕ → Action S (List A)
  read offset limit s = (ok (take limit (drop offset rows)), s)

  abbrev pub handle_batch : List A → Action S Counters
  handle_batch batch s = (ok (record { processed = length batch; skipped = 0 }), handle batch s)

  handle_split :
      (n : ℕ) (xs : List A) (s : S) → handle (drop n xs) (handle (take n xs) s) ≡ handle xs s
  handle_split zero xs s = refl
  handle_split (suc n) [] s = refl
  handle_split (suc n) (x ∷ xs) s = handle_split n xs (step x s)

  module _ (limit : ℕ) (error_if_no_first_batch_data : Bool) (overflow_limit : ℕ) where
    -- The loop over the table.
    abbrev pub read_all : ℕ → S → Outcome Counters × S
    read_all =
        process_with_batch read length (λ r. length r == 0) handle_batch limit
          error_if_no_first_batch_data overflow_limit

    abbrev read_rounds : ℕ → ℕ → ℕ → Counters → S → Outcome Counters × S
    read_rounds =
        rounds read length (λ r. length r == 0) handle_batch limit error_if_no_first_batch_data
          overflow_limit

    read_rounds_lem :
        (left offset counter : ℕ) (totals : Counters) (s : S)
        → 1 ≤ limit
        → left + counter ≡ overflow_limit
        → length (drop offset rows) ≤ limit * left
        → (error_if_no_first_batch_data ≡ false) ⊎ ((1 ≤ counter) ⊎ (1 ≤ length (drop offset rows)))
        → read_rounds (suc left) offset counter totals s ≡ (
          done (record {
            processed = totals.processed + length (drop offset rows);
            skipped = totals.skipped;
          }),
          handle (drop offset rows) s,
        )
    unfolding rounds one_round
    read_rounds_lem zero offset counter totals s p q h f =
        let none_left : length (drop offset rows) ≡ 0 = ground (arith, mul-zero limit) in
        let batch : length (take limit (drop offset rows)) ≡ 0 =
          ground (arith, length-take-drop limit (drop offset rows)) in
        let nothing : drop offset rows ≡ [] = empty_of_length (drop offset rows) none_left in
        ground arith
    read_rounds_lem (suc left) offset counter totals s p q h f =
        let rest = drop offset rows in
        elim (Bool-cases (length rest == 0)) [
          | inl empty ↦
              let batch : length (take limit rest) ≡ 0 =
                ground (arith, length-take-drop limit rest) in
              let nothing : rest ≡ [] = empty_of_length rest (ground arith) in ground arith
          | inr more ↦
              let whole = length-take-drop limit rest in
              let tail = length-drop limit rest in
              let batch : (length (take limit rest) == 0) ≡ false = ground arith in
              let moved = drop-+ offset limit rows in
              let next : Counters =
                add totals (record { processed = length (take limit rest); skipped = 0 }) in
              let later =
                read_rounds_lem left (offset + limit) (counter + 1) next
                  (handle (take limit rest) s) p (omega arith)
                  (ground (arith, moved, mul-suc limit left)) (inr (inl (omega arith))) in
              let split = handle_split limit rest s in ground arith
        ]

    -- Over a table that has a row, or where an empty one is allowed, and that has at most
    -- limit · overflow_limit rows, with a limit of at least one, the loop ends without an error,
    -- handles every row once and in order, and counts them.
    pub process_with_batch_visits_all :
        (s : S)
        → 1 ≤ limit
        → length rows ≤ limit * overflow_limit
        → (error_if_no_first_batch_data ≡ false) ⊎ (1 ≤ length rows)
        → read_all 0 s ≡ (done (record { processed = length rows; skipped = 0 }), handle rows s)
    unfolding process_with_batch
    process_with_batch_visits_all s p h f =
        let first =
          read_rounds_lem overflow_limit 0 0 (record { processed = 0; skipped = 0 }) s p
            (omega arith) h (ground arith) in
        ground arith
