-- ===== src/Statistics/Importance/Laws.antt =====
-- The batches of importance are all the rows, each once.
use mathlib.Core.Path.{subst}
use mathlib.Core.List.{append-nil, append_assoc}
use ucom_backend.Prelude.{
  ℕ, zero, suc, ◌≤◌, ◌<◌, ◌≡◌, inl, inr, refl, sym, ap, ◌∙◌, true, false, Option, none, some, List,
  [], ◌∷◌, ◌++◌, ◌==◌, map, length, select, take, All, arith, ltb, Bool-cases,
}
use ucom_backend.Batch.{Outcome, done}
use ucom_backend.Statistics.Importance.{
  Model, Event, FetchItem, after_id, find_many_entity_events, event_of, last_id_of, after_models,
  importance_rounds, process_entities_importance, process_fetch_set,
}

-- The order of `orderBy('id', 'ASC')`, with ids of a primary key, from 1 on.
abbrev pub IsSorted : List Model → Type 0
IsSorted [] = Unit
IsSorted (m ∷ ms) = (1 ≤ m.id) × All (λ n. m.id < n.id) ms × IsSorted ms

-- A full batch has a last row.
full_batch :
    (k : ℕ) (ms : List Model)
    → k < length ms
    → (front : List Model) × (m : Model) × (back : List Model) × (ms ≡ front ++ (m ∷ back))
      × (take (suc k) ms ≡ front ++ (m ∷ []))
      × (length (front ++ (m ∷ [])) ≡ suc k)
      × (length back < length ms)
full_batch k [] h = absurd (omega (arith, h))
full_batch zero (m ∷ ms) h = ([], m, ms, refl, refl, refl, omega arith)
full_batch (suc k) (m ∷ ms) h =
    let (front, n, back, e, t, f, l) = full_batch k ms (omega (arith, h)) in
    (
      m ∷ front,
      n,
      back,
      ap (λ xs. m ∷ xs) e,
      ap (λ xs. m ∷ xs) t,
      omega (arith, f),
      omega (arith, l),
    )

take_all : (k : ℕ) (ms : List Model) → length ms ≤ k → take k ms ≡ ms
take_all zero [] h = refl
take_all (suc k) [] h = refl
take_all zero (m ∷ ms) h = absurd (omega (arith, h))
take_all (suc k) (m ∷ ms) h = ap (λ xs. m ∷ xs) (take_all k ms (omega (arith, h)))

last_id_of-append : (front : List Model) (m : Model) → last_id_of (front ++ (m ∷ [])) ≡ some m.id
last_id_of-append [] m = refl
last_id_of-append (f ∷ []) m = refl
last_id_of-append (f ∷ (g ∷ front)) m = last_id_of-append (g ∷ front) m

after_id_lem : (n : ℕ) (x : Model) → 1 ≤ n → after_id (some n) x ≡ ltb n x.id
after_id_lem zero x h = absurd (omega (arith, h))
after_id_lem (suc n) x h = refl

select_later :
    (n : ℕ) (ms : List Model) → 1 ≤ n → All (λ x. n < x.id) ms → select (after_id (some n)) ms ≡ ms
select_later n [] pos h = refl
select_later n (m ∷ ms) pos (l, h) =
    let now : after_id (some n) m ≡ true = after_id_lem n m pos ∙ ground arith in
    rw now (ap (λ xs. m ∷ xs) (select_later n ms pos h))

at_append :
    (P : Model → Type 0) (front : List Model) (m : Model) (back : List Model)
    → All P (front ++ (m ∷ back))
    → P m
at_append P [] m back (p, h) = p
at_append P (f ∷ front) m back (p, h) = at_append P front m back h

-- What stands after a row is what is fetched after its id.
select_after :
    (front : List Model) (m : Model) (back : List Model)
    → IsSorted (front ++ (m ∷ back))
    → select (after_id (some m.id)) (front ++ (m ∷ back)) ≡ back
select_after [] m back (pos, later, s) =
    let same : after_id (some m.id) m ≡ false = after_id_lem m.id m pos ∙ ground arith in
    rw same (select_later m.id back pos later)
select_after (f ∷ front) m back (pos, later, s) =
    let before = at_append (λ x. f.id < x.id) front m back later in
    let positive : 1 ≤ m.id = omega (arith, before) in
    let now : after_id (some m.id) f ≡ false = after_id_lem m.id f positive ∙ ground arith in
    rw now (select_after front m back s)

all_rows : (ms : List Model) → select (after_id none) ms ≡ ms
all_rows [] = refl
all_rows (m ∷ ms) = ap (λ xs. m ∷ xs) (all_rows ms)

map-append :
    (item : FetchItem) (xs ys : List Model)
    → map (event_of item) (xs ++ ys) ≡ map (event_of item) xs ++ map (event_of item) ys
map-append item [] ys = refl
map-append item (x ∷ xs) ys = ap (λ es. event_of item x ∷ es) (map-append item xs ys)

after_full :
    (item : FetchItem) (k : ℕ) (rest : Option ℕ → List Event → Outcome (List Event))
    (front : List Model) (m : Model) (events : List Event)
    → length (front ++ (m ∷ [])) ≡ suc k
    → after_models item (suc k) rest (front ++ (m ∷ [])) events
      ≡ rest (some m.id) (events ++ map (event_of item) (front ++ (m ∷ [])))
after_full item k rest front m events many =
    let same : ltb (suc k) (suc k) ≡ false = ground arith in
    let left : (suc k == 0) ≡ false = ground arith in
    rw (many, same, left, last_id_of-append front m) refl

after_last :
    (item : FetchItem) (k : ℕ) (rest : Option ℕ → List Event → Outcome (List Event))
    (todo : List Model) (events : List Event)
    → length todo ≤ k
    → after_models item (suc k) rest todo events ≡ done (events ++ map (event_of item) todo)
after_last item k rest [] events h = ap (λ es. done es) (sym (append-nil events))
after_last item k rest (m ∷ ms) events h =
    let few : ltb (length (m ∷ ms)) (suc k) ≡ true = ground arith in
    let left : (length (m ∷ ms) == 0) ≡ false = ground arith in rw (few, left) refl

module _ (item : FetchItem) (k : ℕ) (sorted : IsSorted item.rows) where
  -- What is left is made in the rounds that are left.
  abbrev MakesRest : ℕ → Type 0
  MakesRest fuel =
      (before todo : List Model) (last_id : Option ℕ) (events : List Event)
      → length todo < fuel
      → item.rows ≡ before ++ todo
      → select (after_id last_id) item.rows ≡ todo
      → importance_rounds item fuel (suc k) last_id events
        ≡ done (events ++ map (event_of item) todo)

  full_round :
      (fuel : ℕ) (before front : List Model) (m : Model) (back : List Model) (last_id : Option ℕ)
      (events : List Event)
      → MakesRest fuel
      → length back < fuel
      → item.rows ≡ before ++ (front ++ (m ∷ back))
      → find_many_entity_events item.rows (suc k) last_id ≡ front ++ (m ∷ [])
      → length (front ++ (m ∷ [])) ≡ suc k
      → importance_rounds item (suc fuel) (suc k) last_id events
        ≡ done (events ++ map (event_of item) (front ++ (m ∷ back)))
  unfolding importance_rounds
  full_round fuel before front m back last_id events ih less e taken many =
      let first = front ++ (m ∷ []) in
      let here : item.rows ≡ (before ++ front) ++ (m ∷ back) =
        e ∙ sym (append_assoc before front (m ∷ back)) in
      let next : select (after_id (some m.id)) item.rows ≡ back =
        ap (λ xs. select (after_id (some m.id)) xs) here
        ∙ select_after (before ++ front) m back (subst IsSorted here sorted) in
      let parts : front ++ (m ∷ back) ≡ first ++ back = sym (append_assoc front (m ∷ []) back) in
      rw taken (
        after_full item k (λ n es. importance_rounds item fuel (suc k) n es) front m events many
        ∙ ih (before ++ first) back (some m.id) (events ++ map (event_of item) first) less
            (e ∙ ap (λ xs. before ++ xs) parts ∙ sym (append_assoc before first back)) next
        ∙ ap (λ es. done es)
            (append_assoc events (map (event_of item) first) (map (event_of item) back)
              ∙ ap (λ es. events ++ es)
                  (sym (map-append item first back)
                    ∙ ap (λ xs. map (event_of item) xs) (sym parts))))

  rounds_lem : (fuel : ℕ) → MakesRest fuel
  unfolding importance_rounds find_many_entity_events
  rounds_lem zero before todo last_id events h e f = absurd (omega (arith, h))
  rounds_lem (suc fuel) before todo last_id events h e f = elim (Bool-cases (ltb k (length todo))) [
    | inl full ↦
        let (front, m, back, parts, taken, many, less) = full_batch k todo (ground arith) in
        rw parts (
          full_round fuel before front m back last_id events (rounds_lem fuel)
            (omega (arith, less, h)) (e ∙ ap (λ xs. before ++ xs) parts)
            (ap (λ xs. take (suc k) xs) f ∙ taken) many)
    | inr few ↦ rw f (
        rw (take_all (suc k) todo (ground arith)) (
          after_last item k (λ n es. importance_rounds item fuel (suc k) n es) todo events
            (ground arith)))
  ]

  process_one_item :
      (events : List Event)
      → process_entities_importance item (suc k) events
        ≡ done (events ++ map (event_of item) item.rows)
  unfolding process_entities_importance
  process_one_item events =
      rounds_lem (suc (length item.rows)) [] item.rows none events (omega arith) refl
        (all_rows item.rows)

-- What a single statement over all the tables would insert.
abbrev pub all_events : List FetchItem → List Event
all_events [] = []
all_events (item ∷ items) = map (event_of item) item.rows ++ all_events items

abbrev pub AreSorted : List FetchItem → Type 0
AreSorted [] = Unit
AreSorted (item ∷ items) = IsSorted item.rows × AreSorted items

-- Reading the tables in batches, of one row or more, ends and inserts what reading each table at
-- once does: one event for each row of each table, in the order of the ids, where the ids are
-- positive and rise.
pub process_fetch_set_lem :
    (items : List FetchItem) (batch_size : ℕ) (events : List Event)
    → 1 ≤ batch_size
    → AreSorted items
    → process_fetch_set items batch_size events ≡ done (events ++ all_events items)
unfolding process_fetch_set
process_fetch_set_lem items zero events pos sorted = absurd (omega (arith, pos))
process_fetch_set_lem [] (suc k) events pos sorted = ap (λ es. done es) (sym (append-nil events))
process_fetch_set_lem (item ∷ items) (suc k) events pos (sorted, rest) =
    rw (process_one_item item k sorted events) (
      process_fetch_set_lem items (suc k) (events ++ map (event_of item) item.rows) pos rest
      ∙ ap (λ es. done es) (append_assoc events (map (event_of item) item.rows) (all_events items)))
