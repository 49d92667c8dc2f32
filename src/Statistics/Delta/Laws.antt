-- ===== src/Statistics/Delta/Laws.antt =====
-- The delta of each entity is its last value less its last value of the given date.
use ucom_backend.Prelude.{
  ℕ, suc, ◌≡◌, inl, inr, refl, sym, ap, ◌∙◌, false, Option, none, some, List, [], ◌∷◌, map, ◌==◌,
  if◌then◌else◌, find, length, All, arith, Bool-cases,
}
use ucom_backend.Prelude.Action.{ok}
use ucom_backend.Prelude.Int.{ℤ, ◌-ℤ◌}
use ucom_backend.Statistics.Delta.{
  Stat, ToProcess, DeltaEvent, prepared, has_entity, prepare_delta_data_to_process, is_negative,
  with_first_value, set_first_value, calculate_rows, calculate_delta_value, delta_event,
  process_one_to_one,
}
use ucom_backend.Statistics.Delta.Prepared.{find_entity, AreUnique, all_new, prepare_rows_lem}

set_first_value-unknown :
    (g : Stat) (ts : List ToProcess) → has_entity g.entity_id ts ≡ false → set_first_value g ts ≡ ts
set_first_value-unknown g [] h = refl
set_first_value-unknown g (t ∷ ts) h =
    let other : (t.entity_id == g.entity_id) ≡ false = ground arith in
    rw other (ap (λ us. t ∷ us) (set_first_value-unknown g ts (ground arith)))

abbrev changed_by : Stat → ToProcess → ToProcess
changed_by g t = if t.entity_id == g.entity_id then with_first_value g t else t

changed_by-id : (g : Stat) (t : ToProcess) → (changed_by g t).entity_id ≡ t.entity_id
changed_by-id g t = elim (Bool-cases (t.entity_id == g.entity_id)) [
  | inl e ↦ rw e refl
  | inr e ↦ rw e refl
]

find-set_first_value :
    (k : ℕ) (g : Stat) (ts : List ToProcess) (t : ToProcess)
    → find_entity k ts ≡ some t
    → find_entity k (set_first_value g ts) ≡ some (changed_by g t)
find-set_first_value k g [] t h = cc
find-set_first_value k g (u ∷ us) t h = elim (Bool-cases (u.entity_id == k)) [
  | inl e ↦
      let same : u ≡ t = ground arith in
      rw (changed_by-id g u, e) (ap (λ x. some (changed_by g x)) same)
  | inr e ↦ rw (changed_by-id g u, e) (find-set_first_value k g us t (rw e at h))
]

length-set_first_value :
    (g : Stat) (ts : List ToProcess) → length (set_first_value g ts) ≡ length ts
length-set_first_value g [] = refl
length-set_first_value g (t ∷ ts) = ap (λ n. suc n) (length-set_first_value g ts)

-- A row after the second loop.
abbrev changed_by_all : List Stat → ToProcess → ToProcess
changed_by_all [] t = t
changed_by_all (g ∷ gs) t = changed_by_all gs (changed_by g t)

record IsCalculated (gs : List Stat) (ts us : List ToProcess) : Type 0 where
  made : calculate_rows gs ts ≡ ok us
  found :
      (k : ℕ) (t : ToProcess)
      → find_entity k ts ≡ some t
      → find_entity k us ≡ some (changed_by_all gs t)
  many : length us ≡ length ts

calculate_rows_lem :
    (gs : List Stat) (ts : List ToProcess)
    → All (λ g. is_negative g.value ≡ false) gs
    → (us : List ToProcess) × IsCalculated gs ts us
calculate_rows_lem [] ts h = (ts, record { made = refl; found = λ k t f. f; many = refl })
calculate_rows_lem (g ∷ gs) ts (p, h) =
    let (us, r) = calculate_rows_lem gs (set_first_value g ts) h in
    (
      us,
      record {
        made = elim (Bool-cases (has_entity g.entity_id ts)) [
          | inl e ↦ rw (e, p) r.made
          | inr e ↦
              rw e (ap (λ xs. calculate_rows gs xs) (sym (set_first_value-unknown g ts e)) ∙ r.made)
        ];
        found = λ k t f. r.found k (changed_by g t) (find-set_first_value k g ts t f);
        many = r.many ∙ length-set_first_value g ts;
      },
    )

-- The last value of an entity in the rows of the given date.
abbrev pub latest : ℕ → List Stat → Option ℤ → Option ℤ
latest id [] v = v
latest id (g ∷ gs) v = latest id gs (if id == g.entity_id then some g.value else v)

abbrev pub change : ℤ → Option ℤ → ℤ
change last_value none = last_value
change last_value (some first_value) = last_value -ℤ first_value

changed_event :
    (gs : List Stat) (t : ToProcess) (v : Option ℤ)
    → t.delta_value ≡ change t.last_value v
    → delta_event (changed_by_all gs t) ≡ record {
      entity_id = t.entity_id;
      entity_blockchain_id = t.entity_blockchain_id;
      result_value = change t.last_value (latest t.entity_id gs v);
    }
changed_event [] t v h =
    ap
      (λ x. record {
        entity_id = t.entity_id;
        entity_blockchain_id = t.entity_blockchain_id;
        result_value = x;
      })
      h
changed_event (g ∷ gs) t v h = elim (Bool-cases (t.entity_id == g.entity_id)) [
  | inl e ↦
      let now : changed_by g t ≡ with_first_value g t = rw e refl in
      ap (λ x. delta_event (changed_by_all gs x)) now
      ∙ rw e (changed_event gs (with_first_value g t) (some g.value) refl)
  | inr e ↦
      let now : changed_by g t ≡ t = rw e refl in
      ap (λ x. delta_event (changed_by_all gs x)) now ∙ rw e (changed_event gs t v h)
]

abbrev pub delta_of : List Stat → Stat → DeltaEvent
delta_of given c = record {
  entity_id = c.entity_id;
  entity_blockchain_id = c.entity_blockchain_id;
  result_value = change c.value (latest c.entity_id given none);
}

abbrev pub find_event : ℕ → List DeltaEvent → Option DeltaEvent
find_event k es = find (λ e. e.entity_id == k) es

find-map :
    (k : ℕ) (ts : List ToProcess) (t : ToProcess)
    → find_entity k ts ≡ some t
    → find_event k (map delta_event ts) ≡ some (delta_event t)
find-map k [] t h = cc
find-map k (u ∷ us) t h = elim (Bool-cases (u.entity_id == k)) [
  | inl e ↦ let same : u ≡ t = ground arith in rw e (ap (λ x. some (delta_event x)) same)
  | inr e ↦ rw e (find-map k us t (rw e at h))
]

length-map : (ts : List ToProcess) → length (map delta_event ts) ≡ length ts
length-map [] = refl
length-map (t ∷ ts) = ap (λ n. suc n) (length-map ts)

events_of :
    (cs gs : List Stat) (ts us : List ToProcess)
    → IsCalculated gs ts us
    → All (λ c. find_entity c.entity_id ts ≡ some (prepared c)) cs
    → All (λ c. find_event c.entity_id (map delta_event us) ≡ some (delta_of gs c)) cs
events_of [] gs ts us r h = tt
events_of (c ∷ cs) gs ts us r (p, h) = (
  find-map c.entity_id us (changed_by_all gs (prepared c)) (r.found c.entity_id (prepared c) p)
      ∙ ap (λ e. some e) (changed_event gs (prepared c) none refl),
  events_of cs gs ts us r h,
)

-- With one last row for each entity and no negative value at the given date, where neither list of
-- rows is empty: there is one event for each last row, and its value is that of the row less the last
-- value that the given date has for the entity, or the whole value where it has none.
pub process_one_to_one_lem :
    (c g : Stat) (last_data given : List Stat)
    → AreUnique (c ∷ last_data)
    → All (λ x. is_negative x.value ≡ false) (g ∷ given)
    → (events : List DeltaEvent) × (process_one_to_one (c ∷ last_data) (g ∷ given) ≡ ok events)
      × All (λ x. find_event x.entity_id events ≡ some (delta_of (g ∷ given) x)) (c ∷ last_data)
      × (length events ≡ length (c ∷ last_data))
unfolding process_one_to_one prepare_delta_data_to_process calculate_delta_value
process_one_to_one_lem c g last_data given unique positive =
    let (ts, p) = prepare_rows_lem (c ∷ last_data) [] unique (all_new (c ∷ last_data)) in
    let (us, q) = calculate_rows_lem (g ∷ given) ts positive in
    (
      map delta_event us,
      rw p.made (rw q.made refl),
      events_of (c ∷ last_data) (g ∷ given) ts us q p.found,
      omega (arith, p.many, q.many, length-map us),
    )
