-- ===== src/Statistics/Delta/Prepared.antt =====
-- The first loop of the deltas, over rows of different entities.
use ucom_backend.Prelude.{
  ℕ, suc, ◌+◌, ◌≡◌, inl, inr, refl, ap, Bool, true, false, ◌||◌, Option, some, List, [], ◌∷◌, ◌==◌,
  if◌then◌else◌, ltb, any, find, length, All, arith, Bool-cases,
}
use ucom_backend.Prelude.Action.{ok}
use ucom_backend.Statistics.Delta.{
  Stat, ToProcess, prepared, has_entity, insert_entity, prepare_rows,
}

abbrev pub find_entity : ℕ → List ToProcess → Option ToProcess
find_entity k ts = find (λ t. t.entity_id == k) ts

abbrev pub has_stat : ℕ → List Stat → Bool
has_stat id cs = any (λ c. c.entity_id == id) cs

-- One row for an entity.
abbrev pub AreUnique : List Stat → Type 0
AreUnique [] = Unit
AreUnique (c ∷ cs) = (has_stat c.entity_id cs ≡ false) × AreUnique cs

find-insert_entity :
    (k : ℕ) (t : ToProcess) (us : List ToProcess)
    → find_entity k (insert_entity t us) ≡ (if t.entity_id == k then some t else find_entity k us)
find-insert_entity k t [] = refl
find-insert_entity k t (u ∷ us) = elim (Bool-cases (ltb u.entity_id t.entity_id)) [
  | inl e ↦ let ih = find-insert_entity k t us in ground arith
  | inr e ↦ rw e refl
]

has-insert_entity :
    (k : ℕ) (t : ToProcess) (us : List ToProcess)
    → has_entity k (insert_entity t us) ≡ t.entity_id == k || has_entity k us
has-insert_entity k t [] = refl
has-insert_entity k t (u ∷ us) = elim (Bool-cases (ltb u.entity_id t.entity_id)) [
  | inl e ↦ let ih = has-insert_entity k t us in ground arith
  | inr e ↦ rw e refl
]

length-insert_entity :
    (t : ToProcess) (us : List ToProcess) → length (insert_entity t us) ≡ suc (length us)
length-insert_entity t [] = refl
length-insert_entity t (u ∷ us) = elim (Bool-cases (ltb u.entity_id t.entity_id)) [
  | inl e ↦ rw e (ap (λ n. suc n) (length-insert_entity t us))
  | inr e ↦ rw e refl
]

found-has_entity :
    (k : ℕ) (ts : List ToProcess) (t : ToProcess)
    → find_entity k ts ≡ some t
    → has_entity k ts ≡ true
found-has_entity k [] t h = cc
found-has_entity k (u ∷ us) t h = elim (Bool-cases (u.entity_id == k)) [
  | inl e ↦ rw e refl
  | inr e ↦ rw e (found-has_entity k us t (rw e at h))
]

abbrev AreNew : List ToProcess → List Stat → Type 0
AreNew ts cs = All (λ c. has_entity c.entity_id ts ≡ false) cs

pub all_new : (cs : List Stat) → AreNew [] cs
all_new [] = tt
all_new (c ∷ cs) = (refl, all_new cs)

AreNew-insert_entity :
    (c : Stat) (ts : List ToProcess) (cs : List Stat)
    → has_stat c.entity_id cs ≡ false
    → AreNew ts cs
    → AreNew (insert_entity (prepared c) ts) cs
AreNew-insert_entity c ts [] other h = tt
AreNew-insert_entity c ts (d ∷ cs) other (p, h) =
    let has = has-insert_entity d.entity_id (prepared c) ts in
    (ground arith, AreNew-insert_entity c ts cs (ground arith) h)

-- What the first loop makes of rows of different entities.
pub record IsPrepared (cs : List Stat) (ts us : List ToProcess) : Type 0 where
  pub made : prepare_rows cs ts ≡ ok us
  pub kept : (k : ℕ) (t : ToProcess) → find_entity k ts ≡ some t → find_entity k us ≡ some t
  pub found : All (λ c. find_entity c.entity_id us ≡ some (prepared c)) cs
  pub many : length us ≡ length cs + length ts

pub prepare_rows_lem :
    (cs : List Stat) (ts : List ToProcess)
    → AreUnique cs
    → AreNew ts cs
    → (us : List ToProcess) × IsPrepared cs ts us
prepare_rows_lem [] ts u h =
    (ts, record { made = refl; kept = λ k t f. f; found = tt; many = omega arith })
prepare_rows_lem (c ∷ cs) ts (other, u) (p, h) =
    let (us, r) =
      prepare_rows_lem cs (insert_entity (prepared c) ts) u
        (AreNew-insert_entity c ts cs other h) in
    (
      us,
      record {
        made = rw p r.made;
        kept = λ k t f. r.kept k t (
            let has = found-has_entity k ts t f in
            let inserted = find-insert_entity k (prepared c) ts in ground arith);
        found = (
          r.kept c.entity_id (prepared c)
              (let inserted = find-insert_entity c.entity_id (prepared c) ts in ground arith),
          r.found,
        );
        many = omega (arith, r.many, length-insert_entity (prepared c) ts);
      },
    )
