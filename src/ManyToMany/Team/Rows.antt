-- ===== src/ManyToMany/Team/Rows.antt =====
-- Rows of a team and their ids, before and after deletions.
use ucom_backend.Prelude.{
  ℕ, suc, ◌≤◌, ◌≡◌, inl, inr, refl, ◌∙◌, Bool, true, false, not, ◌&&◌, List, [], ◌∷◌, ◌==◌, any,
  select, All, arith, Bool-cases,
}
use ucom_backend.ManyToMany.Team.{TeamRow, Table, keep_if, destroy_all}

abbrev pub has_id : ℕ → List TeamRow → Bool
has_id k = any (λ r. r.id == k)

abbrev pub HasUniqueIds : List TeamRow → Type 0
HasUniqueIds [] = Unit
HasUniqueIds (r ∷ rs) = (has_id r.id rs ≡ false) × HasUniqueIds rs

-- No id is given twice, nor beyond the sequence.
pub record IsValid (t : Table) : Type 0 where
  pub unique : HasUniqueIds t.rows
  pub numbered : All (λ r. r.id ≤ t.last_id) t.rows

module _ (p q : TeamRow → Bool) where
  pub any-select : (rows : List TeamRow) → any p (select q rows) ≡ any (λ r. q r && p r) rows
  any-select [] = refl
  any-select (r ∷ rs) = ground (arith, any-select rs)

  pub any_agree : (rows : List TeamRow) → All (λ r. p r ≡ q r) rows → any p rows ≡ any q rows
  any_agree [] h = refl
  any_agree (r ∷ rs) (h, k) = ground (arith, any_agree rs k)

pub everywhere : {P : TeamRow → Type 0} → ((r : TeamRow) → P r) → (rows : List TeamRow) → All P rows
everywhere f [] = tt
everywhere f (r ∷ rs) = (f r, everywhere f rs)

pub any-&& :
    (p : TeamRow → Bool) (c : Bool) (rows : List TeamRow)
    → any (λ r. p r && c) rows ≡ (any p rows && c)
any-&& p c [] = refl
any-&& p c (r ∷ rs) = ground (arith, any-&& p c rs)

-- After deletions: the rows whose ids are not among the deleted.
pub any-destroy_all :
    (p : TeamRow → Bool) (ds : List TeamRow) (t : Table)
    → any p (destroy_all ds t).rows ≡ any (λ r. p r && not (has_id r.id ds)) t.rows
unfolding destroy_all
any-destroy_all p [] t =
    any_agree p (λ r. p r && true) t.rows (everywhere (λ r. ground arith) t.rows)
any-destroy_all p (d ∷ ds) t =
    any-destroy_all p ds (keep_if (λ r. not (r.id == d.id)) t)
    ∙ (any-select (λ r. p r && not (has_id r.id ds)) (λ r. not (r.id == d.id)) t.rows
        ∙ any_agree (λ r. not (r.id == d.id) && (p r && not (has_id r.id ds)))
            (λ r. p r && not (has_id r.id (d ∷ ds))) t.rows (everywhere (λ r. ground arith) t.rows))

pub fresh_id : (n : ℕ) (ds : List TeamRow) → All (λ d. d.id ≤ n) ds → has_id (suc n) ds ≡ false
fresh_id n [] h = refl
fresh_id n (d ∷ ds) (h, k) = ground (arith, fresh_id n ds k)

pub at_most_suc : (n : ℕ) (ds : List TeamRow) → All (λ d. d.id ≤ n) ds → All (λ d. d.id ≤ suc n) ds
at_most_suc n [] h = tt
at_most_suc n (d ∷ ds) (h, k) = (omega arith, at_most_suc n ds k)

pub All-select_two :
    (n : ℕ) (p : TeamRow → Bool) (rows : List TeamRow)
    → All (λ d. d.id ≤ n) rows
    → All (λ d. d.id ≤ n) (select p rows)
All-select_two n p [] h = tt
All-select_two n p (r ∷ rs) (h, k) = elim (Bool-cases (p r)) [
  | inl e ↦ rw e (h, All-select_two n p rs k)
  | inr e ↦ rw e (All-select_two n p rs k)
]

-- With unique ids, the id of a row is among those of a part exactly if the row is of the part.
no_id_of_part :
    (k : ℕ) (p : TeamRow → Bool) (rows : List TeamRow)
    → has_id k rows ≡ false
    → any (λ x. p x && x.id == k) rows ≡ false
no_id_of_part k p [] h = refl
no_id_of_part k p (r ∷ rs) h = ground (arith, no_id_of_part k p rs)

ids_differ :
    (k : ℕ) (rows : List TeamRow) → has_id k rows ≡ false → All (λ r. (k == r.id) ≡ false) rows
ids_differ k [] h = tt
ids_differ k (r ∷ rs) h = (ground arith, ids_differ k rs (ground arith))

grown_part :
    (p : TeamRow → Bool) (x : TeamRow) (part rows : List TeamRow)
    → All (λ r. any (λ y. p y && y.id == r.id) part ≡ p r) rows
    → All (λ r. (x.id == r.id) ≡ false) rows
    → All (λ r. any (λ y. p y && y.id == r.id) (x ∷ part) ≡ p r) rows
grown_part p x part [] h k = tt
grown_part p x part (r ∷ rs) (h, h') (k, k') = (ground arith, grown_part p x part rs h' k')

pub id_of_part :
    (p : TeamRow → Bool) (rows : List TeamRow)
    → HasUniqueIds rows
    → All (λ r. any (λ x. p x && x.id == r.id) rows ≡ p r) rows
id_of_part p [] u = tt
id_of_part p (r ∷ rs) (f, u) = (
  ground (arith, no_id_of_part r.id p rs f),
  grown_part p r rs rs (id_of_part p rs u) (ids_differ r.id rs f),
)
