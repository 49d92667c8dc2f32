-- ===== src/Social/Index/Laws.antt =====
-- Which rows stand in an index after an insertion and a deletion.
use text.Mathlib.TextEquality.{eq_iff}
use ucom_backend.Prelude.{
  ℕ, String, ◌≡◌, ◌≢◌, refl, true, false, not, ◌&&◌, ◌||◌, none, some, List, [], ◌∷◌, arith, ◌==◌,
  select, Bool-cases, inl, inr, any-select_of_imp, any-select_of_disjoint,
}
use ucom_backend.Social.Index.{IndexRow, matches, get_row, exists, insert_row, delete_row}

-- The row of one pair is not the row of another.
matches_apart :
    (u v u' v' : ℕ) (n : String) (r : IndexRow)
    → (u' == u && v' == v) ≡ false
    → matches u' v' n r ≡ true
    → not (matches u v n r) ≡ true
matches_apart u v u' v' n r h k = ground arith

matches_same :
    (u v u' v' : ℕ) (n : String) (r : IndexRow)
    → (u' == u && v' == v) ≡ true
    → matches u' v' n r ≡ true
    → not (matches u v n r) ≡ false
matches_same u v u' v' n r h k = ground arith

-- The rows of one entity name, after the row of one pair was deleted.
exists-select :
    (u v u' v' : ℕ) (n : String) (rows : List IndexRow)
    → exists u' v' n (select (λ row. not (matches u v n row)) rows)
      ≡ (exists u' v' n rows && not (u' == u && v' == v))
exists-select u v u' v' n rows = elim (Bool-cases (u' == u && v' == v)) [
  | inl same ↦
      rw (any-select_of_disjoint _ _ (λ r. matches_same u v u' v' n r same) rows, same)
        (ground arith)
  | inr other ↦
      rw (any-select_of_imp _ _ (λ r. matches_apart u v u' v' n r other) rows, other) (ground arith)
]

pub exists-delete_row :
    (u v u' v' : ℕ) (n : String) (rows : List IndexRow) {rows' : List IndexRow}
    → delete_row u v n rows ≡ some rows'
    → exists u' v' n rows' ≡ (exists u' v' n rows && not (u' == u && v' == v))
unfolding delete_row
exists-delete_row u v u' v' n rows e = ground (arith, exists-select u v u' v' n rows)

pub delete_row-eq-none :
    (u v : ℕ) (n : String) (rows : List IndexRow)
    → exists u v n rows ≡ false
    → delete_row u v n rows ≡ none
unfolding delete_row
delete_row-eq-none u v n rows h = rw h

pub exists-insert_row :
    (r : IndexRow) (u' v' : ℕ) (rows : List IndexRow) {rows' : List IndexRow}
    → insert_row r rows ≡ some rows'
    → exists u' v' r.entity_name rows'
      ≡ (u' == r.user_id && v' == r.entity_id || exists u' v' r.entity_name rows)
unfolding insert_row
exists-insert_row r u' v' rows e = ground (arith, eq_iff r.entity_name r.entity_name)

-- What an insertion and a deletion find before they change the table.
pub insert_row_fresh :
    (r : IndexRow) (rows : List IndexRow) {rows' : List IndexRow}
    → insert_row r rows ≡ some rows'
    → exists r.user_id r.entity_id r.entity_name rows ≡ false
unfolding insert_row
insert_row_fresh r rows e = ground arith

pub delete_row_found :
    (u v : ℕ) (n : String) (rows : List IndexRow) {rows' : List IndexRow}
    → delete_row u v n rows ≡ some rows'
    → exists u v n rows ≡ true
unfolding delete_row
delete_row_found u v n rows e = ground arith

pub get_row-eq-none :
    (u v : ℕ) (n : String) (rows : List IndexRow)
    → exists u v n rows ≡ false
    → get_row u v n rows ≡ none
get_row-eq-none u v n [] h = refl
get_row-eq-none u v n (r ∷ rows) h = ground (arith, get_row-eq-none u v n rows)

pub exists_of_get_row :
    (u v : ℕ) (n : String) (rows : List IndexRow)
    → get_row u v n rows ≢ none
    → exists u v n rows ≡ true
exists_of_get_row u v n [] h = absurd (h refl)
exists_of_get_row u v n (r ∷ rows) h = elim (Bool-cases (matches u v n r)) [
  | inl e ↦ rw e
  | inr e ↦ rw e (exists_of_get_row u v n rows (rw e at h))
]

-- The rows of another entity name do not change.
other_name :
    (u v u' v' : ℕ) (n n' : String) (r : IndexRow)
    → n ≢ n'
    → matches u' v' n' r ≡ true
    → not (matches u v n r) ≡ true
other_name u v u' v' n n' r ne h = ground (arith, eq_iff r.entity_name n, eq_iff r.entity_name n')

pub exists-delete_row_other :
    (u v u' v' : ℕ) (n n' : String) (rows : List IndexRow) {rows' : List IndexRow}
    → n ≢ n'
    → delete_row u v n rows ≡ some rows'
    → exists u' v' n' rows' ≡ exists u' v' n' rows
unfolding delete_row
exists-delete_row_other u v u' v' n n' rows ne e = ground (
  arith,
  any-select_of_imp (matches u' v' n') (λ row. not (matches u v n row))
      (λ r. other_name u v u' v' n n' r ne) rows,
)

pub exists-insert_row_other :
    (r : IndexRow) (u' v' : ℕ) (n' : String) (rows : List IndexRow) {rows' : List IndexRow}
    → r.entity_name ≢ n'
    → insert_row r rows ≡ some rows'
    → exists u' v' n' rows' ≡ exists u' v' n' rows
unfolding insert_row
exists-insert_row_other r u' v' n' rows ne e = ground (arith, eq_iff r.entity_name n')
