-- ===== src/ManyToMany/Delta.antt =====
-- The two kinds of delta of UpdateManyToManyHelper. An id is a number, `none` where it is missing.
pub mod Laws
use ucom_backend.Prelude.{
  ℕ, Bool, true, false, not, ◌&&◌, ◌||◌, Option, none, some, List, [], ◌∷◌, ◌==◌, any, select,
}

module _ {A : Type 0} {B : Type 0} (source_id : A → ℕ) (updated_id : B → ℕ) where
  abbrev pub is_in_source : List A → B → Bool
  is_in_source source u = any (λ x. source_id x == updated_id u) source

  abbrev pub is_in_updated : List B → A → Bool
  is_in_updated updated x = any (λ u. source_id x == updated_id u) updated

  -- getCreateDeleteOnlyDelta: what is added, and what is deleted
  unfoldable pub get_create_delete_only_delta : List A → List B → List B × List A
  get_create_delete_only_delta source updated = (
    select (λ u. not (is_in_source source u)) updated,
    select (λ x. not (is_in_updated updated x)) source,
  )

-- What is added, changed and deleted.
pub record Changes (A : Type 0) : Type 0 where
  pub added : List A
  pub changed : List A
  pub deleted : List A

-- `+sourceItem.id === +updatedItem.id`: a missing id is NaN, which equals nothing
abbrev pub equal_ids : Option ℕ → Option ℕ → Bool
equal_ids none k = false
equal_ids (some i) none = false
equal_ids (some i) (some j) = i == j

-- `!updatedItem.id`
abbrev pub has_no_id : Option ℕ → Bool
has_no_id none = true
has_no_id (some i) = i == 0

module _ {A : Type 0} (id_of : A → Option ℕ) where
  abbrev pub has_row : List A → A → Bool
  has_row rows x = any (λ y. equal_ids (id_of y) (id_of x)) rows

  -- getCreateUpdateDeleteDelta
  unfoldable pub get_create_update_delete_delta : List A → List A → Changes A
  get_create_update_delete_delta source updated = record {
    added = select (λ u. has_no_id (id_of u) || not (has_row source u)) updated;
    changed = select (has_row source) updated;
    deleted = select (λ x. not (has_row updated x)) source;
  }
