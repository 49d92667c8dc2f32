-- ===== src/ManyToMany/Delta/Laws.antt =====
-- The parts of a delta of UpdateManyToManyHelper.
use ucom_backend.Prelude.{
  ℕ, ◌≢◌, ◌≡◌, ◌+◌, refl, Bool, true, false, not, ◌||◌, Option, some, List, [], ◌∷◌, select, length,
  arith, All,
}
use ucom_backend.ManyToMany.Delta.{has_no_id, has_row, get_create_update_delete_delta}

module _ {A : Type 0} (p q : A → Bool) where
  lengths_of_parts :
      (xs : List A)
      → All (λ x. p x ≡ not (q x)) xs
      → length (select p xs) + length (select q xs) ≡ length xs
  lengths_of_parts [] h = omega arith
  lengths_of_parts (x ∷ xs) (h, k) = ground (arith, lengths_of_parts xs k)

module _ {A : Type 0} (id_of : A → Option ℕ) where
  no_row_of_no_id :
      (source : List A) (u : A)
      → All (λ x. id_of x ≢ some 0) source
      → has_no_id (id_of u) ≡ true
      → has_row id_of source u ≡ false
  no_row_of_no_id [] u h e = refl
  no_row_of_no_id (x ∷ xs) u (h, k) e = ground (arith, no_row_of_no_id xs u k e)

  no_id_no_row :
      (source : List A)
      → All (λ x. id_of x ≢ some 0) source
      → (updated : List A)
      → All
          (λ u.
            (has_no_id (id_of u) || not (has_row id_of source u)) ≡ not (has_row id_of source u))
          updated
  no_id_no_row source h [] = tt
  no_id_no_row source h (u ∷ us) =
      (ground (arith, no_row_of_no_id source u h), no_id_no_row source h us)

  -- Where no row of the source has the id 0, each updated row is either added or changed, and not
  -- both: the added and the changed rows are as many as the updated ones together.
  added_or_changed :
      (source updated : List A)
      → All (λ x. id_of x ≢ some 0) source
      → let d = get_create_update_delete_delta id_of source updated in
        length d.added + length d.changed ≡ length updated
  unfolding get_create_update_delete_delta
  added_or_changed source updated h =
      lengths_of_parts (λ u. has_no_id (id_of u) || not (has_row id_of source u))
        (has_row id_of source) updated (no_id_no_row source h updated)
