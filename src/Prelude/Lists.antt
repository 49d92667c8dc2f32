-- ===== src/Prelude/Lists.antt =====
-- Lists measured and searched by native numbers and Boolean tests, as the array methods do.
use Prim.Native.Nat.{ℕ, zero, suc, ◌+◌}
use mathlib.Core.Path.{◌≡◌, refl, ap}
use mathlib.Core.Logic.{inl, inr}
use mathlib.Core.Bool.{Bool, true, false, not, ◌&&◌, ◌||◌}
use mathlib.Core.List.{List, [], ◌∷◌, ◌++◌}
use mathlib.Core.Option.{Option, none, some}
use native.Mathlib.Omega.{arith}
use ucom_backend.Prelude.Tests.{◌==◌, if◌then◌else◌, Bool-cases}

module _ {ℓ} {A : Type ℓ} where
  abbrev pub length : List A → ℕ
  length [] = 0
  length (x ∷ xs) = suc (length xs)

  -- `xs.some(p)`
  abbrev pub any : (A → Bool) → List A → Bool
  any p [] = false
  any p (x ∷ xs) = p x || any p xs

  -- `xs.filter(p)`
  abbrev pub select : (A → Bool) → List A → List A
  select p [] = []
  select p (x ∷ xs) = if p x then x ∷ select p xs else select p xs

  -- `xs.find(p)`, with `none` for undefined
  abbrev pub find : (A → Bool) → List A → Option A
  find p [] = none
  find p (x ∷ xs) = if p x then some x else find p xs

  abbrev pub drop : ℕ → List A → List A
  drop zero xs = xs
  drop (suc n) [] = []
  drop (suc n) (x ∷ xs) = drop n xs

  abbrev pub take : ℕ → List A → List A
  take zero xs = []
  take (suc n) [] = []
  take (suc n) (x ∷ xs) = x ∷ take n xs

  pub length-append : (xs ys : List A) → length (xs ++ ys) ≡ length xs + length ys
  length-append [] ys = omega arith
  length-append (x ∷ xs) ys = omega (arith, length-append xs ys)

-- A search after a filter.
module _ {ℓ} {A : Type ℓ} (p q : A → Bool) where
  pub any-select_of_imp :
      ((x : A) → p x ≡ true → q x ≡ true) → (xs : List A) → any p (select q xs) ≡ any p xs
  any-select_of_imp h [] = refl
  any-select_of_imp h (x ∷ xs) =
      let ih = any-select_of_imp h xs in
      elim (Bool-cases (p x)) [
        | inl e ↦ rw (h x e, e) refl
        | inr e ↦ elim (Bool-cases (q x)) [ inl f ↦ rw (f, e) ih | inr f ↦ rw (f, e) ih ]
      ]

  pub any-select_of_disjoint :
      ((x : A) → p x ≡ true → q x ≡ false) → (xs : List A) → any p (select q xs) ≡ false
  any-select_of_disjoint h [] = refl
  any-select_of_disjoint h (x ∷ xs) =
      let ih = any-select_of_disjoint h xs in
      elim (Bool-cases (q x)) [
        | inl f ↦ elim (Bool-cases (p x)) [ inl e ↦ ground (arith, h x e) | inr e ↦ rw (f, e) ih ]
        | inr f ↦ rw f ih
      ]

pub select-not_of_any {ℓ} :
    {A : Type ℓ} (p : A → Bool) (xs : List A) → any p xs ≡ false → select (λ x. not (p x)) xs ≡ xs
select-not_of_any p [] h = refl
select-not_of_any p (x ∷ xs) h = elim (Bool-cases (p x)) [
  | inl e ↦ ground arith
  | inr e ↦ rw e (ap (λ t. x ∷ t) (select-not_of_any p xs (rw e at h)))
]

-- What holds of every element.
module _ {ℓ κ} {A : Type ℓ} (P : A → Type κ) where
  abbrev pub All : List A → Type κ
  All [] = Unit
  All (x ∷ xs) = P x × All xs

  pub All-append : (xs ys : List A) → All xs → All ys → All (xs ++ ys)
  All-append [] ys h k = k
  All-append (x ∷ xs) ys (p, h) k = (p, All-append xs ys h k)

  pub All-select : (p : A → Bool) (xs : List A) → All xs → All (select p xs)
  All-select p [] h = tt
  All-select p (x ∷ xs) (q, h) = elim (Bool-cases (p x)) [
    | inl e ↦ rw e (q, All-select p xs h)
    | inr e ↦ rw e (All-select p xs h)
  ]

-- `xs.includes(k)` on numbers
abbrev pub includes : ℕ → List ℕ → Bool
includes k [] = false
includes k (x ∷ xs) = k == x || includes k xs

pub includes-append :
    (k : ℕ) (xs ys : List ℕ) → includes k (xs ++ ys) ≡ (includes k xs || includes k ys)
includes-append k [] ys = refl
includes-append k (x ∷ xs) ys = ground (arith, includes-append k xs ys)

pub includes-select :
    (p : ℕ → Bool) (k : ℕ) (xs : List ℕ) → includes k (select p xs) ≡ (p k && includes k xs)
includes-select p k [] = ground arith
includes-select p k (x ∷ xs) = elim (Bool-cases (k == x)) [
  | inl e ↦ let e' : k ≡ x = ground arith in rw e' (ground (arith, includes-select p x xs))
  | inr e ↦ ground (arith, includes-select p k xs)
]

-- No number is listed twice.
abbrev pub IsUnique : List ℕ → Type 0
IsUnique [] = Unit
IsUnique (x ∷ xs) = (includes x xs ≡ false) × IsUnique xs
