-- ===== src/Traces/Sync/Complete/Order.antt =====
-- Traces in the order of their blocks, and the first of them.
use ucom_backend.Prelude.{
  ℕ, zero, suc, ◌≤◌, ◌≡◌, ◌⊎◌, inl, inr, refl, ap, Bool, true, Option, none, some, List, [], ◌∷◌,
  length, select, take, drop, All, All-select, arith, Bool-cases,
}
use ucom_backend.Traces.State.{Trace}
use ucom_backend.Traces.Sync.{last_of, same_block}

module _ {A : Type 0} (P : A → Type 0) where
  pub All-take : (k : ℕ) (xs : List A) → All P xs → All P (take k xs)
  All-take zero xs h = tt
  All-take (suc k) [] h = tt
  All-take (suc k) (x ∷ xs) (p, h) = (p, All-take k xs h)

  pub All-drop : (k : ℕ) (xs : List A) → All P xs → All P (drop k xs)
  All-drop zero xs h = h
  All-drop (suc k) [] h = tt
  All-drop (suc k) (x ∷ xs) (p, h) = All-drop k xs h

  pub All-zip :
      (Q R : A → Type 0) (xs : List A)
      → ((x : A) → P x → Q x → R x)
      → All P xs
      → All Q xs
      → All R xs
  All-zip Q R [] f h k = tt
  All-zip Q R (x ∷ xs) f (p, h) (q, k) = (f x p q, All-zip Q R xs f h k)

pub All-selected : {A : Type 0} (w : A → Bool) (xs : List A) → All (λ x. w x ≡ true) (select w xs)
All-selected w [] = tt
All-selected w (x ∷ xs) = elim (Bool-cases (w x)) [
  | inl e ↦ rw e (e, All-selected w xs)
  | inr e ↦ rw e (All-selected w xs)
]

-- The order of `sort({ blocknum: 1 })`.
abbrev pub IsSorted : List Trace → Type 0
IsSorted [] = Unit
IsSorted (t ∷ ts) = All (λ u. t.blocknum ≤ u.blocknum) ts × IsSorted ts

pub select-IsSorted : (w : Trace → Bool) (ts : List Trace) → IsSorted ts → IsSorted (select w ts)
select-IsSorted w [] s = tt
select-IsSorted w (t ∷ ts) (h, s) = elim (Bool-cases (w t)) [
  | inl e ↦ rw e (All-select (λ u. t.blocknum ≤ u.blocknum) w ts h, select-IsSorted w ts s)
  | inr e ↦ rw e (select-IsSorted w ts s)
]

pub last_of_cons :
    (t : Trace) (xs : List Trace) (n : ℕ)
    → last_of (t ∷ xs) ≡ some n
    → ((xs ≡ []) × (t.blocknum ≡ n)) ⊎ (last_of xs ≡ some n)
last_of_cons t [] n h = inl (refl, ground arith)
last_of_cons t (x ∷ xs) n h = inr h

last_of-ge :
    (m n : ℕ) (xs : List Trace) → All (λ u. m ≤ u.blocknum) xs → last_of xs ≡ some n → m ≤ n
last_of-ge m n [] a h = cc
last_of-ge m n (x ∷ xs) (p, a) h = elim (last_of_cons x xs n h) [
  | inl (e, f) ↦ omega arith
  | inr g ↦ last_of-ge m n xs a g
]

-- The last of the first k blocks parts the list.
pub last_of-take :
    (k n : ℕ) (ts : List Trace)
    → IsSorted ts
    → last_of (take k ts) ≡ some n
    → All (λ t. t.blocknum ≤ n) (take k ts) × All (λ t. n ≤ t.blocknum) (drop k ts)
last_of-take zero n ts s h = cc
last_of-take (suc k) n [] s h = cc
last_of-take (suc k) n (t ∷ ts) (a, s) h = elim (last_of_cons t (take k ts) n h) [
  | inl (e, f) ↦ ((omega arith, rw e tt), All-drop (λ u. n ≤ u.blocknum) k ts (rw f at a))
  | inr g ↦
      let (below, above) = last_of-take k n ts s g in
      let le =
        last_of-ge t.blocknum n (take k ts) (All-take (λ u. t.blocknum ≤ u.blocknum) k ts a) g in
      ((le, below), above)
]

pub last_of-ne-none : (t : Trace) (xs : List Trace) → last_of (t ∷ xs) ≡ none → ⊥
last_of-ne-none t [] h = cc
last_of-ne-none t (x ∷ xs) h = last_of-ne-none x xs h

pub last_of_none :
    (Q : Trace → Type 0) (k : ℕ) (ts : List Trace)
    → 1 ≤ k
    → last_of (take k ts) ≡ none
    → All Q (drop k ts)
last_of_none Q zero ts p h = absurd (omega arith)
last_of_none Q (suc k) [] p h = tt
last_of_none Q (suc k) (t ∷ ts) p h = absurd (last_of-ne-none t (take k ts) h)

-- The first k of a selection are at most as many as the rows that have what they have.
pub length-take-select :
    {A : Type 0} (w p : A → Bool) (k : ℕ) (xs : List A)
    → All (λ x. p x ≡ true) (take k (select w xs))
    → length (take k (select w xs)) ≤ length (select p xs)
length-take-select w p zero [] h = omega arith
length-take-select w p (suc k) [] h = omega arith
length-take-select w p zero (x ∷ xs) h = omega arith
length-take-select w p (suc k) (x ∷ xs) h = elim (Bool-cases (w x)) [
  | inl e ↦ let h' = rw e at h in rw (e, h'.0) (omega (arith, length-take-select w p k xs h'.1))
  | inr e ↦ rw e (elim (Bool-cases (p x)) [
    | inl f ↦ rw f (omega (arith, length-take-select w p (suc k) xs (rw e at h)))
    | inr f ↦ rw f (length-take-select w p (suc k) xs (rw e at h))
  ])
]

pub take_cases :
    {A : Type 0} (Q : A → Type 0) (k : ℕ) (xs : List A)
    → (length (take k xs) ≡ k) ⊎ All Q (drop k xs)
take_cases Q zero xs = inl refl
take_cases Q (suc k) [] = inr tt
take_cases Q (suc k) (x ∷ xs) = elim (take_cases Q k xs) [ inl e ↦ inl (ap suc e) | inr h ↦ inr h ]

pub same_block_eq : (a b : Option ℕ) → same_block a b ≡ true → a ≡ b
same_block_eq none none h = refl
same_block_eq none (some m) h = cc
same_block_eq (some n) none h = cc
same_block_eq (some n) (some m) h = ground arith
