-- ===== src/Filters/Laws.antt =====
-- The bounds of a page, and the pages of a query together.
use native.Mathlib.Nat.{suc-mul}
use ucom_backend.Prelude.{
  ℕ, zero, suc, ◌+◌, ◌*◌, ◌≤◌, ◌≡◌, ◌↔◌, refl, sym, ap, ◌∙◌, false, Option, none, some, List, [],
  ◌∷◌, ◌++◌, length, take, drop, arith,
}
use ucom_backend.Prelude.Int.{ℤ, pos, negsuc}
use ucom_backend.Filters.{
  OffsetLimit, get_offset_limit, get_metadata_by_offset_limit, capped, page_of, default_page,
  positive,
}

positive_product : (a b : ℕ) → 1 ≤ a → 1 ≤ b → 1 ≤ a * b
positive_product zero b h k = absurd (omega arith)
positive_product (suc a) zero h k = absurd (omega arith)
positive_product (suc a) (suc b) h k = grind arith

product_le : (a b c : ℕ) → a ≤ b → a * c ≤ b * c
product_le a b c h = grind arith

-- The number asked for or, above 50, the limit of 50.
capped_bounds :
    (scale q : ℕ) → 1 ≤ scale → 1 ≤ q → (1 ≤ capped scale q) × (capped scale q ≤ 50 * scale)
capped_bounds scale q h k = (ground arith, ground arith)

positive_pos : (n : ℕ) → positive (some (pos (suc n))) ≡ some (suc n)
positive_pos n = ground arith

module _ (scale : ℕ) (nonzero : 1 ≤ scale) where
  abbrev InBounds : OffsetLimit → Type 0
  InBounds p = (1 ≤ p.limit) × (p.limit ≤ 50 * (scale * scale))

  default_page-InBounds : InBounds (default_page scale)
  default_page-InBounds = (
    positive_product 50 (scale * scale) (omega arith)
        (positive_product scale scale nonzero nonzero),
    omega arith,
  )

  page_of-InBounds : (n q : ℕ) → 1 ≤ q → InBounds (page_of scale n (capped scale q))
  page_of-InBounds n q h =
      let cap = capped_bounds scale q nonzero h in
      (
        positive_product (capped scale q) scale cap.0 nonzero,
        grind (arith, product_le (capped scale q) (50 * scale) scale cap.1),
      )

  get_offset_limit-InBounds :
      (page per_page : Option ℤ) → InBounds (get_offset_limit scale page per_page)
  unfolding get_offset_limit
  get_offset_limit-InBounds none q = default_page-InBounds
  get_offset_limit-InBounds (some (negsuc n)) q = default_page-InBounds
  get_offset_limit-InBounds (some (pos zero)) q = default_page-InBounds
  get_offset_limit-InBounds (some (pos (suc n))) none = rw (positive_pos n) default_page-InBounds
  get_offset_limit-InBounds (some (pos (suc n))) (some (negsuc k)) =
      rw (positive_pos n) default_page-InBounds
  get_offset_limit-InBounds (some (pos (suc n))) (some (pos zero)) =
      rw (positive_pos n) default_page-InBounds
  get_offset_limit-InBounds (some (pos (suc n))) (some (pos (suc k))) =
      rw (positive_pos n, positive_pos k) (page_of-InBounds (suc n) (suc k) (omega arith))

-- Whatever a query asks for, fractions included, the limit is above 0 and at most 50: both stand
-- here in units of 1 / (scale · scale).
pub get_offset_limit_bounds :
    (scale : ℕ) (page per_page : Option ℤ)
    → 1 ≤ scale
    → (1 ≤ (get_offset_limit scale page per_page).limit)
      × ((get_offset_limit scale page per_page).limit ≤ 50 * (scale * scale))
get_offset_limit_bounds scale page per_page h = get_offset_limit-InBounds scale h page per_page

module _ {A : Type 0} (rows : List A) where
  -- The rows of a page, `LIMIT … OFFSET …`.
  abbrev pub rows_of : OffsetLimit → List A
  rows_of p = take p.limit (drop p.offset rows)

  -- The pages 1 to n of a query, one after the other.
  abbrev pub pages : ℕ → ℕ → List A
  pages zero per_page = []
  pages (suc n) per_page =
      pages n per_page ++ rows_of (get_offset_limit 1 (some (pos (suc n))) (some (pos per_page)))

abbrev no_rows : (A : Type 0) → List A
no_rows A = []

take_nil : (A : Type 0) (n : ℕ) → take n (no_rows A) ≡ []
take_nil A zero = refl
take_nil A (suc n) = refl

take_all : {A : Type 0} (n : ℕ) (xs : List A) → length xs ≤ n → take n xs ≡ xs
take_all zero [] h = refl
take_all (suc n) [] h = refl
take_all zero (x ∷ xs) h = absurd (omega arith)
take_all (suc n) (x ∷ xs) h = ap (λ t. x ∷ t) (take_all n xs (omega arith))

length-take_le : {A : Type 0} (n : ℕ) (xs : List A) → length (take n xs) ≤ n
length-take_le zero xs = omega arith
length-take_le (suc n) [] = omega arith
length-take_le (suc n) (x ∷ xs) = omega (arith, length-take_le n xs)

take_more : {A : Type 0} (m n : ℕ) (xs : List A) → take m xs ++ take n (drop m xs) ≡ take (m + n) xs
take_more zero n xs = ground arith
take_more {A = A} (suc m) n [] = take_nil A n ∙ sym (take_nil A (suc m + n))
take_more (suc m) n (x ∷ xs) =
    let e : suc m + n ≡ suc (m + n) = omega arith in rw e (ap (λ t. x ∷ t) (take_more m n xs))

get_offset_limit_lem :
    (n per_page : ℕ)
    → 1 ≤ per_page
    → per_page ≤ 50
    → get_offset_limit 1 (some (pos (suc n))) (some (pos per_page))
      ≡ record { offset = n * per_page; limit = per_page }
unfolding get_offset_limit
get_offset_limit_lem zero q p h = ground arith
get_offset_limit_lem (suc n) q p h = ground arith

-- The pages 1 to n, of 1 to 50 rows each, are the first n · per_page rows, each once and in order.
pub pages_lem :
    {A : Type 0} (rows : List A) (n per_page : ℕ)
    → 1 ≤ per_page
    → per_page ≤ 50
    → pages rows n per_page ≡ take (n * per_page) rows
pages_lem rows zero q p h = ground arith
pages_lem rows (suc n) q p h =
    rw (get_offset_limit_lem n q p h, pages_lem rows n q p h)
      (take_more (n * q) q rows ∙ ap (λ k. take k rows) (sym (suc-mul n q)))

-- A client that reads the pages from the first one on, up to the first page whose metadata say
-- that there is no more, has read every row, each once and in order, for pages of 1 to 50 rows.
pub pages_complete :
    {A : Type 0} (rows : List A) (n per_page : ℕ)
    → 1 ≤ per_page
    → per_page ≤ 50
    → let p = get_offset_limit 1 (some (pos (suc n))) (some (pos per_page)) in
      ((get_metadata_by_offset_limit 1
          (length rows)
          (some (pos (suc n)))
          (some (pos per_page))
          p.offset
          p.limit).has_more
        ≡ false)
      ↔ (pages rows (suc n) per_page ≡ rows)
unfolding get_metadata_by_offset_limit
pages_complete rows n q p h =
    let e = get_offset_limit_lem n q p h in
    let all = pages_lem rows (suc n) q p h in
    let m = suc-mul n q in
    let short = length-take_le (suc n * q) rows in
    (
      λ f.
          let enough : length rows ≤ suc n * q = ground (arith, e, m, f) in
          all ∙ take_all (suc n * q) rows enough,
      λ g.
          let same : take (suc n * q) rows ≡ rows = sym all ∙ g in
          let enough : length rows ≤ suc n * q = ground (arith, ap length same, short) in
          ground (arith, e, m, enough),
    )
