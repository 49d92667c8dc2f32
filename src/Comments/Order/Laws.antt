-- ===== src/Comments/Order/Laws.antt =====
-- The order of comments is that of a tree read from its root.
use mathlib.Core.List.{Perm}
use mathlib.Core.List.Perm
use mathlib.Core.Path.{subst}
use ucom_backend.Prelude.{
  ℕ, suc, ◌<◌, ◌≡◌, ◌⊎◌, inl, inr, refl, Bool, true, false, not, ◌&&◌, List, [], ◌∷◌, ◌++◌, ◌-◌,
  ◌==◌, if◌then◌else◌, ltb, leb, All, arith, Bool-cases,
}
use ucom_backend.Prelude.Int.{sub_ℕ}
use ucom_backend.Comments.State.{Comment}
use ucom_backend.Comments.Order.{
  compare_paths, is_positive, comes_after, insert_sorted, sort_comments,
}

-- The order of paths.
abbrev pub le_path : List ℕ → List ℕ → Bool
le_path [] ys = true
le_path (x ∷ xs) [] = false
le_path (x ∷ xs) (y ∷ ys) = if x == y then le_path xs ys else ltb x y

abbrev pub is_prefix : List ℕ → List ℕ → Bool
is_prefix [] ys = true
is_prefix (x ∷ xs) [] = false
is_prefix (x ∷ xs) (y ∷ ys) = x == y && is_prefix xs ys

sub_positive : (x y : ℕ) → (x == y) ≡ false → is_positive (sub_ℕ x y) ≡ not (ltb x y)
sub_positive x y h = elim (Bool-cases (ltb x y)) [
  | inl l ↦ let k : leb y x ≡ false = ground arith in rw (l, k) refl
  | inr l ↦
      let k : leb y x ≡ true = ground arith in
      let lt : y < x = ground arith in
      let e : x - y ≡ suc (x - y - 1) = omega arith in rw (l, k, e) refl
]

compare_paths_lem : (a b : List ℕ) → is_positive (compare_paths a b) ≡ not (le_path a b)
compare_paths_lem [] [] = refl
compare_paths_lem [] (y ∷ ys) = refl
compare_paths_lem (x ∷ xs) [] = refl
compare_paths_lem (x ∷ xs) (y ∷ ys) = elim (Bool-cases (x == y)) [
  | inl e ↦ rw e (compare_paths_lem xs ys)
  | inr e ↦ rw e (sub_positive x y e)
]

le_path_total : (a b : List ℕ) → le_path a b ≡ false → le_path b a ≡ true
le_path_total [] ys h = cc
le_path_total (x ∷ xs) [] h = refl
le_path_total (x ∷ xs) (y ∷ ys) h = ground (arith, le_path_total xs ys)

le_path_trans : (a b c : List ℕ) → le_path a b ≡ true → le_path b c ≡ true → le_path a c ≡ true
le_path_trans [] b c h k = refl
le_path_trans (x ∷ xs) [] c h k = cc
le_path_trans (x ∷ xs) (y ∷ ys) [] h k = cc
le_path_trans (x ∷ xs) (y ∷ ys) (z ∷ zs) h k = ground (arith, le_path_trans xs ys zs)

-- What stands between a path and one of its extensions extends it too.
prefix_between :
    (p x c : List ℕ)
    → is_prefix p c ≡ true
    → le_path p x ≡ true
    → le_path x c ≡ true
    → is_prefix p x ≡ true
prefix_between [] x c h k l = refl
prefix_between (a ∷ p) [] c h k l = cc
prefix_between (a ∷ p) (b ∷ x) [] h k l = cc
prefix_between (a ∷ p) (b ∷ x) (e ∷ c) h k l = ground (arith, prefix_between p x c)

prefix_le : (p c : List ℕ) → is_prefix p c ≡ true → le_path p c ≡ true
prefix_le [] c h = refl
prefix_le (x ∷ p) [] h = cc
prefix_le (x ∷ p) (y ∷ c) h = ground (arith, prefix_le p c)

le_path_antisym : (a b : List ℕ) → le_path a b ≡ true → le_path b a ≡ true → a ≡ b
le_path_antisym [] [] h k = refl
le_path_antisym [] (y ∷ ys) h k = cc
le_path_antisym (x ∷ xs) [] h k = cc
le_path_antisym (x ∷ xs) (y ∷ ys) h k = ground (arith, le_path_antisym xs ys)

abbrev pub LeComment : Comment → Comment → Type 0
LeComment a b = le_path a.path b.path ≡ true

abbrev pub IsSorted : List Comment → Type 0
IsSorted [] = Unit
IsSorted (c ∷ cs) = All (LeComment c) cs × IsSorted cs

All-trans :
    (c d : Comment) (ds : List Comment)
    → LeComment c d
    → All (LeComment d) ds
    → All (LeComment c) ds
All-trans c d [] h k = tt
All-trans c d (e ∷ ds) h (p, k) = (le_path_trans c.path d.path e.path h p, All-trans c d ds h k)

All-insert_sorted :
    (e c : Comment) (ds : List Comment)
    → LeComment e c
    → All (LeComment e) ds
    → All (LeComment e) (insert_sorted c ds)
All-insert_sorted e c [] h k = (h, tt)
All-insert_sorted e c (d ∷ ds) h (p, k) = elim (Bool-cases (comes_after c d)) [
  | inl f ↦ rw f (p, All-insert_sorted e c ds h k)
  | inr f ↦ rw f (h, (p, k))
]

insert_sorted-IsSorted :
    (c : Comment) (ds : List Comment) → IsSorted ds → IsSorted (insert_sorted c ds)
insert_sorted-IsSorted c [] s = (tt, tt)
insert_sorted-IsSorted c (d ∷ ds) (a, s) =
    let lem = compare_paths_lem c.path d.path in
    elim (Bool-cases (comes_after c d)) [
      | inl f ↦
          let later = le_path_total c.path d.path (ground arith) in
          rw f (All-insert_sorted d c ds later a, insert_sorted-IsSorted c ds s)
      | inr f ↦
          let first : LeComment c d = ground arith in
          rw f ((first, All-trans c d ds first a), (a, s))
    ]

sort_comments-IsSorted : (cs : List Comment) → IsSorted (sort_comments cs)
unfolding sort_comments
sort_comments-IsSorted [] = tt
sort_comments-IsSorted (c ∷ cs) =
    insert_sorted-IsSorted c (sort_comments cs) (sort_comments-IsSorted cs)

insert_sorted-perm : (c : Comment) (ds : List Comment) → Perm (insert_sorted c ds) (c ∷ ds)
insert_sorted-perm c [] = Perm.rfl
insert_sorted-perm c (d ∷ ds) = elim (Bool-cases (comes_after c d)) [
  | inl f ↦ rw f (Perm.trans (Perm.cons d (insert_sorted-perm c ds)) (Perm.swap c d ds))
  | inr f ↦ rw f Perm.rfl
]

sort_comments-perm : (cs : List Comment) → Perm (sort_comments cs) cs
unfolding sort_comments
sort_comments-perm [] = Perm.rfl
sort_comments-perm (c ∷ cs) =
    Perm.trans (insert_sorted-perm c (sort_comments cs)) (Perm.cons c (sort_comments-perm cs))

-- What two places of a sorted list say of the comments in them.
IsSorted-tail : (xs ds : List Comment) → IsSorted (xs ++ ds) → IsSorted ds
IsSorted-tail [] ds s = s
IsSorted-tail (x ∷ xs) ds (a, s) = IsSorted-tail xs ds s

le_later :
    (x y : Comment) (ys zs : List Comment) → All (LeComment x) (ys ++ (y ∷ zs)) → LeComment x y
le_later x y [] zs (h, a) = h
le_later x y (z ∷ ys) zs (h, a) = le_later x y ys zs a

between :
    (p c : Comment) (ys zs : List Comment)
    → is_prefix p.path c.path ≡ true
    → All (LeComment p) (ys ++ (c ∷ zs))
    → IsSorted (ys ++ (c ∷ zs))
    → All (λ x. is_prefix p.path x.path ≡ true) ys
between p c [] zs h a s = tt
between p c (y ∷ ys) zs h (first, a) (b, s) =
    (prefix_between p.path y.path c.path h first (le_later y c ys zs b), between p c ys zs h a s)

-- In the sorted list, the comments between a comment and one below it in the tree are below
-- it as well, so the comments below a comment stand together right after it; and a comment
-- that stands after another is not above it in the tree, unless their paths are the same. The sorted
-- list holds the comments of the given one, each as often.
pub sort_comments_lem :
    (cs xs ys zs : List Comment) (x y : Comment)
    → sort_comments cs ≡ xs ++ (x ∷ (ys ++ (y ∷ zs)))
    → ((is_prefix x.path y.path ≡ false) ⊎ All (λ c. is_prefix x.path c.path ≡ true) ys)
      × ((is_prefix y.path x.path ≡ false) ⊎ (x.path ≡ y.path))
      × Perm (sort_comments cs) cs
sort_comments_lem cs xs ys zs x y e =
    let (first, rest) =
      IsSorted-tail xs (x ∷ (ys ++ (y ∷ zs))) (subst IsSorted e (sort_comments-IsSorted cs)) in
    (
      elim (Bool-cases (is_prefix x.path y.path)) [
        | inl f ↦ inr (between x y ys zs f first rest)
        | inr f ↦ inl f
      ],
      elim (Bool-cases (is_prefix y.path x.path)) [
        | inl f ↦
            inr
              (le_path_antisym x.path y.path (le_later x y ys zs first) (prefix_le y.path x.path f))
        | inr f ↦ inl f
      ],
      sort_comments-perm cs,
    )
