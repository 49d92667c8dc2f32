-- ===== src/Comments/Creation/Tree.antt =====
-- The places of comments in the tree and the counters of posts, before and after a new comment.
use mathlib.Core.Path.{subst}
use ucom_backend.Prelude.{
  ℕ, suc, ◌+◌, ◌≤◌, ◌≡◌, ◌⊎◌, ap, ◌&&◌, inl, inr, refl, Bool, true, false, Option, none, some, List,
  [], ◌∷◌, ◌++◌, ◌==◌, if◌then◌else◌, find, select, length, All, arith, Bool-cases,
}
use ucom_backend.Comments.State.{Comment, PostStats, Discussion}
use ucom_backend.Comments.Creation.{increment_comment_count, set_path}

abbrev pub find_comment : ℕ → List Comment → Option Comment
find_comment id cs = find (λ x. x.id == id) cs

-- A comment whose path was written.
abbrev pub has_path : Comment → Bool
has_path c = elim c.path [ [] ↦ false | x ∷ xs ↦ true ]

-- The path of a comment is that of its parent with its own id at the end.
abbrev pub HasParent : List Comment → Option ℕ → Comment → Type 0
HasParent cs none c = c.path ≡ c.id ∷ []
HasParent cs (some p) c =
    (q : Comment) × (find_comment p cs ≡ some q)
    × (has_path q ≡ true)
    × (c.path ≡ q.path ++ (c.id ∷ []))

abbrev pub IsDeep : Comment → Type 0
IsDeep c = (has_path c ≡ false) ⊎ (length c.path ≡ suc c.depth)

pub record IsPlaced (cs : List Comment) (c : Comment) : Type 0 where
  pub numbered : c.id ≤ length cs
  pub deep : IsDeep c
  pub parent : (has_path c ≡ false) ⊎ HasParent cs c.parent_id c

abbrev pub comments_on : ℕ → List Comment → ℕ
comments_on post cs = length (select (λ c. has_path c && c.commentable_id == post) cs)

-- Each comment that has a path has its place below its parent, and the counter of each post is
-- the number of its comments that have one.
pub record IsConsistent (s : Discussion) : Type 0 where
  pub placed : All (IsPlaced s.comments) s.comments
  pub counted : All (λ p. p.comments_count ≡ comments_on p.post_id s.comments) s.post_stats

pub found_id :
    (n p : ℕ) (cs : List Comment) (q : Comment)
    → All (λ c. c.id ≤ n) cs
    → find_comment p cs ≡ some q
    → (p ≤ n) × (q.id ≡ p)
found_id n p [] q h e = cc
found_id n p (c ∷ cs) q (le, h) e = elim (Bool-cases (c.id == p)) [
  | inl f ↦ let same : c ≡ q = ground arith in ground arith
  | inr f ↦ found_id n p cs q h (rw f at e)
]

pub numbers : (cs ds : List Comment) → All (IsPlaced cs) ds → All (λ c. c.id ≤ length cs) ds
numbers cs [] h = tt
numbers cs (d ∷ ds) (p, h) = (p.numbered, numbers cs ds h)

pub found-IsDeep :
    (p : ℕ) (cs ds : List Comment) (q : Comment)
    → All (IsPlaced cs) ds
    → find_comment p ds ≡ some q
    → IsDeep q
found-IsDeep p cs [] q h e = cc
found-IsDeep p cs (d ∷ ds) q (k, h) e = elim (Bool-cases (d.id == p)) [
  | inl f ↦ let same : d ≡ q = ground arith in subst IsDeep same k.deep
  | inr f ↦ found-IsDeep p cs ds q h (rw f at e)
]

module _ (cs : List Comment) (all_placed : All (IsPlaced cs) cs) (new : Comment)
    (fresh : new.id ≡ suc (length cs)) where
  pub found_still :
      (p : ℕ) (q : Comment) → find_comment p cs ≡ some q → find_comment p (new ∷ cs) ≡ some q
  found_still p q h =
      let (le, _) = found_id (length cs) p cs q (numbers cs cs all_placed) h in
      let other : (new.id == p) ≡ false = ground arith in rw (other, h) refl

  pub HasParent-still : (o : Option ℕ) (c : Comment) → HasParent cs o c → HasParent (new ∷ cs) o c
  HasParent-still none c h = h
  HasParent-still (some p) c (q, f, g, e) = (q, found_still p q f, g, e)

  pub still-IsPlaced : (ds : List Comment) → All (IsPlaced cs) ds → All (IsPlaced (new ∷ cs)) ds
  still-IsPlaced [] h = tt
  still-IsPlaced (d ∷ ds) (p, h) = (
    record {
      numbered = omega (arith, p.numbered);
      deep = p.deep;
      parent = elim p.parent [
        | inl none_yet ↦ inl none_yet
        | inr h ↦ inr (HasParent-still d.parent_id d h)
      ];
    },
    still-IsPlaced ds h,
  )

-- A comment without a path is not counted.
pub counted_without_path :
    (new : Comment) (cs : List Comment) (ps : List PostStats)
    → has_path new ≡ false
    → All (λ p. p.comments_count ≡ comments_on p.post_id cs) ps
    → All (λ p. p.comments_count ≡ comments_on p.post_id (new ∷ cs)) ps
counted_without_path new cs [] bare h = tt
counted_without_path new cs (p ∷ ps) bare (e, h) =
    (rw bare e, counted_without_path new cs ps bare h)

abbrev bumped : Bool → PostStats → PostStats
bumped b p = if b then record p { comments_count = p.comments_count + 1 } else p

one_counted :
    (new : Comment) (cs : List Comment) (p : PostStats) (b : Bool)
    → has_path new ≡ true
    → (p.post_id == new.commentable_id) ≡ b
    → p.comments_count ≡ comments_on p.post_id cs
    → (bumped b p).comments_count ≡ comments_on (bumped b p).post_id (new ∷ cs)
one_counted new cs p true written f e =
    let f' : (new.commentable_id == p.post_id) ≡ true = ground arith in
    rw (written, f') (omega arith)
one_counted new cs p false written f e =
    let f' : (new.commentable_id == p.post_id) ≡ false = ground arith in rw (written, f') e

pub counted_after :
    (new : Comment) (cs : List Comment) (ps : List PostStats)
    → has_path new ≡ true
    → All (λ p. p.comments_count ≡ comments_on p.post_id cs) ps
    → All
        (λ p. p.comments_count ≡ comments_on p.post_id (new ∷ cs))
        (increment_comment_count new.commentable_id ps)
counted_after new cs [] written h = tt
counted_after new cs (p ∷ ps) written (e, h) = (
  one_counted new cs p (p.post_id == new.commentable_id) written refl e,
  counted_after new cs ps written h,
)

-- The update of the path of a comment that has just been inserted.
pub set_path_fresh :
    (id : ℕ) (path : List ℕ) (depth : ℕ) (cs : List Comment)
    → All (λ c. (c.id == id) ≡ false) cs
    → set_path id path depth cs ≡ cs
set_path_fresh id path depth [] h = refl
set_path_fresh id path depth (c ∷ cs) (e, h) =
    rw e (ap (λ ds. c ∷ ds) (set_path_fresh id path depth cs h))

pub ids_below :
    (n : ℕ) (cs : List Comment) → All (λ c. c.id ≤ n) cs → All (λ c. (c.id == suc n) ≡ false) cs
ids_below n [] h = tt
ids_below n (c ∷ cs) (le, h) = (ground arith, ids_below n cs h)
