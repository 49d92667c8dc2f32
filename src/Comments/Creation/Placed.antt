-- ===== src/Comments/Creation/Placed.antt =====
-- A new comment before and after the transaction that writes its path.
use mathlib.Core.Path.{subst}
use ucom_backend.Prelude.{
  ℕ, suc, ◌≡◌, ◌++◌, All, ap, true, false, ltb, ◌==◌, inl, inr, refl, sym, Bool, Option, none, some,
  List, [], ◌∷◌, length, length-append, arith, Bool-cases,
}
use ucom_backend.Prelude.Action.{transaction, pure, ◌>>=◌, ◌>>◌}
use ucom_backend.Dictionary.{Dictionaries}
use ucom_backend.Social.Activities.{Contents}
use ucom_backend.Comments.State.{Comment, Discussion, Post}
use ucom_backend.Comments.Creation.{
  Body, Events, new_comment, write_comment, create_new_comment, socially, content_job, with_path,
  set_path, path_of, path_below, depth_of, increment_comment_count, publish_with_content_creation,
}
use ucom_backend.Comments.Creation.Tree.{
  find_comment, IsPlaced, IsConsistent, found_id, numbers, found-IsDeep, found_still,
  still-IsPlaced, counted_after, counted_without_path, comments_on, has_path, IsDeep,
  set_path_fresh, ids_below,
}

abbrev is_written : List ℕ → Bool
is_written ps = elim ps [ [] ↦ false | x ∷ xs ↦ true ]

is_written-append : (ps : List ℕ) (n : ℕ) → is_written (ps ++ (n ∷ [])) ≡ true
is_written-append [] n = refl
is_written-append (p ∷ ps) n = refl

path_below_lem :
    (id : ℕ) (q : Comment) (path : List ℕ)
    → path_below id q.path ≡ some path
    → (has_path q ≡ true) × (q.path ++ (id ∷ []) ≡ path)
path_below_lem id q path h = path_cases q.path refl
  where
    path_cases : (ps : List ℕ) → q.path ≡ ps → (has_path q ≡ true) × (q.path ++ (id ∷ []) ≡ path)
    path_cases [] e = absurd (cc (rw e at h))
    path_cases (x ∷ xs) e = (rw e refl, ground (arith, rw e at h))

-- The parent of a new comment, if it has one, is a comment of the table.
abbrev pub IsKnown : List Comment → Option Comment → Type 0
IsKnown cs none = Unit
IsKnown cs (some parent) = (find_comment parent.id cs ≡ some parent) × IsDeep parent

module _ (d : Dictionaries) (c : Contents) (events : Events) (is_team_member : ℕ → ℕ → Bool)
    (json_length : List ℕ → ℕ) (s : Discussion) where
  pub IsKnown-of_found :
      (id : ℕ) (q : Comment)
      → IsConsistent s
      → find_comment id s.comments ≡ some q
      → IsKnown s.comments (some q)
  IsKnown-of_found id q k f =
      let (_, same) = found_id _ id s.comments q (numbers s.comments s.comments k.placed) f in
      (
        subst (λ i. find_comment i s.comments ≡ some q) (sym same) f,
        found-IsDeep id s.comments s.comments q k.placed f,
      )

  module _ (body : Body) (post : Post) (parent : Option Comment) (organization : Option ℕ)
      (user : ℕ) (k : IsConsistent s) where
    abbrev pub bare : Comment
    bare = new_comment s.comments body post parent organization user

    abbrev pub placed : List ℕ → Comment
    placed path = with_path path (depth_of parent) bare

    -- The row that has no path yet.
    abbrev pub with_bare : Discussion
    with_bare = record s { comments = bare ∷ s.comments }

    pub with_bare-IsConsistent : IsConsistent with_bare
    with_bare-IsConsistent = record {
      placed = (
        record { numbered = omega arith; deep = inl refl; parent = inl refl },
        still-IsPlaced s.comments k.placed bare refl s.comments k.placed,
      );
      counted = counted_without_path bare s.comments s.post_stats refl k.counted;
    }

    comments_after :
        (path : List ℕ)
        → set_path bare.id path (depth_of parent) (bare ∷ s.comments) ≡ placed path ∷ s.comments
    comments_after path =
        let same : (bare.id == bare.id) ≡ true = ground arith in
        rw same (
          ap (λ cs. placed path ∷ cs)
            (set_path_fresh bare.id path (depth_of parent) s.comments
              (ids_below (length s.comments) s.comments (numbers s.comments s.comments k.placed))))

  placed-IsPlaced :
      (body : Body) (post : Post) (parent : Option Comment) (organization : Option ℕ) (user : ℕ)
      (k : IsConsistent s) (path : List ℕ)
      → IsKnown s.comments parent
      → path_of (suc (length s.comments)) parent ≡ some path
      → IsPlaced
          (placed body post parent organization user k path ∷ s.comments)
          (placed body post parent organization user k path)
        × (has_path (placed body post parent organization user k path) ≡ true)
  placed-IsPlaced body post none organization user k path known h =
      let same : suc (length s.comments) ∷ [] ≡ path = ground arith in
      subst
        (λ ps.
          IsPlaced (placed body post none organization user k ps ∷ s.comments)
            (placed body post none organization user k ps)
          × (has_path (placed body post none organization user k ps) ≡ true))
        same (record { numbered = omega arith; deep = inr (omega arith); parent = inr refl }, refl)
  placed-IsPlaced body post (some q) organization user k path (found, deep) h =
      let n : ℕ = suc (length s.comments) in
      let (there, same) = path_below_lem n q path h in
      let long : length q.path ≡ suc q.depth = elim deep [ inl bad ↦ cc | inr l ↦ l ] in
      subst
        (λ ps.
          IsPlaced (placed body post (some q) organization user k ps ∷ s.comments)
            (placed body post (some q) organization user k ps)
          × (has_path (placed body post (some q) organization user k ps) ≡ true))
        same
        (
          record {
            numbered = omega arith;
            deep = inr (omega (arith, length-append q.path (n ∷ []), long));
            parent = inr (
              q,
              found_still s.comments k.placed
                  (placed body post (some q) organization user k (q.path ++ (n ∷ []))) refl q.id q
                  found,
              there,
              refl,
            );
          },
          is_written-append q.path n,
        )

  -- The table once the path is written and the comment counted.
  module _ (body : Body) (post : Post) (parent : Option Comment) (organization : Option ℕ)
      (user : ℕ) (k : IsConsistent s) (path : List ℕ) (known : IsKnown s.comments parent)
      (h : path_of (suc (length s.comments)) parent ≡ some path) where
    abbrev comments_then : List Comment
    comments_then =
        set_path (suc (length s.comments)) path (depth_of parent)
          (bare body post parent organization user k ∷ s.comments)

    placed_then : All (IsPlaced comments_then) comments_then
    placed_then =
        subst (λ cs. All (IsPlaced cs) cs)
          (sym (comments_after body post parent organization user k path))
          (
            (placed-IsPlaced body post parent organization user k path known h).0,
            still-IsPlaced s.comments k.placed (placed body post parent organization user k path)
                refl s.comments k.placed,
          )

    counted_then :
        All
          (λ p. p.comments_count ≡ comments_on p.post_id comments_then)
          (increment_comment_count post.id s.post_stats)
    counted_then =
        subst
          (λ cs.
            All (λ p. p.comments_count ≡ comments_on p.post_id cs)
              (increment_comment_count post.id s.post_stats))
          (sym (comments_after body post parent organization user k path))
          (counted_after (placed body post parent organization user k path) s.comments s.post_stats
            (placed-IsPlaced body post parent organization user k path known h).1 k.counted)

  -- The transaction, which leaves the row without a path when it fails, and the job.
  pub made :
      (body : Body) (p : Post) (parent : Option Comment) (organization : Option ℕ) (user : ℕ)
      (k : IsConsistent s) (path : List ℕ)
      → IsKnown s.comments parent
      → path_of (suc (length s.comments)) parent ≡ some path
      → IsConsistent
          ((transaction (
                write_comment d c events is_team_member json_length
                  (bare body p parent organization user k)
                  path
                  body
                  p
                  parent
                  organization
                  user)
              >>= λ activity.
                  socially (
                    publish_with_content_creation d c events is_team_member json_length
                      (content_job d c events is_team_member json_length activity))
                  >> pure (placed body p parent organization user k path))
            (with_bare body p parent organization user k)).1
  unfolding create_new_comment
  made body p none organization user k path known h =
      elim (Bool-cases (ltb 255 (json_length path))) [
        | inl e ↦ rw e (with_bare-IsConsistent body p none organization user k)
        | inr e ↦ rw e (record {
          placed = placed_then body p none organization user k path known h;
          counted = counted_then body p none organization user k path known h;
        })
      ]
  made body p (some q) organization user k path known h =
      elim (Bool-cases (ltb 255 (json_length path))) [
        | inl e ↦ rw e (with_bare-IsConsistent body p (some q) organization user k)
        | inr e ↦ rw e (record {
          placed = placed_then body p (some q) organization user k path known h;
          counted = counted_then body p (some q) organization user k path known h;
        })
      ]
