-- ===== src/Comments/Creation/Laws.antt =====
-- Creating a comment keeps the tree of comments and the counters of posts.
use text.Mathlib.Text.{◌==◌ as str_eq}
use ucom_backend.Prelude.{
  ℕ, suc, ◌+◌, ◌≡◌, false, ltb, inl, inr, Bool, Option, none, some, List, length, Bool-cases,
  Option-cases,
}
use ucom_backend.Traces.State.{text_length}
use ucom_backend.Dictionary.{Dictionaries}
use ucom_backend.Social.Activities.{Contents}
use ucom_backend.Comments.State.{Comment, Discussion, Post}
use ucom_backend.Comments.Creation.{
  Body, Events, organization_for, create_new_comment, create_new_comment_on_post,
  create_new_comment_on_comment, path_of, path_below,
}
use ucom_backend.Comments.Creation.Tree.{find_comment, IsConsistent}
use ucom_backend.Comments.Creation.Placed.{IsKnown, IsKnown-of_found, with_bare-IsConsistent, made}

module _ (d : Dictionaries) (c : Contents) (events : Events) (is_team_member : ℕ → ℕ → Bool)
    (json_length : List ℕ → ℕ) (s : Discussion) where
  created :
      (body : Body) (post : Option Post) (parent : Option Comment) (user : ℕ)
      → IsConsistent s
      → IsKnown s.comments parent
      → IsConsistent
          (create_new_comment d c events is_team_member json_length body post parent user s).1
  unfolding create_new_comment
  created body post parent user k known = elim (Bool-cases (str_eq body.blockchain_id "")) [
    | inl e ↦ rw e k
    | inr e ↦ elim (Option-cases post) [
      | inl f ↦ rw (e, f) k
      | inr (p, f) ↦
          let organization = organization_for is_team_member p.organization user in
          elim (Bool-cases (ltb 255 (text_length body.blockchain_id))) [
            | inl l ↦ rw (e, f, l) k
            | inr l ↦ elim (Option-cases (path_of (suc (length s.comments)) parent)) [
              | inl g ↦
                  rw (e, f, l, g)
                    (with_bare-IsConsistent d c events is_team_member json_length s body p parent
                      organization user k)
              | inr (path, g) ↦
                  rw (e, f, l, g)
                    (made d c events is_team_member json_length s body p parent organization user k
                      path known g)
            ]
          ]
    ]
  ]

  -- Whether a comment is accepted or refused, on a post or on a comment that is there or not:
  -- every comment whose path was written keeps its place in the tree, with the path of its
  -- parent and its own id at the end and a depth of one less than the length of its path, and the
  -- counter of each post stays the number of its comments whose path was written. A comment that
  -- a failed transaction leaves without a path is not counted.
  pub create_new_comment-IsConsistent :
      (body : Body) (post : Option Post) (comment_parent_id user : ℕ)
      → IsConsistent s
      → IsConsistent
          (create_new_comment_on_post d c events is_team_member json_length body post user s).1
        × IsConsistent
            (create_new_comment_on_comment d c events is_team_member json_length body post
              comment_parent_id user s).1
  unfolding create_new_comment_on_post create_new_comment_on_comment
  create_new_comment-IsConsistent body post comment_parent_id user k = (
    created body post none user k tt,
    elim (Option-cases (find_comment comment_parent_id s.comments)) [
      | inl f ↦ rw f k
      | inr (q, f) ↦ rw f (
          created body post (some q) user k
            (IsKnown-of_found d c events is_team_member json_length s comment_parent_id q k f))
    ],
  )

  -- What an answer to a comment needs, and what it becomes.
  IsAnswer : Body → Option Post → Comment → Comment → Type 0
  IsAnswer body post q r =
      (str_eq body.blockchain_id "" ≡ false)
      × (ltb 255 (text_length body.blockchain_id) ≡ false)
      × ((p : Post) × (post ≡ some p) × (r.commentable_id ≡ p.id))
      × ((path_below (suc (length s.comments)) q.path ≡ some r.path)
          × (ltb 255 (json_length r.path) ≡ false)
          × (r.depth ≡ q.depth + 1)
          × (r.parent_id ≡ some q.id))
