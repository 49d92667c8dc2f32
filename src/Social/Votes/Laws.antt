-- ===== src/Social/Votes/Laws.antt =====
-- The counters of posts and comments and the votes in the index.
use text.Mathlib.Text.{◌==◌ as str_eq}
use text.Mathlib.TextEquality.{eq_iff}
use ucom_backend.Prelude.{
  ℕ, String, ◌≡◌, ◌≢◌, ◌⊎◌, inl, inr, sym, true, false, ◌&&◌, some, List, [], ◌∷◌, map, arith, ◌==◌,
  if◌then◌else◌, All, Bool-cases,
}
use native.Mathlib.Decide.{ℕ_discrete}
use ucom_backend.Prelude.Int.{ℤ, pos, ◌+ℤ◌, ◌-ℤ◌}
use ucom_backend.Prelude.Action.{ok}
use ucom_backend.Dictionary.{Dictionaries, IsLawful}
use ucom_backend.Social.State.{next_id}
use ucom_backend.Social.Index.{IndexRow, exists, insert_row}
use ucom_backend.Social.Votes.{
  Kind, post, comment, create_user_comment, vote_activity, Content, Votes, table, set_table,
  change_vote, entity_name, vote_row, step_of, vote_transaction,
}

-- The upvotes of a content less its downvotes, from the rows of the index.
abbrev pub tally : Dictionaries → String → ℕ → List IndexRow → ℤ
tally d name id [] = pos 0
tally d name id (r ∷ rs) =
    if r.entity_id == id && str_eq r.entity_name name
    then (if r.interaction_type == d.upvote_id
        then tally d name id rs +ℤ pos 1
        else tally d name id rs -ℤ pos 1)
    else tally d name id rs

abbrev pub IsCounted : Dictionaries → String → List IndexRow → Content → Type 0
IsCounted d name votes c = c.current_vote ≡ tally d name c.id votes

-- Every counter of both tables is the tally of its votes.
abbrev pub IsTallied : Dictionaries → Votes → Type 0
IsTallied d s =
    All (IsCounted d d.posts s.votes) s.posts × All (IsCounted d d.comments s.votes) s.comments

abbrev pub IsVoteType : Dictionaries → ℕ → Type 0
IsVoteType d type = (type ≡ d.upvote_id) ⊎ (type ≡ d.downvote_id)

module _ (d : Dictionaries) (w : IsLawful d) where
  -- One more row of the voted table: the counter of its content moves with the tally.
  All-change_vote :
      (name : String) (id user type : ℕ) (votes : List IndexRow) (rows : List Content)
      → All (IsCounted d name votes) rows
      → All
          (IsCounted d name (
            record { user_id = user; entity_id = id; entity_name = name; interaction_type = type }
            ∷ votes))
          (map (change_vote (step_of d type) id) rows)
  All-change_vote name id user type votes [] h = tt
  All-change_vote name id user type votes (c ∷ cs) (h, k) =
      (ground (arith, eq_iff name name), All-change_vote name id user type votes cs k)

  -- A row of another table changes no tally.
  All-other_name :
      (name : String) (r : IndexRow) (votes : List IndexRow) (rows : List Content)
      → r.entity_name ≢ name
      → All (IsCounted d name votes) rows
      → All (IsCounted d name (r ∷ votes)) rows
  All-other_name name r votes [] p h = tt
  All-other_name name r votes (c ∷ cs) p (h, k) =
      (ground (arith, eq_iff r.entity_name name), All-other_name name r votes cs p k)

  insert_row-cons :
      (r : IndexRow) (rows : List IndexRow) {rows' : List IndexRow}
      → insert_row r rows ≡ some rows'
      → rows' ≡ r ∷ rows
  unfolding insert_row
  insert_row-cons r rows e = ground arith

  -- The state of a vote that was cast.
  abbrev pub after_vote : Kind → ℕ → ℕ → ℕ → String → ℕ → Votes → Votes
  after_vote kind user id type signed event s =
      let t = set_table kind (map (change_vote (step_of d type) id) (table kind s)) s in
      let u : Votes = record t {
        activities = vote_activity d kind type signed user id event ∷ s.activities;
        votes = vote_row d kind user id type ∷ s.votes;
      } in
      (create_user_comment d kind user id type u).1

  -- A vote of a kind that is known is cast unless the index holds one of the user already.
  pub vote_transaction_lem :
      (kind : Kind) (user id type : ℕ) (signed : String) (event : ℕ) (s : Votes)
      → IsVoteType d type
      → id ≢ 0
      → exists user id (entity_name d kind) s.votes ≡ false
      → vote_transaction d kind user id type signed event s
        ≡ (ok (next_id s.activities), after_vote kind user id type signed event s)
  unfolding vote_transaction insert_row
  vote_transaction_lem post user id type signed event s t p h = ground arith
  vote_transaction_lem comment user id type signed event s t p h = ground arith

  -- A vote that the index refuses leaves no trace.
  vote_transaction_refused :
      (kind : Kind) (user id type : ℕ) (signed : String) (event : ℕ) (s : Votes)
      → (id ≡ 0) ⊎ (exists user id (entity_name d kind) s.votes ≡ true)
      → (vote_transaction d kind user id type signed event s).1 ≡ s
  unfolding vote_transaction insert_row
  vote_transaction_refused post user id type signed event s h = ground arith
  vote_transaction_refused comment user id type signed event s h = ground arith

  after_vote-IsTallied :
      (kind : Kind) (user id type : ℕ) (signed : String) (event : ℕ) (s : Votes)
      → IsTallied d s
      → IsTallied d (after_vote kind user id type signed event s)
  after_vote-IsTallied post user id type signed event s (h, k) = (
    All-change_vote d.posts id user type s.votes s.posts h,
    All-other_name d.comments (vote_row d post user id type) s.votes s.comments w.posts_ne_comments
        k,
  )
  after_vote-IsTallied comment user id type signed event s (h, k) = (
    All-other_name d.posts (vote_row d comment user id type) s.votes s.posts
        (λ e. w.posts_ne_comments (sym e)) h,
    All-change_vote d.comments id user type s.votes s.comments k,
  )

  -- A transaction of an upvote or a downvote, committed or rolled back, keeps every counter of
  -- posts and comments equal to the tally of the votes, with no precondition checked.
  pub vote_transaction-IsTallied :
      (kind : Kind) (user id type : ℕ) (signed : String) (event : ℕ) (s : Votes)
      → IsVoteType d type
      → IsTallied d s
      → IsTallied d (vote_transaction d kind user id type signed event s).1
  vote_transaction-IsTallied kind user id type signed event s t h =
      elim (Bool-cases (exists user id (entity_name d kind) s.votes)) [
        | inl old ↦ rw (vote_transaction_refused kind user id type signed event s (inr old)) h
        | inr new ↦ elim (ℕ_discrete id 0) [
          | yes z ↦ rw (vote_transaction_refused kind user id type signed event s (inl z)) h
          | no p ↦
              rw (vote_transaction_lem kind user id type signed event s t p new)
                (after_vote-IsTallied kind user id type signed event s h)
        ]
      ]
