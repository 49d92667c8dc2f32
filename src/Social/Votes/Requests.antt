-- ===== src/Social/Votes/Requests.antt =====
-- Whole vote requests: when a vote is cast, the counter that is answered, and that a user has
-- one vote for a content.
use text.Mathlib.TextEquality.{eq_iff}
use ucom_backend.Prelude.{
  ℕ, String, ◌≡◌, ◌≢◌, ◌↔◌, inl, inr, refl, ap, ◌∙◌, true, false, none, some, List, [], ◌∷◌, map,
  arith, ◌==◌, Bool-cases, Option-cases,
}
use ucom_backend.Prelude.Int.{ℤ, pos, ◌+ℤ◌, ◌-ℤ◌}
use ucom_backend.Prelude.Action.{Result, ok, err, bad_request, run_cases}
use ucom_backend.Dictionary.{Dictionaries, IsLawful}
use ucom_backend.Social.Index.{exists, insert_row}
use ucom_backend.Social.State.{next_id, contains, get_eos_version}
use ucom_backend.Social.Votes.{
  Kind, post, comment, Content, Votes, table, change_vote, entity_name, step_of, find_one_by_id,
  get_event_id, check_vote_preconditions, vote_transaction, user_votes, user_upvotes,
  user_downvotes,
}
use ucom_backend.Social.Votes.Laws.{IsVoteType, after_vote, vote_transaction_lem}

-- The content that a search by id finds, and what the search finds after a vote.
find_one_id :
    (id : ℕ) (rows : List Content) (c : Content) → find_one_by_id id rows ≡ some c → c.id ≡ id
find_one_id id [] c e = cc
find_one_id id (r ∷ rows) c e = elim (Bool-cases (r.id == id)) [
  | inl same ↦ ground arith
  | inr other ↦ find_one_id id rows c (ground arith)
]

find_one-change_vote :
    (f : ℤ → ℤ) (id : ℕ) (rows : List Content) (c : Content)
    → find_one_by_id id rows ≡ some c
    → find_one_by_id id (map (change_vote f id) rows)
      ≡ some (record c { current_vote = f c.current_vote })
find_one-change_vote f id [] c e = cc
find_one-change_vote f id (r ∷ rows) c e = elim (Bool-cases (r.id == id)) [
  | inl same ↦ ground arith
  | inr other ↦ ground (arith, find_one-change_vote f id rows c)
]

module _ (d : Dictionaries) (w : IsLawful d) where
  -- The votes that the services accept.
  pub record CanVote (kind : Kind) (user id : ℕ) (signed : String) (s : Votes) (c : Content)
      : Type 0 where
    pub not_yet : exists user id (entity_name d kind) s.votes ≡ false
    pub found : find_one_by_id id (table kind s) ≡ some c
    pub not_own : c.user_id ≢ user
    pub is_signed : signed ≢ ""
    pub has_id : id ≢ 0

  abbrev pub event_of : Kind → ℕ → Content → ℕ
  event_of kind type c = elim (get_event_id d kind type c) [ none ↦ 0 | some e ↦ e ]

  event_lem :
      (kind : Kind) (type : ℕ) (c : Content)
      → IsVoteType d type
      → get_event_id d kind type c ≡ some (event_of kind type c)
  unfolding get_event_id
  event_lem post type c h = ground arith
  event_lem comment type c h = ground arith

  check_passes :
      (kind : Kind) (user id : ℕ) (signed : String) (s : Votes) (c : Content)
      → CanVote kind user id signed s c
      → check_vote_preconditions d kind user id signed s ≡ (ok c, s)
  unfolding check_vote_preconditions
  check_passes kind user id signed s c can = ground (arith, eq_iff signed "")

  -- The state after a vote: the vote is cast, and one job is queued.
  abbrev pub after_request : Kind → ℕ → ℕ → ℕ → String → Content → Votes → Votes
  after_request kind user id type signed c s =
      record (after_vote d w kind user id type signed (event_of kind type c) s) {
        jobs =
            record {
              activity_id = next_id s.activities;
              eos_js_v2 = contains signed "serializedTransaction";
            }
            ∷ s.jobs;
      }

  after_vote-jobs :
      (kind : Kind) (user id type : ℕ) (signed : String) (event : ℕ) (s : Votes)
      → (after_vote d w kind user id type signed event s).jobs ≡ s.jobs
  after_vote-jobs post user id type signed event s = refl
  after_vote-jobs comment user id type signed event s = refl

  -- A vote of a user who may vote is cast, whatever its kind.
  pub user_votes_lem :
      (kind : Kind) (user id type : ℕ) (signed : String) (s : Votes) (c : Content)
      → IsVoteType d type
      → CanVote kind user id signed s c
      → user_votes d kind user id type signed s
        ≡ (ok tt, after_request kind user id type signed c s)
  unfolding user_votes get_eos_version
  user_votes_lem kind user id type signed s c t can =
      let same = find_one_id id (table kind s) c can.found in
      let cast =
        vote_transaction_lem d w kind user id type signed (event_of kind type c) s t can.has_id
          can.not_yet in
      ground (
        arith,
        check_passes kind user id signed s c can,
        event_lem kind type c t,
        same,
        cast,
        eq_iff signed "",
        after_vote-jobs kind user id type signed (event_of kind type c) s,
      )

  -- The counter that a vote leaves in the table.
  find_one-after_request :
      (kind : Kind) (user id type : ℕ) (signed : String) (s : Votes) (c : Content)
      → find_one_by_id id (table kind s) ≡ some c
      → find_one_by_id id (table kind (after_request kind user id type signed c s))
        ≡ some (record c { current_vote = step_of d type c.current_vote })
  find_one-after_request post user id type signed s c h =
      find_one-change_vote (step_of d type) id s.posts c h
  find_one-after_request comment user id type signed s c h =
      find_one-change_vote (step_of d type) id s.comments c h

  -- An upvote by a user who may vote is answered with the counter one higher.
  user_upvotes_lem :
      (kind : Kind) (user id : ℕ) (signed : String) (s : Votes) (c : Content)
      → CanVote kind user id signed s c
      → user_upvotes d kind user id signed s
        ≡ (ok (some (c.current_vote +ℤ pos 1)), after_request kind user id d.upvote_id signed c s)
  unfolding user_upvotes
  user_upvotes_lem kind user id signed s c can =
      let cast = user_votes_lem kind user id d.upvote_id signed s c (inl refl) can in
      let counter = find_one-after_request kind user id d.upvote_id signed s c can.found in
      rw (cast, counter) (ground arith)

  -- A downvote by a user who may vote is answered with the counter one lower.
  user_downvotes_lem :
      (kind : Kind) (user id : ℕ) (signed : String) (s : Votes) (c : Content)
      → CanVote kind user id signed s c
      → user_downvotes d kind user id signed s
        ≡ (ok (some (c.current_vote -ℤ pos 1)), after_request kind user id d.downvote_id signed c s)
  unfolding user_downvotes
  user_downvotes_lem kind user id signed s c can =
      let cast = user_votes_lem kind user id d.downvote_id signed s c (inr refl) can in
      let counter = find_one-after_request kind user id d.downvote_id signed s c can.found in
      let other : (d.downvote_id == d.upvote_id) ≡ false = ground (arith, w.upvote_ne_downvote) in
      rw (cast, counter) (ground arith)

  -- What an accepted request met: every condition of `CanVote`, and a known kind of vote.
  vote_zero_refused :
      (kind : Kind) (user id type : ℕ) (signed : String) (event : ℕ) (s : Votes) (r : ℕ)
      → id ≡ 0
      → ¬ ((vote_transaction d kind user id type signed event s).0 ≡ ok r)
  unfolding vote_transaction insert_row
  vote_zero_refused post user id type signed event s r z h = ground arith
  vote_zero_refused comment user id type signed event s r z h = ground arith

  event_known :
      (kind : Kind) (type : ℕ) (c : Content) {e : ℕ}
      → get_event_id d kind type c ≡ some e
      → IsVoteType d type
  unfolding get_event_id
  event_known post type c h = ground arith
  event_known comment type c h = ground arith

  check_met :
      (kind : Kind) (user id : ℕ) (signed : String) (s : Votes) {c : Content} {s' : Votes}
      → check_vote_preconditions d kind user id signed s ≡ (ok c, s')
      → (exists user id (entity_name d kind) s.votes ≡ false)
        × (find_one_by_id id (table kind s) ≡ some c)
        × (c.user_id ≢ user)
        × (signed ≢ "")
        × (s' ≡ s)
  unfolding check_vote_preconditions
  check_met kind user id signed s h = ground (arith, eq_iff signed "")

  -- A vote is accepted only from a user who may vote: an accepted request met every condition.
  user_votes_needs :
      (kind : Kind) (user id type : ℕ) (signed : String) (s : Votes)
      → (user_votes d kind user id type signed s).0 ≡ ok tt
      → (c : Content) × CanVote kind user id signed s c × IsVoteType d type
  unfolding user_votes
  user_votes_needs kind user id type signed s h =
      elim (run_cases (check_vote_preconditions d kind user id signed s)) [
        | inr (e, t, failed) ↦ ground arith
        | inl (c, t, passed) ↦
            let (new, found, not_own, is_signed, same) = check_met kind user id signed s passed in
            elim (Option-cases (get_event_id d kind type c)) [
              | inl no_event ↦ ground arith
              | inr (event, known) ↦ (
                c,
                record {
                  not_yet = new;
                  found = found;
                  not_own = not_own;
                  is_signed = is_signed;
                  has_id = λ z.
                      elim (run_cases (vote_transaction d kind user c.id type signed event t)) [
                        | inl (r, u, done) ↦
                            vote_zero_refused kind user c.id type signed event t r
                              (find_one_id id (table kind s) c found ∙ z)
                              (ap (λ (x : Result ℕ × Votes). x.0) done)
                        | inr (f, u, failed) ↦ ground arith
                      ];
                },
                event_known kind type c known,
              )
            ]
      ]

  user_votes_duplicate :
      (kind : Kind) (user id type : ℕ) (signed : String) (s : Votes)
      → exists user id (entity_name d kind) s.votes ≡ true
      → user_votes d kind user id type signed s
        ≡ (err (bad_request "Vote duplication is not allowed"), s)
  unfolding user_votes check_vote_preconditions
  user_votes_duplicate kind user id type signed s h = ground arith

  voted :
      (kind : Kind) (user id type : ℕ) (signed : String) (s : Votes) (c : Content)
      → exists user id (entity_name d kind) (after_request kind user id type signed c s).votes
        ≡ true
  voted post user id type signed s c = ground (arith, eq_iff d.posts d.posts)
  voted comment user id type signed s c = ground (arith, eq_iff d.comments d.comments)

  -- A vote is accepted exactly from a user who may vote (an id that is not zero, content that is
  -- there and not the user's own, a signed transaction and no vote before), with the type of an
  -- upvote or a downvote.
  pub user_votes_iff :
      (kind : Kind) (user id type : ℕ) (signed : String) (s : Votes)
      → ((user_votes d kind user id type signed s).0 ≡ ok tt)
        ↔ ((c : Content) × CanVote kind user id signed s c × IsVoteType d type)
  user_votes_iff kind user id type signed s = (
    λ h. user_votes_needs kind user id type signed s h,
    λ (c, can, t). ap (λ r. r.0) (user_votes_lem kind user id type signed s c t can),
  )

  -- After an accepted vote the same user's next vote on the same content, of either kind, is
  -- refused as a duplicate, and changes nothing.
  pub vote_twice :
      (kind : Kind) (user id type type' : ℕ) (signed signed' : String) (s : Votes)
      → (user_votes d kind user id type signed s).0 ≡ ok tt
      → let s' = (user_votes d kind user id type signed s).1 in
        user_votes d kind user id type' signed' s'
        ≡ (err (bad_request "Vote duplication is not allowed"), s')
  vote_twice kind user id type type' signed signed' s h =
      let (c, can, t) = user_votes_needs kind user id type signed s h in
      rw (user_votes_lem kind user id type signed s c t can) (
        user_votes_duplicate kind user id type' signed' (after_request kind user id type signed c s)
          (voted kind user id type signed s c))
