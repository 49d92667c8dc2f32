-- ===== src/Tests/Votes.antt =====
-- Votes for one post of user 7.
use text.Mathlib.TextEquality.{eq_iff}
use ucom_backend.Prelude.{◌≡◌, ◌↔◌, inl, refl, [], ◌∷◌, arith, ap}
use ucom_backend.Prelude.Int.{pos}
use ucom_backend.Prelude.Action.{Result, ok, err, bad_request}
use ucom_backend.Dictionary.{sample_dictionaries as d, sample_dictionaries-IsLawful as lawful}
use ucom_backend.Social.Votes.{post, Content, Votes, user_votes, vote_transaction}
use ucom_backend.Social.Votes.Laws.{IsTallied, IsVoteType, vote_transaction-IsTallied}
use ucom_backend.Social.Votes.Requests.{CanVote, user_votes_iff, vote_twice, user_votes_lem}

abbrev first_post : Content
first_post = record { id = 3; user_id = 7; organization_id = 0; current_vote = pos 0 }

abbrev start : Votes
start = record {
  posts = first_post ∷ [];
  comments = [];
  votes = [];
  activities = [];
  user_comments = [];
  jobs = [];
}

can : CanVote d lawful post 1 3 "signed" start first_post
can = record {
  not_yet = refl;
  found = refl;
  not_own = omega arith;
  is_signed = ground (arith, eq_iff "signed" "");
  has_id = omega arith;
}

votes_test : (user_votes d post 1 3 2 "signed" start).0 ≡ ok tt
votes_test =
    ap (λ (r : Result (Unit {0}) × Votes). r.0)
      (user_votes_lem d lawful post 1 3 2 "signed" start first_post (inl refl) can)

user_votes_iff_example :
    ((user_votes d post 1 3 2 "signed" start).0 ≡ ok tt)
    ↔ ((c : Content) × CanVote d lawful post 1 3 "signed" start c × IsVoteType d 2)
user_votes_iff_example = user_votes_iff d lawful post 1 3 2 "signed" start

vote_twice_example : user_votes d post 1 3 4 "signed" (user_votes d post 1 3 2 "signed" start).1 ≡ (
  err (bad_request "Vote duplication is not allowed"),
  (user_votes d post 1 3 2 "signed" start).1,
)
vote_twice_example = vote_twice d lawful post 1 3 2 4 "signed" "signed" start votes_test

vote_transaction-IsTallied_example : IsTallied d (vote_transaction d post 1 3 2 "signed" 22 start).1
vote_transaction-IsTallied_example =
    vote_transaction-IsTallied d lawful post 1 3 2 "signed" 22 start (inl refl) ((refl, tt), tt)
