-- ===== src/Social/Nodes.antt =====
-- Votes for the nodes of the blockchain, brought in line with it:
-- lib/blockchain-nodes/service/blockchain-cache-service.js for one type of nodes. The answer of the
-- blockchain and the two lookups by name and by title are parameters, and so are the events of an
-- upvote and of its cancelling; the rows of the nodes themselves are left out.
pub mod Upvotes
pub mod Voters
pub mod Laws
use text.Mathlib.Text.{◌==◌ as str_eq}
use ucom_backend.Prelude.{
  ℕ, String, Bool, true, false, not, ◌&&◌, ◌||◌, Option, none, some, List, [], ◌∷◌, ◌++◌, ◌==◌,
  if◌then◌else◌, any, select, includes,
}
use ucom_backend.Prelude.Action.{Action, Result, ok, pure, ◌>>=◌, ◌>>◌}
use ucom_backend.Dictionary.{Dictionaries}
use ucom_backend.Social.State.{Activity, Social}
use ucom_backend.Social.Activities.{
  Contents, process_user_votes_changing_for_block_producers,
  process_user_cancel_votes_for_block_producers,
}

-- A voter of the blockchain, with the titles of the nodes voted for.
pub record Voter : Type 0 where
  pub account_name : String
  pub nodes : List String

-- An element of votersToProcess.
pub record Prepared : Type 0 where
  pub user_id : ℕ
  pub nodes : List ℕ
  pub old_nodes : List ℕ

-- A row of findAllUpvoteUsersBlockchainNodesActivity.
pub record Upvote : Type 0 where
  pub user_id_from : ℕ
  pub entity_id_to : ℕ

-- `_.difference`
abbrev pub difference : List ℕ → List ℕ → List ℕ
difference xs ys = select (λ x. not (includes x ys)) xs

module _ (up down : ℕ) where
  abbrev pub is_event : Activity → Bool
  is_event a = a.event_id == up || a.event_id == down

  -- the columns of DISTINCT ON
  abbrev pub is_same_vote : Activity → Activity → Bool
  is_same_vote a b =
      a.user_id_from == b.user_id_from
      && (a.entity_id_to == b.entity_id_to
          && (str_eq a.entity_name b.entity_name && a.activity_group_id == b.activity_group_id))

  -- findAllUpvoteUsersBlockchainNodesActivity: of each vote the newest row, where it is an upvote.
  abbrev pub newest_upvotes : List Activity → List Activity → List Upvote
  newest_upvotes seen [] = []
  newest_upvotes seen (a ∷ rest) =
      if is_event a && not (any (is_same_vote a) seen)
      then (if a.event_id == up
          then record { user_id_from = a.user_id_from; entity_id_to = a.entity_id_to }
            ∷ newest_upvotes (a ∷ seen) rest
          else newest_upvotes (a ∷ seen) rest)
      else newest_upvotes seen rest

  unfoldable pub find_all_upvote_users_activity : List Activity → List Upvote
  find_all_upvote_users_activity = newest_upvotes []

module _ (user_id_of node_id_of : String → Option ℕ) where
  -- Titles that are not in the table are skipped.
  abbrev pub known_nodes : List String → List ℕ
  known_nodes [] = []
  known_nodes (t ∷ ts) =
      let rest = known_nodes ts in elim (node_id_of t) [ none ↦ rest | some k ↦ k ∷ rest ]

  -- `votersToProcess[voter.user_id] = voter`
  abbrev pub set_voter : Prepared → List Prepared → List Prepared
  set_voter p [] = p ∷ []
  set_voter p (q ∷ qs) = if q.user_id == p.user_id then p ∷ qs else q ∷ set_voter p qs

  -- The first loop; voters without a user are skipped.
  abbrev pub set_voters : List Voter → List Prepared → List Prepared
  set_voters [] ps = ps
  set_voters (v ∷ vs) ps = elim (user_id_of v.account_name) [
    | none ↦ set_voters vs ps
    | some k ↦
        set_voters vs
          (set_voter (record { user_id = k; nodes = known_nodes v.nodes; old_nodes = [] }) ps)
  ]

  -- The second loop: addNewVoterWithEmptyNodes where the user is not there yet.
  abbrev pub add_old_node : Upvote → List Prepared → List Prepared
  add_old_node a [] =
      record { user_id = a.user_id_from; nodes = []; old_nodes = a.entity_id_to ∷ [] } ∷ []
  add_old_node a (p ∷ ps) =
      if p.user_id == a.user_id_from
      then record p { old_nodes = p.old_nodes ++ (a.entity_id_to ∷ []) } ∷ ps
      else p ∷ add_old_node a ps

  abbrev pub add_old_nodes : List Upvote → List Prepared → List Prepared
  add_old_nodes [] ps = ps
  add_old_nodes (a ∷ rest) ps = add_old_nodes rest (add_old_node a ps)

  unfoldable pub prepare_voters_to_process : List Upvote → List Voter → List Prepared
  prepare_voters_to_process current voters = add_old_nodes current (set_voters voters [])

  module _ (d : Dictionaries) (c : Contents) (up down : ℕ) where
    -- prepareUsersActivityPromises for one voter: with no nodes to write, nothing is written
    unfoldable pub process_voter : Prepared → Action Social (Unit {0})
    process_voter p = do
      process_user_votes_changing_for_block_producers d c p.user_id (difference p.nodes p.old_nodes)
          up
      process_user_cancel_votes_for_block_producers d c p.user_id (difference p.old_nodes p.nodes)
          down

    unfoldable pub process_voters : List Prepared → Action Social (Unit {0})
    process_voters [] = pure tt
    process_voters (p ∷ ps) = do process_voter p; process_voters ps

    unfoldable pub process_single_blockchain_nodes_type : List Voter → Action Social (Unit {0})
    process_single_blockchain_nodes_type voters s =
        process_voters
          (prepare_voters_to_process (find_all_upvote_users_activity up down s.activities) voters) s
