-- ===== src/Social/Nodes/Laws.antt =====
-- The votes for nodes after a run of blockchain-cache-service.js.
use ucom_backend.Prelude.{
  ℕ, String, ◌≡◌, ◌≢◌, inl, inr, refl, ◌∙◌, true, false, not, ◌&&◌, ◌||◌, Option, List, [], ◌∷◌,
  ◌==◌, if◌then◌else◌, includes, includes-select, arith, Bool-cases,
}
use ucom_backend.Prelude.Action.{Action, ok}
use ucom_backend.Dictionary.{Dictionaries}
use ucom_backend.Social.State.{Activity, Social, create_new_activity}
use ucom_backend.Social.Activities.{
  Contents, node_vote, node_cancel, bulk_create_new_activity,
  process_user_votes_changing_for_block_producers, process_user_cancel_votes_for_block_producers,
}
use ucom_backend.Social.Nodes.{
  Voter, Prepared, difference, newest_upvotes, find_all_upvote_users_activity, set_voters,
  add_old_nodes, prepare_voters_to_process, process_voter, process_voters,
  process_single_blockchain_nodes_type,
}
use ucom_backend.Social.Nodes.Upvotes.{is_voted, IsNodeHistory, newest_upvotes-is_listed}
use ucom_backend.Social.Nodes.Voters.{
  has_user, wants, had, HasDistinctUsers, no_user, add_old_nodes_lem, set_voters_lem, is_wanted,
  HasDistinctVoters,
}

module _ (d : Dictionaries) (c : Contents) (up down : ℕ) (ne : up ≢ down) where
  -- The votes after one bulk write of upvotes, and of cancellings.
  bulk_votes :
      (w : ℕ) (ks : List ℕ) (u n : ℕ) (s : Social)
      → is_voted up down u n
          (process_user_votes_changing_for_block_producers d c w ks up s).1.activities
        ≡ (w == u && includes n ks || is_voted up down u n s.activities)
  unfolding process_user_votes_changing_for_block_producers create_new_activity
  bulk_votes w [] u n s = ground arith
  bulk_votes w (k ∷ ks) u n s =
      let later = bulk_votes w ks u n (create_new_activity (node_vote d c w up k) s).1 in
      ground (arith, later)

  bulk_cancels :
      (w : ℕ) (ks : List ℕ) (u n : ℕ) (s : Social)
      → is_voted up down u n
          (process_user_cancel_votes_for_block_producers d c w ks down s).1.activities
        ≡ (not (w == u && includes n ks) && is_voted up down u n s.activities)
  unfolding process_user_cancel_votes_for_block_producers create_new_activity
  bulk_cancels w [] u n s = ground arith
  bulk_cancels w (k ∷ ks) u n s =
      let later = bulk_cancels w ks u n (create_new_activity (node_cancel d c w down k) s).1 in
      ground (arith, later)

  bulk_ok :
      (build : ℕ → Activity) (ks : List ℕ) (s : Social)
      → (bulk_create_new_activity d c build ks s).0 ≡ ok tt
  bulk_ok build [] s = refl
  bulk_ok build (k ∷ ks) s = bulk_ok build ks (create_new_activity (build k) s).1

  module _ (user_id_of node_id_of : String → Option ℕ) where
    abbrev voter : Prepared → Action Social (Unit {0})
    voter = process_voter user_id_of node_id_of d c up down

    -- After the turn of a voter: the votes before, less the cancelled and with the new ones.
    process_voter_lem :
        (p : Prepared) (u n : ℕ) (s : Social)
        → ((voter p s).0 ≡ ok tt)
          × (is_voted up down u n (voter p s).1.activities ≡ (
              not (p.user_id == u && includes n (difference p.old_nodes p.nodes))
              && (p.user_id == u && includes n (difference p.nodes p.old_nodes)
                  || is_voted up down u n s.activities)))
    unfolding process_voter process_user_votes_changing_for_block_producers
        process_user_cancel_votes_for_block_producers
    process_voter_lem p u n s =
        let first = bulk_ok (node_vote d c p.user_id up) (difference p.nodes p.old_nodes) s in
        let t =
          (bulk_create_new_activity d c (node_vote d c p.user_id up)
            (difference p.nodes p.old_nodes) s).1 in
        let second = bulk_ok (node_cancel d c p.user_id down) (difference p.old_nodes p.nodes) t in
        let votes = bulk_votes p.user_id (difference p.nodes p.old_nodes) u n s in
        let cancels = bulk_cancels p.user_id (difference p.old_nodes p.nodes) u n t in
        (ground (arith, first, second), ground (arith, first, votes, cancels))

    -- A voter whose old nodes are the votes so far ends with the nodes of the blockchain; the votes
    -- of the others stay.
    process_voter-is_voted :
        (p : Prepared) (u n : ℕ) (s : Social)
        → (p.user_id ≡ u → is_voted up down u n s.activities ≡ includes n p.old_nodes)
        → is_voted up down u n (voter p s).1.activities
          ≡ (if p.user_id == u then includes n p.nodes else is_voted up down u n s.activities)
    process_voter-is_voted p u n s h =
        let (_, e) = process_voter_lem p u n s in
        let gone = includes-select (λ x. not (includes x p.nodes)) n p.old_nodes in
        let come = includes-select (λ x. not (includes x p.old_nodes)) n p.nodes in
        elim (Bool-cases (p.user_id == u)) [
          | inl same ↦ e ∙ ground (arith, gone, come, h (ground arith))
          | inr other ↦ e ∙ ground arith
        ]

    process_voters-is_voted :
        (ps : List Prepared) (u n : ℕ) (s : Social)
        → HasDistinctUsers ps
        → (has_user u ps ≡ true → is_voted up down u n s.activities ≡ had u n ps)
        → ((process_voters user_id_of node_id_of d c up down ps s).0 ≡ ok tt)
          × (is_voted up down u n
                (process_voters user_id_of node_id_of d c up down ps s).1.activities
              ≡ (if has_user u ps then wants u n ps else is_voted up down u n s.activities))
    unfolding process_voters
    process_voters-is_voted [] u n s h k = (refl, refl)
    process_voters-is_voted (p ∷ ps) u n s (fresh, h) k =
        let t = (voter p s).1 in
        let (run, _) = process_voter_lem p u n s in
        let go : process_voters user_id_of node_id_of d c up down (p ∷ ps) s
            ≡ process_voters user_id_of node_id_of d c up down ps t =
          ground (arith, run) in
        elim (Bool-cases (p.user_id == u)) [
          | inl same ↦
              let e : p.user_id ≡ u = ground arith in
              let gone : has_user u ps ≡ false = rw e at fresh in
              let alone = no_user u n ps gone in
              let now =
                process_voter-is_voted p u n s (λ _. ground (arith, k (ground arith), alone)) in
              let (ran, rest) = process_voters-is_voted ps u n t h (λ q. absurd (ground arith)) in
              rw go (ran, rest ∙ ground (arith, now, alone))
          | inr other ↦
              let now = process_voter-is_voted p u n s (λ q. absurd (ground arith)) in
              let (ran, rest) =
                process_voters-is_voted ps u n t h (λ q. ground (arith, now, k (ground arith))) in
              rw go (ran, rest ∙ ground (arith, now))
        ]

    -- After a run for one type of nodes every user votes for a node exactly if the blockchain says
    -- so, be the user among its voters or not. It takes different events for an upvote and its
    -- cancelling, which only activities of nodes have in the history before, and an answer of the
    -- blockchain in which no two voters are the same user.
    pub process_single_blockchain_nodes_type-is_voted :
        (voters : List Voter) (s : Social) (u n : ℕ)
        → IsNodeHistory c up down s.activities
        → HasDistinctVoters user_id_of node_id_of voters
        → is_voted up down u n
            (process_single_blockchain_nodes_type user_id_of node_id_of d c up down voters
              s).1.activities
          ≡ is_wanted user_id_of node_id_of u n voters
    unfolding process_single_blockchain_nodes_type prepare_voters_to_process
        find_all_upvote_users_activity
    process_single_blockchain_nodes_type-is_voted voters s u n history apart =
        let ups = newest_upvotes up down [] s.activities in
        let listed = newest_upvotes-is_listed c up down u n [] s.activities tt history in
        let (w, o, k) =
          set_voters_lem user_id_of node_id_of u n voters [] apart (λ i j. refl) tt refl in
        let first = set_voters user_id_of node_id_of voters [] in
        let (w', o', k') = add_old_nodes_lem user_id_of node_id_of u n ups first k in
        let ps = add_old_nodes user_id_of node_id_of ups first in
        let before : is_voted up down u n s.activities ≡ had u n ps =
          ground (arith, o', o, listed) in
        let (_, after) = process_voters-is_voted ps u n s k' (λ q. before) in
        elim (Bool-cases (has_user u ps)) [
          | inl there ↦ after ∙ ground (arith, w', w)
          | inr absent ↦ after ∙ ground (arith, w', w, before, no_user u n ps absent)
        ]
