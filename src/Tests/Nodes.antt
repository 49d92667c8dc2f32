-- ===== src/Tests/Nodes.antt =====
-- User 1, who voted for node 5 before, votes for node 6 in the blockchain.
use text.Mathlib.Text.{◌==◌ as str_eq}
use ucom_backend.Prelude.{
  ℕ, String, ◌≡◌, refl, false, Option, none, some, List, [], ◌∷◌, arith, if◌then◌else◌,
}
use ucom_backend.Dictionary.{sample_dictionaries as d}
use ucom_backend.Social.State.{Activity, Social}
use ucom_backend.Social.Activities.{Contents}
use ucom_backend.Social.Nodes.{Voter, process_single_blockchain_nodes_type}
use ucom_backend.Social.Nodes.Upvotes.{is_voted, IsNodeHistory}
use ucom_backend.Social.Nodes.Laws.{process_single_blockchain_nodes_type-is_voted}

abbrev contents : Contents
contents = record {
  blockchain_nodes = "blockchain";
  type_organization = 4;
  type_comment = 3;
  org_team_invitation = 30;
  org_users_team_invitation = 20;
  user_creates_organization = 200;
  user_updates_organization = 201;
  user_creates_profile = 202;
  user_updates_profile = 203;
  user_has_mentioned_you_in_post = 80;
  user_has_mentioned_you_in_comment = 90;
}

abbrev old_vote : Activity
old_vote = record {
  activity_type_id = 20;
  activity_group_id = 30;
  user_id_from = 1;
  entity_id_to = 5;
  entity_name = "blockchain";
  signed_transaction = "";
  event_id = 110;
  entity_id_on = none;
  entity_name_on = none;
}

abbrev start : Social
start = record {
  activities = old_vote ∷ [];
  follows = [];
  trusts = [];
  auto_updates = [];
  jobs = [];
}

abbrev user_id_of : String → Option ℕ
user_id_of name = if str_eq name "jane_the_first" then some 1 else none

abbrev node_id_of : String → Option ℕ
node_id_of title = if str_eq title "calc6" then some 6 else none

abbrev voters : List Voter
voters = record { account_name = "jane_the_first"; nodes = "calc6" ∷ [] } ∷ []

start-IsNodeHistory : IsNodeHistory contents 110 120 start.activities
start-IsNodeHistory = (refl, tt)

process_single_blockchain_nodes_type-is_voted_example :
    is_voted 110 120 1 5
      (process_single_blockchain_nodes_type user_id_of node_id_of d contents 110 120 voters
        start).1.activities
    ≡ false
process_single_blockchain_nodes_type-is_voted_example =
    process_single_blockchain_nodes_type-is_voted d contents 110 120 (omega arith) user_id_of
      node_id_of voters start 1 5 start-IsNodeHistory (refl, tt)
