-- ===== src/Social/Nodes/Upvotes.antt =====
-- The query of the newest upvotes, row by row.
use text.Mathlib.Text.{◌==◌ as str_eq}
use text.Mathlib.TextEquality.{eq_iff}
use ucom_backend.Prelude.{
  ℕ, ◌≡◌, inl, inr, refl, Bool, true, false, not, ◌&&◌, ◌||◌, Option, none, some, List, [], ◌∷◌,
  ◌==◌, find, any, All, arith, Bool-cases,
}
use ucom_backend.Social.State.{Activity, group_user_interacts_with_blockchain_node}
use ucom_backend.Social.Activities.{Contents}
use ucom_backend.Social.Nodes.{Upvote, is_event, is_same_vote, newest_upvotes}

module _ (up down : ℕ) where
  abbrev pub is_upvote : Option Activity → Bool
  is_upvote none = false
  is_upvote (some a) = a.event_id == up

  -- Whether the last activity of a user and a node is an upvote.
  abbrev pub is_voted : ℕ → ℕ → List Activity → Bool
  is_voted u n activities =
      is_upvote
        (find (λ a. is_event up down a && (a.user_id_from == u && a.entity_id_to == n)) activities)

abbrev pub is_listed : ℕ → ℕ → List Upvote → Bool
is_listed u n = any (λ r. r.user_id_from == u && r.entity_id_to == n)

abbrev pub is_of_nodes : Contents → Activity → Bool
is_of_nodes c a =
    str_eq a.entity_name c.blockchain_nodes
    && a.activity_group_id == group_user_interacts_with_blockchain_node

-- The two events are those of activities of blockchain nodes only.
abbrev pub IsNodeHistory : Contents → ℕ → ℕ → List Activity → Type 0
IsNodeHistory c up down = All (λ a. (not (is_event up down a) || is_of_nodes c a) ≡ true)

module _ (c : Contents) (up down : ℕ) where
  abbrev is_seen : ℕ → ℕ → List Activity → Bool
  is_seen u n = any (λ b. b.user_id_from == u && b.entity_id_to == n)

  same_vote_lem :
      (a : Activity) (seen : List Activity)
      → is_of_nodes c a ≡ true
      → All (λ b. is_of_nodes c b ≡ true) seen
      → any (is_same_vote up down a) seen ≡ is_seen a.user_id_from a.entity_id_to seen
  same_vote_lem a [] h k = refl
  same_vote_lem a (b ∷ bs) h (k, k') = ground (
    arith,
    same_vote_lem a bs h k',
    eq_iff a.entity_name c.blockchain_nodes,
    eq_iff b.entity_name c.blockchain_nodes,
    eq_iff a.entity_name b.entity_name,
  )

  pub newest_upvotes-is_listed :
      (u n : ℕ) (seen activities : List Activity)
      → All (λ b. is_of_nodes c b ≡ true) seen
      → IsNodeHistory c up down activities
      → is_listed u n (newest_upvotes up down seen activities)
        ≡ (not (is_seen u n seen) && is_voted up down u n activities)
  newest_upvotes-is_listed u n seen [] h k = ground arith
  newest_upvotes-is_listed u n seen (a ∷ rest) h (k, k') = elim (Bool-cases (is_event up down a)) [
    | inr other ↦ ground (arith, newest_upvotes-is_listed u n seen rest h k')
    | inl event ↦
        let std : is_of_nodes c a ≡ true = ground arith in
        let same = same_vote_lem a seen std h in
        elim (Bool-cases (is_seen a.user_id_from a.entity_id_to seen)) [
          | inl old ↦ ground (arith, same, newest_upvotes-is_listed u n seen rest h k')
          | inr new ↦ ground (arith, same, newest_upvotes-is_listed u n (a ∷ seen) rest (std, h) k')
        ]
  ]
