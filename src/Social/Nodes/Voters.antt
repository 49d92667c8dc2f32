-- ===== src/Social/Nodes/Voters.antt =====
-- The voters that are prepared from the blockchain and from the votes so far.
use ucom_backend.Prelude.{
  ℕ, String, ◌≡◌, inl, inr, refl, ◌∙◌, Bool, true, false, ◌&&◌, ◌||◌, Option, none, some, List, [],
  ◌∷◌, ◌==◌, any, includes, includes-append, arith, Bool-cases, Option-cases,
}
use ucom_backend.Social.Nodes.{
  Voter, Prepared, Upvote, known_nodes, set_voter, set_voters, add_old_node, add_old_nodes,
}
use ucom_backend.Social.Nodes.Upvotes.{is_listed}

-- What the prepared voters hold of a user and a node.
abbrev pub has_user : ℕ → List Prepared → Bool
has_user u = any (λ p. p.user_id == u)

abbrev pub wants : ℕ → ℕ → List Prepared → Bool
wants u n = any (λ p. p.user_id == u && includes n p.nodes)

abbrev pub had : ℕ → ℕ → List Prepared → Bool
had u n = any (λ p. p.user_id == u && includes n p.old_nodes)

abbrev pub HasDistinctUsers : List Prepared → Type 0
HasDistinctUsers [] = Unit
HasDistinctUsers (p ∷ ps) = (has_user p.user_id ps ≡ false) × HasDistinctUsers ps

pub no_user :
    (u n : ℕ) (ps : List Prepared)
    → has_user u ps ≡ false
    → (wants u n ps ≡ false) × (had u n ps ≡ false)
no_user u n [] h = (refl, refl)
no_user u n (p ∷ ps) h = ground (arith, no_user u n ps)

module _ (user_id_of node_id_of : String → Option ℕ) where
  abbrev add : Upvote → List Prepared → List Prepared
  add = add_old_node user_id_of node_id_of

  add_old_node_lem :
      (u n : ℕ) (a : Upvote) (ps : List Prepared)
      → (has_user u (add a ps) ≡ (a.user_id_from == u || has_user u ps))
        × (wants u n (add a ps) ≡ wants u n ps)
        × (had u n (add a ps) ≡ (had u n ps || (a.user_id_from == u && a.entity_id_to == n)))
  add_old_node_lem u n a [] = ground arith
  add_old_node_lem u n a (p ∷ ps) =
      ground (arith, add_old_node_lem u n a ps, includes-append n p.old_nodes (a.entity_id_to ∷ []))

  add_old_node-HasDistinctUsers :
      (a : Upvote) (ps : List Prepared) → HasDistinctUsers ps → HasDistinctUsers (add a ps)
  add_old_node-HasDistinctUsers a [] h = (refl, tt)
  add_old_node-HasDistinctUsers a (p ∷ ps) (h, k) =
      elim (Bool-cases (p.user_id == a.user_id_from)) [
        | inl e ↦ rw e (h, k)
        | inr e ↦
            let (users, _, _) = add_old_node_lem p.user_id 0 a ps in
            rw e (ground (arith, users), add_old_node-HasDistinctUsers a ps k)
      ]

  pub add_old_nodes_lem :
      (u n : ℕ) (ups : List Upvote) (ps : List Prepared)
      → HasDistinctUsers ps
      → (wants u n (add_old_nodes user_id_of node_id_of ups ps) ≡ wants u n ps)
        × (had u n (add_old_nodes user_id_of node_id_of ups ps) ≡ (had u n ps || is_listed u n ups))
        × HasDistinctUsers (add_old_nodes user_id_of node_id_of ups ps)
  add_old_nodes_lem u n [] ps h = (refl, ground arith, h)
  add_old_nodes_lem u n (a ∷ rest) ps h =
      let (w, o, k) =
        add_old_nodes_lem u n rest (add a ps) (add_old_node-HasDistinctUsers a ps h) in
      let one = add_old_node_lem u n a ps in (ground (arith, w, one), ground (arith, o, one), k)

  abbrev put : Prepared → List Prepared → List Prepared
  put = set_voter user_id_of node_id_of

  -- Where the user is not there yet, a voter is put at the end.
  set_voter_lem :
      (u n : ℕ) (p : Prepared) (ps : List Prepared)
      → has_user p.user_id ps ≡ false
      → (has_user u (put p ps) ≡ (p.user_id == u || has_user u ps))
        × (wants u n (put p ps) ≡ (wants u n ps || (p.user_id == u && includes n p.nodes)))
        × (had u n (put p ps) ≡ (had u n ps || (p.user_id == u && includes n p.old_nodes)))
  set_voter_lem u n p [] h = ground arith
  set_voter_lem u n p (q ∷ qs) h = ground (arith, set_voter_lem u n p qs)

  set_voter-HasDistinctUsers :
      (p : Prepared) (ps : List Prepared)
      → has_user p.user_id ps ≡ false
      → HasDistinctUsers ps
      → HasDistinctUsers (put p ps)
  set_voter-HasDistinctUsers p [] h k = (refl, tt)
  set_voter-HasDistinctUsers p (q ∷ qs) h (k, k') =
      let other : (q.user_id == p.user_id) ≡ false = ground arith in
      let gone : has_user p.user_id qs ≡ false = ground arith in
      let (users, _, _) = set_voter_lem q.user_id 0 p qs gone in
      rw other (ground (arith, users), set_voter-HasDistinctUsers p qs gone k')

  abbrev pub is_user : ℕ → Option ℕ → Bool
  is_user u none = false
  is_user u (some k) = k == u

  -- Whether the blockchain has a vote of the user for the node.
  abbrev pub is_wanted : ℕ → ℕ → List Voter → Bool
  is_wanted u n = any (λ v.
      is_user u (user_id_of v.account_name)
      && includes n (known_nodes user_id_of node_id_of v.nodes))

  abbrev pub has_voter : ℕ → List Voter → Bool
  has_voter u = any (λ v. is_user u (user_id_of v.account_name))

  abbrev pub IsApart : Option ℕ → List Voter → Type 0
  IsApart none vs = Unit
  IsApart (some k) vs = has_voter k vs ≡ false

  -- No two voters of the answer are the same user.
  abbrev pub HasDistinctVoters : List Voter → Type 0
  HasDistinctVoters [] = Unit
  HasDistinctVoters (v ∷ vs) = IsApart (user_id_of v.account_name) vs × HasDistinctVoters vs

  differ :
      (i j : ℕ) (vs : List Voter)
      → has_voter i vs ≡ false
      → has_voter j vs ≡ true
      → (i == j) ≡ false
  differ i j vs h k = elim (Bool-cases (i == j)) [
    | inr e ↦ e
    | inl e ↦ let same : i ≡ j = ground arith in absurd (ground (arith, rw same at h))
  ]

  pub set_voters_lem :
      (u n : ℕ) (vs : List Voter) (ps : List Prepared)
      → HasDistinctVoters vs
      → ((k : ℕ) → has_voter k vs ≡ true → has_user k ps ≡ false)
      → HasDistinctUsers ps
      → had u n ps ≡ false
      → (wants u n (set_voters user_id_of node_id_of vs ps) ≡ (wants u n ps || is_wanted u n vs))
        × (had u n (set_voters user_id_of node_id_of vs ps) ≡ false)
        × HasDistinctUsers (set_voters user_id_of node_id_of vs ps)
  set_voters_lem u n [] ps h new k o = (ground arith, o, k)
  set_voters_lem u n (v ∷ vs) ps (h, h') new k o = elim (Option-cases (user_id_of v.account_name)) [
    | inl e ↦
        let same : set_voters user_id_of node_id_of (v ∷ vs) ps
            ≡ set_voters user_id_of node_id_of vs ps =
          ground arith in
        let (w, o', k') = set_voters_lem u n vs ps h' (λ i j. new i (ground (arith, e, j))) k o in
        rw same (w ∙ ground (arith, e), o', k')
    | inr (i, e) ↦
        let p : Prepared = record {
          user_id = i;
          nodes = known_nodes user_id_of node_id_of v.nodes;
          old_nodes = [];
        } in
        let same : set_voters user_id_of node_id_of (v ∷ vs) ps
            ≡ set_voters user_id_of node_id_of vs (put p ps) =
          ground arith in
        let fresh : has_user i ps ≡ false = new i (ground (arith, e)) in
        let apart : has_voter i vs ≡ false = rw e at h in
        let one = set_voter_lem u n p ps fresh in
        let (w, o', k') =
          set_voters_lem u n vs (put p ps) h'
            (λ j q.
              let other : (i == j) ≡ false = differ i j vs apart q in
              ground (arith, set_voter_lem j 0 p ps fresh, new j (ground (arith, q))))
            (set_voter-HasDistinctUsers p ps fresh k) (ground (arith, one)) in
        rw same (w ∙ ground (arith, one, e), o', k')
  ]
