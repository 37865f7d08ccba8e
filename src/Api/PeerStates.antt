-- ===== src/Api/PeerStates.antt =====
-- `p2p_state_response` of src/api.rs.
use reorg_playground.Prelude.{
  Bool, ◌↔◌, ok, ok_eq, some_eq, Result, err, ℕ, ◌≡◌, refl, ap, ◌⊎◌, inl, inr, none, some, List, [],
  ◌∷◌, Option-cases,
}
use reorg_playground.External.Http.{StatusCode}
use reorg_playground.Node.{Node, info_of}
use reorg_playground.Node.Errors.{FetchError}
use reorg_playground.State.{Network, AppState}
use reorg_playground.Api.{
  NodeP2PState, get_network, load_node_p2p_state, load_p2p_states, p2p_state_response,
}

active_iff :
    (answer : Result FetchError Bool) (active : Bool)
    → (elim answer [ ok active ↦ some active | err _ ↦ none ] ≡ some active) ↔ (answer ≡ ok active)
active_iff (ok b) active = (λ e. ap ok (some_eq e), λ e. ap some (ok_eq e))
active_iff (err x) active = (λ e. absurd (cc), λ e. absurd (cc))

module _ {W : Type 0} where
  -- The answers of the nodes, asked one after the other: a state for each node, which is known exactly when the
  -- node answers, and then as it answers.
  abbrev pub AreAnswers : List (Node W) → W → List NodeP2PState → W → Type 0
  AreAnswers [] w [] w' = w' ≡ w
  AreAnswers [] w (_ ∷ _) w' = ⊥
  AreAnswers (_ ∷ _) w [] w' = ⊥
  AreAnswers (node ∷ nodes) w (s ∷ states) w' =
      (s.node_id ≡ (info_of node).id)
      × ((active : Bool) → (s.active ≡ some active) ↔ ((node.p2p_network_active w).0 ≡ ok active))
      × AreAnswers nodes (node.p2p_network_active w).1 states w'

  load_p2p_states_lem :
      (nodes : List (Node W)) (w : W)
      → let (states, w') = load_p2p_states nodes w in AreAnswers nodes w states w'
  unfolding load_p2p_states load_node_p2p_state
  load_p2p_states_lem [] w = refl
  load_p2p_states_lem (node ∷ nodes) w = (
    refl,
    active_iff (node.p2p_network_active w).0,
    load_p2p_states_lem nodes (node.p2p_network_active w).1,
  )

module _ {W F : Type 0} where
  -- For a network that is configured the response is OK and has one state for each of its nodes, in their order: it is
  -- known whether the node's peer-to-peer network is active exactly when the call of that node succeeds, and then as the
  -- call says. For another network it is NOT_FOUND with no states, and no node is called.
  pub p2p_state_response_lem :
      (state : AppState W F) (network_id : ℕ) (w : W)
      → let ((status, states), w') = p2p_state_response state network_id w in
        ((network : Network W) × (get_network state network_id ≡ some network)
          × (status ≡ StatusCode.ok)
          × AreAnswers network.nodes w states w')
        ⊎ ((get_network state network_id ≡ none)
            × (status ≡ StatusCode.not_found)
            × (states ≡ [])
            × (w' ≡ w))
  unfolding p2p_state_response
  p2p_state_response_lem state network_id w = elim (Option-cases (get_network state network_id)) [
    | inl missing ↦ inr (
      missing,
      rw (missing, p2p_state_response) refl,
      rw (missing, p2p_state_response) refl,
      rw (missing, p2p_state_response) refl,
    )
    | inr (network, found) ↦ inl (
      network,
      found,
      rw (found, p2p_state_response) refl,
      rw (found, p2p_state_response) (load_p2p_states_lem network.nodes w),
    )
  ]
