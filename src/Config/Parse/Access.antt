-- ===== src/Config/Parse/Access.antt =====
-- What src/config.rs shows of the nodes to users, and the names of the backends.
use reorg_playground.Prelude.{
  ℕ, ◌≡◌, refl, ◌↔◌, inl, inr, true, Option, none, some, List, [], ◌∷◌, All, is_empty, not_both,
  Bool-cases, Option-cases, ok,
}
use reorg_playground.Config.{
  TomlNode, TomlNetwork, or, Backend, bitcoin_core, btcd, esplora, electrum, backend_from_str,
  backend_to_string,
}
use reorg_playground.Config.Parse.{filter_map, node_access_info, build_network_access_info}

-- The name that is shown for a backend is one that the configuration accepts for it.
pub backend_from_str-backend_to_string :
    (backend : Backend) → backend_from_str (backend_to_string backend) ≡ ok backend
unfolding backend_from_str backend_to_string
backend_from_str-backend_to_string bitcoin_core = refl
backend_from_str-backend_to_string btcd = refl
backend_from_str-backend_to_string esplora = refl
backend_from_str-backend_to_string electrum = refl

-- Nothing of the node can be reached from outside.
abbrev pub IsClosed : TomlNode → Type 0
IsClosed node =
    (node.exposed_rpc_port ≡ none) × (node.exposed_p2p_port ≡ none) × (node.p2p_port ≡ none)

node_access_info-none : (node : TomlNode) → (node_access_info node ≡ none) ↔ IsClosed node
unfolding node_access_info
node_access_info-none node = elim (Option-cases node.exposed_rpc_port) [
  | inr (rpc, exposed) ↦
      (λ h. absurd (cc (rw (exposed, node_access_info) at h)), λ (a, b, c). absurd (cc))
  | inl hidden ↦ elim (Option-cases (or node.exposed_p2p_port node.p2p_port)) [
    | inr (p2p, shown) ↦ (
      λ h. absurd (cc (rw (hidden, shown, node_access_info) at h)),
      λ (a, b, c). absurd (cc (rw (b, c) at shown)),
    )
    | inl closed ↦
        let (a, b) = closed_ports node.exposed_p2p_port node.p2p_port closed in
        (λ h. (hidden, a, b), λ h. rw (hidden, closed, node_access_info) refl)
  ]
]
  where
    closed_ports : (a b : Option ℕ) → or a b ≡ none → (a ≡ none) × (b ≡ none)
    closed_ports none b e = (refl, e)
    closed_ports (some x) b e = absurd (cc)

filter_map-none :
    (nodes : List TomlNode)
    → (is_empty (filter_map node_access_info nodes) ≡ true) ↔ All IsClosed nodes
filter_map-none [] = (λ h. tt, λ h. refl)
filter_map-none (node ∷ nodes) = elim (Option-cases (node_access_info node)) [
  | inl hidden ↦
      rw (hidden, is_empty, filter_map)
        (
          λ h. ((node_access_info-none node).0 hidden, (filter_map-none nodes).0 h),
          λ h. (filter_map-none nodes).1 h.1,
        )
  | inr (info, shown) ↦
      rw (shown, is_empty, filter_map)
        (λ h. absurd (cc), λ h. let gone = (node_access_info-none node).1 h.0 in absurd (cc))
]

-- No access information is shown for a network exactly when none of its nodes and neither of its two
-- servers has a port outside.
build_network_access_info-none :
    (network : TomlNetwork)
    → (build_network_access_info network ≡ none) ↔ (
        All IsClosed network.nodes
        × (network.fulcrum_port ≡ none)
        × (network.mempool_web_port ≡ none))
unfolding build_network_access_info
build_network_access_info-none network =
    elim (Bool-cases (is_empty (filter_map node_access_info network.nodes))) [
      | inr seen ↦ (
        λ h. absurd (cc (rw (seen, build_network_access_info) at h)),
        λ (closed, a, b). absurd (not_both ((filter_map-none network.nodes).1 closed) seen),
      )
      | inl unseen ↦ elim (Option-cases network.fulcrum_port) [
        | inr (tcp, fulcrum) ↦ (
          λ h. absurd (cc (rw (unseen, fulcrum, build_network_access_info) at h)),
          λ (closed, a, b). absurd (cc),
        )
        | inl no_fulcrum ↦ elim (Option-cases network.mempool_web_port) [
          | inr (web, mempool) ↦ (
            λ h. absurd (cc (rw (unseen, no_fulcrum, mempool, build_network_access_info) at h)),
            λ (closed, a, b). absurd (cc),
          )
          | inl no_mempool ↦ (
            λ h. ((filter_map-none network.nodes).0 unseen, no_fulcrum, no_mempool),
            λ h. rw (unseen, no_fulcrum, no_mempool, build_network_access_info) refl,
          )
        ]
      ]
    ]
