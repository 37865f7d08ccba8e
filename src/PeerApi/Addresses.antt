-- ===== src/PeerApi/Addresses.antt =====
-- The addresses at which nodes listen (src/peer_api.rs).
use Prim.Native.String.{String, ◌++◌}
use text.Mathlib.Text.{◌==◌ as str_eq}
use reorg_playground.Prelude.{
  ℕ, true, false, not, ◌&&◌, ◌==◌, Option, none, some, List, [], ◌∷◌, find_by, strip_prefix,
  show_number, rsplit_once, parse_u16,
}
use reorg_playground.External.Sockets.{Sockets}
use reorg_playground.Node.{Node, PeerInfo, info_of}
use reorg_playground.PeerApi.{ObservedNodePeers, NodeListenAddress}

-- The code of `:`
abbrev pub colon : ℕ
colon = 58

-- `rsplit_once(':')`, and the port behind the colon
abbrev pub port_after_colon : String → Option ℕ
port_after_colon address = elim (rsplit_once colon address) [
  | none ↦ none
  | some (_, port) ↦ parse_u16 port
]

-- `filter` and `find_map` in `detect_routable_listen_address`
unfoldable pub observed_port : List PeerInfo → Option ℕ
observed_port [] = none
observed_port (p ∷ peers) = elim (p.inbound && not (str_eq p.addrbind "")) [
  | false ↦ observed_port peers
  | true ↦ elim (port_after_colon p.addrbind) [ some port ↦ some port | none ↦ observed_port peers ]
]

-- `o.or_else(|| p)`
abbrev pub or_else : {A : Type 0} → Option A → Option A → Option A
or_else none p = p
or_else (some a) p = some a

abbrev without_scheme : String → String
without_scheme rpc_endpoint =
    elim (or_else (strip_prefix rpc_endpoint "http://")
      (or_else (strip_prefix rpc_endpoint "https://") (strip_prefix rpc_endpoint "ssl://"))) [
        | some host ↦ host
        | none ↦ rpc_endpoint
      ]

unfoldable pub detect_routable_listen_address : String → List PeerInfo → Option String
unfolding observed_port
detect_routable_listen_address rpc_endpoint peers = elim (observed_port peers) [
  | none ↦ none
  | some port ↦
      let host = without_scheme rpc_endpoint in
      let host_part : String = elim (rsplit_once colon host) [
        | none ↦ host
        | some (before, _) ↦ before
      ] in
      some (host_part ++ ":" ++ show_number port)
]

unfoldable pub listen_port_from_address : ⦃sockets : Sockets⦄ → String → Option ℕ
listen_port_from_address ⦃sockets⦄ address = elim (sockets.parse address) [
  | some socket_address ↦ some (sockets.port socket_address)
  | none ↦ port_after_colon address
]

module _ {W : Type 0} where
  -- The closure of `filter_map` in `collect_node_listen_addresses`
  unfoldable pub node_listen_address : List ObservedNodePeers → Node W → Option NodeListenAddress
  unfolding detect_routable_listen_address
  node_listen_address observed_node_peers node =
      let info = info_of node in
      let detected_listen_address : Option String =
        elim (find_by (λ observed_node. observed_node.node.id == info.id) observed_node_peers) [
          | none ↦ none
          | some observed_node ↦
              detect_routable_listen_address node.required.endpoint observed_node.peers
        ] in
      elim (or_else detected_listen_address info.p2p_address) [
        | none ↦ none
        | some address ↦ some (record { node_id = info.id; name = info.name; address = address })
      ]

  unfoldable pub collect_node_listen_addresses :
      List (Node W) → List ObservedNodePeers → List NodeListenAddress
  unfolding node_listen_address
  collect_node_listen_addresses [] observed_node_peers = []
  collect_node_listen_addresses (node ∷ nodes) observed_node_peers =
      let rest = collect_node_listen_addresses nodes observed_node_peers in
      elim (node_listen_address observed_node_peers node) [
        | none ↦ rest
        | some address ↦ address ∷ rest
      ]
