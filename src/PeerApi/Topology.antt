-- ===== src/PeerApi/Topology.antt =====
-- The request for the peers of a network (src/peer_api.rs), and the filter of the stream of peer changes.
use Prim.Native.String.{String}
use reorg_playground.Prelude.{
  ℕ, ◌==◌, not, Option, none, some, List, [], ◌∷◌, map, ok, err, if◌then◌else◌,
}
use reorg_playground.External.Http.{StatusCode}
use reorg_playground.External.Sockets.{SocketAddr, Sockets}
use reorg_playground.Node.{Node, info_of}
use reorg_playground.State.{AppState}
use reorg_playground.Api.{get_network, Received, changed, lagged}
use reorg_playground.PeerApi.{ObservedNodePeers, PeerConnectionsResponse}
use reorg_playground.PeerApi.Addresses.{collect_node_listen_addresses}
use reorg_playground.PeerApi.Matching.{build_matcher, build_node_peer_connections}

module _ {W : Type 0} where
  pub load_observed_node_peers : Node W → W → ObservedNodePeers × W
  load_observed_node_peers node w =
      let (result, w') = node.get_peer_info w in
      (
        record {
          node = record { id = (info_of node).id; name = (info_of node).name };
          peers = elim result [ ok peers ↦ peers | err _ ↦ [] ];
        },
        w',
      )

  -- `join_all`; the calls are made in the order of the nodes, which is one of those that are possible.
  pub load_all_node_peers : List (Node W) → W → List ObservedNodePeers × W
  load_all_node_peers [] w = ([], w)
  load_all_node_peers (node ∷ nodes) w =
      let (observed, w') = load_observed_node_peers node w in
      let (rest, w'') = load_all_node_peers nodes w' in (observed ∷ rest, w'')

module _ {W F : Type 0} ⦃sockets : Sockets⦄ (lookup_host : String → Option (List SocketAddr)) where
  pub peer_info_response : AppState W F → ℕ → W → (StatusCode × PeerConnectionsResponse) × W
  peer_info_response state network_id w = elim (get_network state network_id) [
    | none ↦ ((StatusCode.not_found, record { nodes = []; node_p2p_addresses = [] }), w)
    | some network ↦
        let (observed_node_peers, w') = load_all_node_peers network.nodes w in
        let node_p2p_addresses = collect_node_listen_addresses network.nodes observed_node_peers in
        let matcher = build_matcher lookup_host node_p2p_addresses observed_node_peers in
        (
          (
            StatusCode.ok,
            record {
              nodes =
                  map (λ observed_node. build_node_peer_connections observed_node matcher)
                    observed_node_peers;
              node_p2p_addresses = node_p2p_addresses;
            },
          ),
          w',
        )
  ]

pub data PeerEvent : Type 0 where
  peer_changed : ℕ → PeerEvent
  resync_required : String → ℕ → PeerEvent

-- The closure that `peer_changes_sse` filters the channel with
pub peer_change_event : Option ℕ → Received → Option PeerEvent
peer_change_event filter_network_id (changed network_id) = elim filter_network_id [
  | none ↦ some (peer_changed network_id)
  | some selected_id ↦
      if not (selected_id == network_id) then none else some (peer_changed network_id)
]
peer_change_event filter_network_id (lagged dropped_messages) =
    some (resync_required "lagged" dropped_messages)
