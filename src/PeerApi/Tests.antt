-- ===== src/PeerApi/Tests.antt =====
-- Requests to src/peer_api.rs, for a network with two nodes. The state of the nodes is the list of the ids of
-- those that were called; node 9 fails to remove a counterparty.
use Prim.Native.String.{String}
use text.Mathlib.Text.{◌==◌ as str_eq}
use reorg_playground.Prelude.{
  ℕ, ◌≡◌, ◌≢◌, ◌⊎◌, ◌==◌, refl, true, false, Bool, Option, none, some, List, [], ◌∷◌, ok, err,
  if◌then◌else◌,
}
use reorg_playground.External.Http.{StatusCode}
use reorg_playground.External.Network.{BitcoinNetwork}
use reorg_playground.External.Sockets.{SocketAddr, Sockets}
use reorg_playground.Node.{Node, RequiredMethods, PeerInfo, default_node}
use reorg_playground.Node.Errors.{data_error}
use reorg_playground.State.{NetworkType, Network, AppState}
use reorg_playground.Api.{get_node, get_network}
use reorg_playground.Api.Guards.{status_of, is_ok}
use reorg_playground.PeerApi.{
  PeerConnectionRequest, ConfiguredNodeRef, NodeListenAddress, ObservedNodePeers,
}
use reorg_playground.PeerApi.Addresses.{detect_routable_listen_address, listen_port_from_address}
use reorg_playground.PeerApi.Actions.{
  disconnect_node, finish_disconnect, add_node, collect_local_listen_address_candidates,
}
use reorg_playground.PeerApi.Disconnect.{MayDisconnect, both_calls, local_call, disconnect_node_lem}
use reorg_playground.PeerApi.Matching.{
  build_matcher, match_peer, match_inbound_peer, match_outbound_peer, match_by_socket_addr,
  match_by_unique_port, add_listen_addresses, add_listen_address, add_resolved, push_owner,
  unique_ports, unique_owner, add_observed, add_bind_addrs,
}
use reorg_playground.PeerApi.Matching.Explained.{ByHost, ByBind, ByText, ByPort, match_peer_lem}

abbrev methods : ℕ → RequiredMethods (List ℕ)
methods id = record {
  info = record {
    id = id;
    name = "node";
    description = "";
    implementation = "";
    network_type = BitcoinNetwork.regtest;
    supports_mining = false;
    signet_challenge = none;
    signet_nbits = none;
    p2p_address = some "host:5";
  };
  endpoint = "http://rpc:18443";
  version = λ w. (ok "1", w);
  block_header = λ l w. (err (data_error "none"), w);
  tips = λ w. (ok [], w);
  get_miner_pool = λ h i n w. (ok none, w);
}

abbrev peer_node : ℕ → Node (List ℕ)
peer_node id = record (default_node (methods id)) {
  remove_peer_connection = λ addr peer_id candidates w. (ok tt, id ∷ w);
  remove_counterparty_peer_connection = λ candidates w. (err (data_error "no"), id ∷ w);
}

abbrev two_nodes : Network (List ℕ)
two_nodes = record {
  id = 1;
  description = "";
  name = "regtest";
  query_interval = 1;
  first_tracked_height = 0;
  visible_heights_from_tip = 10;
  extra_hotspot_heights = 0;
  network_type = NetworkType.regtest;
  view_only_mode = false;
  mempool_url = none;
  access_info = none;
  stale_rate_ranges = [];
  nodes = peer_node 8 ∷ peer_node 9 ∷ [];
}

abbrev peer_state : AppState (List ℕ) Unit
peer_state = record {
  caches = [];
  networks = two_nodes ∷ [];
  network_infos = [];
  rss_base_url = "";
}

abbrev disconnect : PeerConnectionRequest
disconnect = record {
  node_id = 8;
  address = "host:6";
  peer_id = none;
  addnode_remove_addresses = [];
  counterparty_node_id = some 9;
  local_listen_address_candidates = [];
}

disconnect_run : (disconnect_node peer_state 1 disconnect []).1 ≡ 9 ∷ 8 ∷ []
unfolding disconnect_node collect_local_listen_address_candidates get_network get_node default_node
    finish_disconnect
disconnect_run = refl

disconnect_node_lem_example :
    let (response, after, published) = disconnect_node peer_state 1 disconnect [] in
    ((network : Network (List ℕ)) × (node : Node (List ℕ)) × (remote : Option (Node (List ℕ)))
      × MayDisconnect peer_state 1 disconnect network node remote
      × let called = both_calls network node remote disconnect [] in
        (after ≡ called.1)
        × (response.1.success ≡ is_ok called.0)
        × (response.0 ≡ status_of called.0)
        × (published ≡ (if is_ok (local_call node disconnect []).0 then 1 ∷ [] else [])))
    ⊎ ((after ≡ [])
        × (response.1.success ≡ false)
        × (published ≡ [])
        × ((network : Network (List ℕ)) (node : Node (List ℕ)) (remote : Option (Node (List ℕ)))
            → ¬ MayDisconnect peer_state 1 disconnect network node remote))
disconnect_node_lem_example = disconnect_node_lem peer_state 1 disconnect []

abbrev peer : Bool → String → String → PeerInfo
peer inbound addr addrbind = record {
  id = 0;
  addr = addr;
  addrbind = addrbind;
  subver = "";
  inbound = inbound;
  connection_type = "";
  network = "";
}

detect_run :
    detect_routable_listen_address "http://rpc:18443"
      (peer false "a" "0.0.0.0:7" ∷ peer true "b" "0.0.0.0:38333" ∷ [])
    ≡ some "rpc:38333"
unfolding detect_routable_listen_address
detect_run = refl

-- Three texts of socket addresses
instance abbrev three_sockets : Sockets
three_sockets = record {
  parse = λ s.
      if str_eq s "10.0.0.1:5"
      then some 1
      else if str_eq s "10.0.0.2:6"
      then some 2
      else if str_eq s "10.0.0.3:6"
      then some 3
      else none;
  port = λ s. if s == 1 then 5 else 6;
  to_string = λ s. if s == 1 then "10.0.0.1:5" else if s == 2 then "10.0.0.2:6" else "10.0.0.3:6";
}

abbrev lookup : String → Option (List SocketAddr)
lookup host = if str_eq host "host:6" then some (2 ∷ []) else none

abbrev listening : List NodeListenAddress
listening =
    record { node_id = 8; name = "a"; address = "10.0.0.1:5" }
    ∷ record { node_id = 9; name = "b"; address = "host:6" }
    ∷ []

abbrev opened : List ObservedNodePeers
opened =
    record {
      node = record { id = 9; name = "b" };
      peers = peer false "10.0.0.1:5" "10.0.0.9:50000" ∷ [];
    }
    ∷ []

-- The address is not known, but node 9 alone listens on its port.
port_run :
    match_peer (build_matcher lookup listening opened) 8 (peer false "10.0.0.3:6" "")
    ≡ some (record { id = 9; name = "b" })
unfolding match_peer build_matcher match_inbound_peer match_outbound_peer match_by_socket_addr
    match_by_unique_port add_listen_addresses add_listen_address add_resolved push_owner
    unique_ports unique_owner add_observed add_bind_addrs listen_port_from_address
port_run = refl

bind_run :
    match_peer (build_matcher lookup listening opened) 8 (peer true "10.0.0.9:50000" "")
    ≡ some (record { id = 9; name = "b" })
unfolding match_peer build_matcher match_inbound_peer match_outbound_peer match_by_socket_addr
    match_by_unique_port add_listen_addresses add_listen_address add_resolved push_owner
    unique_ports unique_owner add_observed add_bind_addrs listen_port_from_address
bind_run = refl

match_peer_lem_example :
    let node : ConfiguredNodeRef = record { id = 9; name = "b" } in
    let address : String = "10.0.0.3:6" in
    (node.id ≢ 8)
    × (((◌≡◌ {A = Bool} false true)
          × (ByHost lookup listening opened node address
              ⊎ ByBind lookup listening opened node address))
        ⊎ ((◌≡◌ {A = Bool} false false)
            × (ByHost lookup listening opened node address
                ⊎ (ByText lookup listening opened node address
                    ⊎ ByPort lookup listening opened node address))))
match_peer_lem_example =
    match_peer_lem lookup listening opened 8 (peer false "10.0.0.3:6" "")
      (record { id = 9; name = "b" }) port_run

add_node_run : (add_node peer_state 2 disconnect []).0.0 ≡ StatusCode.not_found
unfolding add_node get_network
add_node_run = refl
