-- ===== src/PeerApi/Matching.antt =====
-- `PeerNodeMatcher` of src/peer_api.rs: which configured node a peer is. A host name is looked up by the
-- argument `lookup_host`, where `none` is an error.
pub mod Tables
pub mod Entries
pub mod Ports
pub mod Owners
pub mod Explained
pub mod Observed
use Prim.Native.String.{String}
use text.Mathlib.Text.{◌==◌ as str_eq}
use reorg_playground.Prelude.{
  ℕ, Bool, true, false, not, ◌&&◌, ◌==◌, Option, none, some, List, [], ◌∷◌, ◌++◌, Map, get, insert,
  TextMap, get_text, insert_text, sort_by_key, if◌then◌else◌,
}
use reorg_playground.External.Sockets.{SocketAddr, Sockets}
use reorg_playground.Node.{PeerInfo}
use reorg_playground.PeerApi.{
  ConfiguredNodeRef, ObservedNodePeers, NodeListenAddress, MatchedPeerInfo, NodePeerConnections,
}
use reorg_playground.PeerApi.Addresses.{or_else, listen_port_from_address}

pub record PeerNodeMatcher : Type 0 where
  pub node_by_socket_addr : Map ConfiguredNodeRef
  pub node_by_exact_listen_addr : TextMap ConfiguredNodeRef
  pub node_by_unique_listen_port : Map ConfiguredNodeRef
  pub node_by_outbound_bind_addr : TextMap ConfiguredNodeRef

-- The variables of the first loop of `build`
pub record ListenTables : Type 0 where
  pub node_by_socket_addr : Map ConfiguredNodeRef
  pub node_by_exact_listen_addr : TextMap ConfiguredNodeRef
  pub port_owners : Map (List ConfiguredNodeRef)

-- `ConfiguredNodeRef::new` for a listen address
abbrev pub node_ref : NodeListenAddress → ConfiguredNodeRef
node_ref listen_address = record { id = listen_address.node_id; name = listen_address.name }

-- `port_owners.entry(port).or_default().push(node)`
unfoldable pub push_owner :
    ℕ → ConfiguredNodeRef → Map (List ConfiguredNodeRef) → Map (List ConfiguredNodeRef)
push_owner port node [] = (port, node ∷ []) ∷ []
push_owner port node ((other, owners) ∷ m) =
    if other == port
    then (other, owners ++ node ∷ []) ∷ m
    else (other, owners) ∷ push_owner port node m

abbrev dedup_after : ConfiguredNodeRef → List ConfiguredNodeRef → List ConfiguredNodeRef
dedup_after previous [] = []
dedup_after previous (owner ∷ owners) = elim (owner.id == previous.id) [
  | true ↦ dedup_after previous owners
  | false ↦ owner ∷ dedup_after owner owners
]

-- `dedup_by_key(|owner| owner.id)`: of neighbours with one id the first stays.
abbrev pub dedup_owners : List ConfiguredNodeRef → List ConfiguredNodeRef
dedup_owners [] = []
dedup_owners (owner ∷ owners) = owner ∷ dedup_after owner owners

-- The closure of `filter_map` for the unique ports
unfoldable pub unique_owner : List ConfiguredNodeRef → Option ConfiguredNodeRef
unique_owner owners = elim (dedup_owners (sort_by_key (λ o. o.id) owners)) [
  | [] ↦ none
  | owner ∷ rest ↦ elim rest [ [] ↦ some owner | _ ∷ _ ↦ none ]
]

unfoldable pub unique_ports : Map (List ConfiguredNodeRef) → Map ConfiguredNodeRef
unique_ports [] = []
unique_ports ((port, owners) ∷ port_owners) =
    let rest = unique_ports port_owners in
    elim (unique_owner owners) [ none ↦ rest | some owner ↦ (port, owner) ∷ rest ]

-- The loop over the peers of a node
unfoldable pub add_bind_addrs :
    ConfiguredNodeRef → List PeerInfo → TextMap ConfiguredNodeRef → TextMap ConfiguredNodeRef
add_bind_addrs node [] m = m
add_bind_addrs node (peer ∷ peers) m = add_bind_addrs node peers (
    if not peer.inbound && not (str_eq peer.addrbind "")
    then insert_text peer.addrbind node m
    else m)

-- The second loop of `build`
unfoldable pub add_observed :
    List ObservedNodePeers → TextMap ConfiguredNodeRef → TextMap ConfiguredNodeRef
add_observed [] m = m
add_observed (observed ∷ rest) m = add_observed rest (add_bind_addrs observed.node observed.peers m)

module _ ⦃sockets : Sockets⦄ (lookup_host : String → Option (List SocketAddr)) where
  -- The loop over the resolved addresses
  unfoldable pub add_resolved : ConfiguredNodeRef → List SocketAddr → ListenTables → ListenTables
  add_resolved node [] tables = tables
  add_resolved node (resolved_address ∷ resolved_addresses) tables =
      add_resolved node resolved_addresses (record {
        node_by_socket_addr = insert resolved_address node tables.node_by_socket_addr;
        node_by_exact_listen_addr =
            insert_text (sockets.to_string resolved_address) node tables.node_by_exact_listen_addr;
        port_owners = push_owner (sockets.port resolved_address) node tables.port_owners;
      })

  -- The first half of the body of the first loop of `build`, before the host is looked up
  abbrev pub add_named : ListenTables → NodeListenAddress → ListenTables
  add_named tables listen_address =
      let node = node_ref listen_address in
      record tables {
        node_by_exact_listen_addr =
            insert_text listen_address.address node tables.node_by_exact_listen_addr;
        port_owners = elim (listen_port_from_address listen_address.address) [
          | none ↦ tables.port_owners
          | some port ↦ push_owner port node tables.port_owners
        ];
      }

  -- The body of the first loop of `build`
  unfoldable pub add_listen_address : ListenTables → NodeListenAddress → ListenTables
  add_listen_address tables listen_address =
      let named = add_named tables listen_address in
      elim (lookup_host listen_address.address) [
        | none ↦ named
        | some resolved_addresses ↦ add_resolved (node_ref listen_address) resolved_addresses named
      ]

  unfoldable pub add_listen_addresses : ListenTables → List NodeListenAddress → ListenTables
  add_listen_addresses tables [] = tables
  add_listen_addresses tables (listen_address ∷ rest) =
      add_listen_addresses (add_listen_address tables listen_address) rest

  -- `PeerNodeMatcher::build`
  unfoldable pub build_matcher : List NodeListenAddress → List ObservedNodePeers → PeerNodeMatcher
  build_matcher node_listen_addresses observed_node_peers =
      let tables =
        add_listen_addresses
          (record { node_by_socket_addr = []; node_by_exact_listen_addr = []; port_owners = [] })
          node_listen_addresses in
      record {
        node_by_socket_addr = tables.node_by_socket_addr;
        node_by_exact_listen_addr = tables.node_by_exact_listen_addr;
        node_by_unique_listen_port = unique_ports tables.port_owners;
        node_by_outbound_bind_addr = add_observed observed_node_peers [];
      }

module _ ⦃sockets : Sockets⦄ where
  unfoldable pub match_by_socket_addr : PeerNodeMatcher → String → Option ConfiguredNodeRef
  match_by_socket_addr matcher peer_addr = elim (sockets.parse peer_addr) [
    | none ↦ none
    | some socket_address ↦ get socket_address matcher.node_by_socket_addr
  ]

  unfoldable pub match_inbound_peer : PeerNodeMatcher → PeerInfo → Option ConfiguredNodeRef
  match_inbound_peer matcher peer =
      or_else (match_by_socket_addr matcher peer.addr)
        (get_text peer.addr matcher.node_by_outbound_bind_addr)

  -- The last choice of `match_outbound_peer`
  unfoldable pub match_by_unique_port : PeerNodeMatcher → String → Option ConfiguredNodeRef
  match_by_unique_port matcher peer_addr = elim (sockets.parse peer_addr) [
    | none ↦ none
    | some socket_address ↦ get (sockets.port socket_address) matcher.node_by_unique_listen_port
  ]

  unfoldable pub match_outbound_peer : PeerNodeMatcher → PeerInfo → Option ConfiguredNodeRef
  match_outbound_peer matcher peer = or_else (match_by_socket_addr matcher peer.addr) (
      or_else (get_text peer.addr matcher.node_by_exact_listen_addr)
        (match_by_unique_port matcher peer.addr))

  unfoldable pub match_peer : PeerNodeMatcher → ℕ → PeerInfo → Option ConfiguredNodeRef
  match_peer matcher local_node_id peer =
      let matched_node =
        if peer.inbound
        then match_inbound_peer matcher peer
        else match_outbound_peer matcher peer in
      elim matched_node [
        | none ↦ none
        | some node ↦ if not (node.id == local_node_id) then some node else none
      ]

  -- `MatchedPeerInfo::from_peer_and_match`
  pub from_peer_and_match : PeerInfo → Option ConfiguredNodeRef → MatchedPeerInfo
  from_peer_and_match peer none = record {
    peer = peer;
    matched_node_id = none;
    matched_node_name = none;
  }
  from_peer_and_match peer (some node) = record {
    peer = peer;
    matched_node_id = some node.id;
    matched_node_name = some node.name;
  }

  abbrev match_peers : PeerNodeMatcher → ℕ → List PeerInfo → List MatchedPeerInfo
  match_peers matcher local_node_id [] = []
  match_peers matcher local_node_id (peer ∷ peers) =
      from_peer_and_match peer (match_peer matcher local_node_id peer)
      ∷ match_peers matcher local_node_id peers

  pub build_node_peer_connections : ObservedNodePeers → PeerNodeMatcher → NodePeerConnections
  build_node_peer_connections observed_node matcher = record {
    node_id = observed_node.node.id;
    peers = match_peers matcher observed_node.node.id observed_node.peers;
  }
