-- ===== src/PeerApi.antt =====
-- src/peer_api.rs: the peers of the nodes, and the requests that connect and disconnect them. `Addresses` and
-- `Matching` find the configured node at the other end of a connection, `Topology` answers with the peers of
-- a network, `Actions` has the handlers that change connections.
pub mod Addresses
pub mod Matching
pub mod Topology
pub mod Actions
pub mod Disconnect
mod Tests
use Prim.Native.String.{String}
use reorg_playground.Prelude.{ℕ, Bool, Option, List}
use reorg_playground.Node.{PeerInfo}

pub record PeerConnectionRequest : Type 0 where
  pub node_id : ℕ
  pub address : String
  pub peer_id : Option ℕ
  pub addnode_remove_addresses : List String
  pub counterparty_node_id : Option ℕ
  pub local_listen_address_candidates : List String

pub record PeerActionResponse : Type 0 where
  pub success : Bool
  pub error : Option String

pub record ConfiguredNodeRef : Type 0 where
  pub id : ℕ
  pub name : String

pub record ObservedNodePeers : Type 0 where
  pub node : ConfiguredNodeRef
  pub peers : List PeerInfo

pub record NodeListenAddress : Type 0 where
  pub node_id : ℕ
  pub name : String
  pub address : String

pub record MatchedPeerInfo : Type 0 where
  pub peer : PeerInfo
  pub matched_node_id : Option ℕ
  pub matched_node_name : Option String

pub record NodePeerConnections : Type 0 where
  pub node_id : ℕ
  pub peers : List MatchedPeerInfo

pub record PeerConnectionsResponse : Type 0 where
  pub nodes : List NodePeerConnections
  pub node_p2p_addresses : List NodeListenAddress
