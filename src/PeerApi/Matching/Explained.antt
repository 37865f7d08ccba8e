-- ===== src/PeerApi/Matching/Explained.antt =====
-- Why `PeerNodeMatcher` (src/peer_api.rs) takes a peer for a configured node.
use Prim.Native.String.{String}
use reorg_playground.Prelude.{
  ℕ, ◌≡◌, ◌≢◌, refl, sym, ◌∙◌, ◌⊎◌, inl, inr, true, false, not, ◌==◌, ==_iff, Option, none, some,
  some_eq, List, [], ◌∷◌, All, All-map, Any, get_text, Bool-cases, Option-cases, not_both,
  if◌then◌else◌,
}
use reorg_playground.External.Sockets.{SocketAddr, Sockets}
use reorg_playground.Node.{PeerInfo}
use reorg_playground.PeerApi.{ConfiguredNodeRef, ObservedNodePeers, NodeListenAddress}
use reorg_playground.PeerApi.Addresses.{or_else}
use reorg_playground.PeerApi.Matching.{
  PeerNodeMatcher, ListenTables, node_ref, add_listen_addresses, build_matcher,
  match_by_socket_addr, match_inbound_peer, match_by_unique_port, match_outbound_peer, match_peer,
}
use reorg_playground.PeerApi.Matching.Tables.{
  ResolvesTo, ListensOn, AreSound, add_listen_addresses-AreSound,
}
use reorg_playground.PeerApi.Matching.Ports.{get-unique_ports, unique_owner_lem}
use reorg_playground.PeerApi.Matching.Owners.{add_listen_addresses-Owned}
use reorg_playground.PeerApi.Matching.Observed.{All_among, OpenedFrom, add_observed-TextEntries}

module _ ⦃sockets : Sockets⦄ (lookup_host : String → Option (List SocketAddr))
    (listen : List NodeListenAddress) (observed : List ObservedNodePeers) where
  -- One of the listen addresses of the node has a property.
  abbrev pub SomeAddress : ConfiguredNodeRef → (NodeListenAddress → Type 0) → Type 0
  SomeAddress node P = Any (λ la. (node ≡ node_ref la) × P la) listen

  -- The peer's address is the socket address of a host.
  abbrev pub ByHost : ConfiguredNodeRef → String → Type 0
  ByHost node address =
      (s : SocketAddr) × (sockets.parse address ≡ some s)
      × SomeAddress node (λ la. ResolvesTo lookup_host la s)

  -- The peer's address is the text of a listen address, or of a socket address of its host.
  abbrev pub ByText : ConfiguredNodeRef → String → Type 0
  ByText node address = SomeAddress node (λ la.
      (address ≡ la.address)
      ⊎ ((s : SocketAddr) × ResolvesTo lookup_host la s × (address ≡ sockets.to_string s)))

  -- The node listens on the port of the peer's address, and no other node does.
  abbrev pub ByPort : ConfiguredNodeRef → String → Type 0
  ByPort node address =
      (s : SocketAddr) × (sockets.parse address ≡ some s)
      × SomeAddress node (λ la. ListensOn lookup_host la (sockets.port s))
      × All (λ la. ListensOn lookup_host la (sockets.port s) → la.node_id ≡ node.id) listen

  -- The node opened a connection from the peer's address.
  abbrev pub ByBind : ConfiguredNodeRef → String → Type 0
  ByBind node address = Any (λ o. (node ≡ o.node) × OpenedFrom o address) observed

  abbrev matcher : PeerNodeMatcher
  matcher = build_matcher lookup_host listen observed

  abbrev tables : ListenTables
  tables =
      add_listen_addresses lookup_host
        (record { node_by_socket_addr = []; node_by_exact_listen_addr = []; port_owners = [] })
        listen

  abbrev AtSocket : ℕ → ConfiguredNodeRef → Type 0
  AtSocket s node = SomeAddress node (λ la. ResolvesTo lookup_host la s)

  abbrev AtPort : ℕ → ConfiguredNodeRef → Type 0
  AtPort port node = SomeAddress node (λ la. ListensOn lookup_host la port)

  tables-AreSound : AreSound lookup_host AtSocket AtPort (λ a node. ByText node a) tables
  tables-AreSound =
      add_listen_addresses-AreSound lookup_host AtSocket AtPort (λ a node. ByText node a) listen _
        (All_among _ listen listen (λ P p. p)
          (λ la into. record {
            socket = λ s at. into _ (refl, at);
            text = into _ (refl, inl refl);
            socket_text = λ s at. into _ (refl, inr (s, at, refl));
            port = λ p at. into _ (refl, at);
          }))
        (record {
          by_socket = λ k v e. absurd (cc);
          by_text = λ k v e. absurd (cc);
          by_port = λ k v e. absurd (cc);
          keyed = tt;
        })

  host_lem :
      (address : String) (node : ConfiguredNodeRef)
      → match_by_socket_addr matcher address ≡ some node
      → ByHost node address
  unfolding match_by_socket_addr build_matcher
  host_lem address node e = elim (Option-cases (sockets.parse address)) [
    | inl unread ↦ absurd (cc (rw (unread, match_by_socket_addr) at e))
    | inr (s, read) ↦
        (s, read, tables-AreSound.by_socket s node (rw (read, match_by_socket_addr) at e))
  ]

  port_lem :
      (address : String) (node : ConfiguredNodeRef)
      → match_by_unique_port matcher address ≡ some node
      → ByPort node address
  unfolding match_by_unique_port build_matcher
  port_lem address node e = elim (Option-cases (sockets.parse address)) [
    | inl unread ↦ absurd (cc (rw (unread, match_by_unique_port) at e))
    | inr (s, read) ↦
        let port = sockets.port s in
        let (owners, at, only) =
          get-unique_ports port node tables.port_owners tables-AreSound.keyed
            (rw (read, match_by_unique_port) at e) in
        let (listens, ids) =
          unique_owner_lem (AtPort port) owners node only
            (tables-AreSound.by_port port owners at) in
        (
          s,
          read,
          listens,
          All-map _ _ listen
              (λ la owned on.
                let (owners', at', among) = owned on in
                let same : owners' ≡ owners = some_eq (sym at' ∙ at) in
                owner_id owners node (node_ref la) ids (rw same at among))
              (add_listen_addresses-Owned lookup_host port listen _),
        )
  ]
    where
      owner_id :
          (owners : List ConfiguredNodeRef) (node other : ConfiguredNodeRef)
          → All (λ o. o.id ≡ node.id) owners
          → Any (λ o. o ≡ other) owners
          → other.id ≡ node.id
      owner_id [] node other ids among = absurd among
      owner_id (o ∷ owners) node other ids (inl here) = rw (← here) ids.0
      owner_id (o ∷ owners) node other ids (inr later) = owner_id owners node other ids.1 later

  bind_lem :
      (address : String) (node : ConfiguredNodeRef)
      → get_text address matcher.node_by_outbound_bind_addr ≡ some node
      → ByBind node address
  unfolding build_matcher
  bind_lem address node e =
      add_observed-TextEntries (λ a n. ByBind n a) observed []
        (All_among _ observed observed (λ P p. p) (λ o into a opened. into _ (refl, opened)))
        (λ k v e. absurd (cc)) address node e

  text_lem :
      (address : String) (node : ConfiguredNodeRef)
      → get_text address matcher.node_by_exact_listen_addr ≡ some node
      → ByText node address
  unfolding build_matcher
  text_lem address node e = tables-AreSound.by_text address node e

  or_else_cases :
      (o p : Option ConfiguredNodeRef) (node : ConfiguredNodeRef)
      → or_else o p ≡ some node
      → (o ≡ some node) ⊎ (p ≡ some node)
  or_else_cases none p node e = inr e
  or_else_cases (some n) p node e = inl e

  inbound_lem :
      (peer : PeerInfo) (node : ConfiguredNodeRef)
      → match_inbound_peer matcher peer ≡ some node
      → ByHost node peer.addr ⊎ ByBind node peer.addr
  unfolding match_inbound_peer
  inbound_lem peer node e = elim (or_else_cases (match_by_socket_addr matcher peer.addr) _ node e) [
    | inl host ↦ inl (host_lem peer.addr node host)
    | inr bind ↦ inr (bind_lem peer.addr node bind)
  ]

  outbound_lem :
      (peer : PeerInfo) (node : ConfiguredNodeRef)
      → match_outbound_peer matcher peer ≡ some node
      → ByHost node peer.addr ⊎ (ByText node peer.addr ⊎ ByPort node peer.addr)
  unfolding match_outbound_peer
  outbound_lem peer node e =
      elim (or_else_cases (match_by_socket_addr matcher peer.addr) _ node e) [
        | inl host ↦ inl (host_lem peer.addr node host)
        | inr rest ↦
            elim (or_else_cases (get_text peer.addr matcher.node_by_exact_listen_addr) _ node
              rest) [
                | inl text ↦ inr (inl (text_lem peer.addr node text))
                | inr port ↦ inr (inr (port_lem peer.addr node port))
              ]
      ]

  -- A node that a peer is taken for is another one than the node that has the peer, and its address is the
  -- peer's: a socket address of a host that the node listens at, or for a connection that comes in the local end
  -- of one that the node opened, or for one that goes out the text of a listen address or of a socket address
  -- of its host, or a port on which that node listens and no other.
  pub match_peer_lem :
      (local_node_id : ℕ) (peer : PeerInfo) (node : ConfiguredNodeRef)
      → match_peer (build_matcher lookup_host listen observed) local_node_id peer ≡ some node
      → (node.id ≢ local_node_id)
        × (((peer.inbound ≡ true) × (ByHost node peer.addr ⊎ ByBind node peer.addr))
            ⊎ ((peer.inbound ≡ false)
                × (ByHost node peer.addr ⊎ (ByText node peer.addr ⊎ ByPort node peer.addr))))
  unfolding match_peer match_inbound_peer match_outbound_peer
  match_peer_lem local_node_id peer node e = elim (Bool-cases peer.inbound) [
    | inl inwards ↦
        let (found, apart) =
          other_lem local_node_id (match_inbound_peer matcher peer) node
            (rw (inwards, match_peer) at e) in
        (apart, inl (inwards, inbound_lem peer node found))
    | inr outwards ↦
        let (found, apart) =
          other_lem local_node_id (match_outbound_peer matcher peer) node
            (rw (outwards, match_peer) at e) in
        (apart, inr (outwards, outbound_lem peer node found))
  ]
    where
      other_lem :
          (local : ℕ) (o : Option ConfiguredNodeRef) (node : ConfiguredNodeRef)
          → elim o as (λ _. Option ConfiguredNodeRef) [
            | none ↦ none
            | some n ↦ if not (n.id == local) then some n else none
          ]
            ≡ some node
          → (o ≡ some node) × (node.id ≢ local)
      other_lem local none node e = absurd (cc)
      other_lem local (some n) node e = elim (Bool-cases (n.id == local)) [
        | inl same ↦ absurd (cc (rw same at e))
        | inr differs ↦
            let found : n ≡ node = some_eq (rw differs at e) in
            (
              rw found refl,
              λ is_local. not_both ((==_iff n.id local).1 (rw found is_local)) differs,
            )
      ]
