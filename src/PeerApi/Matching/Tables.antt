-- ===== src/PeerApi/Matching/Tables.antt =====
-- What stands in the tables of `PeerNodeMatcher` (src/peer_api.rs), for predicates that the entries have.
use Prim.Native.String.{String}
use reorg_playground.Prelude.{
  ℕ, ◌<◌, ◌≡◌, refl, ◌⊎◌, inl, inr, Option, some, List, [], ◌∷◌, arith, All, count, Option-cases,
}
use reorg_playground.External.Sockets.{SocketAddr, Sockets}
use reorg_playground.PeerApi.{ConfiguredNodeRef, NodeListenAddress}
use reorg_playground.PeerApi.Addresses.{listen_port_from_address}
use reorg_playground.PeerApi.Matching.{
  ListenTables, add_named, node_ref, add_resolved, add_listen_address, add_listen_addresses,
}
use reorg_playground.PeerApi.Matching.Ports.{
  AllOwners, AllOwners-push_owner, IsKeyed, push_owner-IsKeyed,
}
use reorg_playground.PeerApi.Matching.Entries.{
  Entries, TextEntries, Entries-insert, TextEntries-insert,
}

module _ ⦃sockets : Sockets⦄ (lookup_host : String → Option (List SocketAddr)) where
  -- The host of the listen address has this socket address.
  abbrev pub ResolvesTo : NodeListenAddress → SocketAddr → Type 0
  ResolvesTo la s =
      (resolved : List SocketAddr) × (lookup_host la.address ≡ some resolved)
      × (0 < count s resolved)

  -- The port is that of the listen address, or of a socket address of its host.
  abbrev pub ListensOn : NodeListenAddress → ℕ → Type 0
  ListensOn la port =
      (listen_port_from_address la.address ≡ some port)
      ⊎ ((s : SocketAddr) × ResolvesTo la s × (sockets.port s ≡ port))

  module _ (P R : ℕ → ConfiguredNodeRef → Type 0) (Q : String → ConfiguredNodeRef → Type 0) where
    -- The entries have the properties.
    pub record AreSound (tables : ListenTables) : Type 0 where
      pub by_socket : Entries P tables.node_by_socket_addr
      pub by_text : TextEntries Q tables.node_by_exact_listen_addr
      pub by_port : AllOwners R tables.port_owners
      pub keyed : IsKeyed tables.port_owners

    -- The properties hold of what the listen address adds.
    pub record Supports (la : NodeListenAddress) : Type 0 where
      pub socket : (s : SocketAddr) → ResolvesTo la s → P s (node_ref la)
      pub text : Q la.address (node_ref la)
      pub socket_text : (s : SocketAddr) → ResolvesTo la s → Q (sockets.to_string s) (node_ref la)
      pub port : (p : ℕ) → ListensOn la p → R p (node_ref la)

    add_resolved-AreSound :
        (node : ConfiguredNodeRef) (resolved : List SocketAddr) (tables : ListenTables)
        → ((s : SocketAddr)
            → 0 < count s resolved
            → P s node × Q (sockets.to_string s) node × R (sockets.port s) node)
        → AreSound tables
        → AreSound (add_resolved lookup_host node resolved tables)
    unfolding add_resolved
    add_resolved-AreSound node [] tables new sound = sound
    add_resolved-AreSound node (s ∷ resolved) tables new sound =
        let (at_socket, at_text, at_port) = new s (ground arith) in
        add_resolved-AreSound node resolved _ (λ x among. new x (ground arith))
          (record {
            by_socket =
                Entries-insert P s node tables.node_by_socket_addr sound.by_socket at_socket;
            by_text =
                TextEntries-insert Q (sockets.to_string s) node tables.node_by_exact_listen_addr
                  sound.by_text at_text;
            by_port =
                AllOwners-push_owner R (sockets.port s) node tables.port_owners sound.by_port
                  at_port;
            keyed = push_owner-IsKeyed (sockets.port s) node tables.port_owners sound.keyed;
          })

    add_named-AreSound :
        (la : NodeListenAddress) (tables : ListenTables)
        → Supports la
        → AreSound tables
        → AreSound (add_named lookup_host tables la)
    add_named-AreSound la tables new sound =
        elim (Option-cases (listen_port_from_address la.address)) [
          | inl unknown ↦ rw unknown (record {
            by_socket = sound.by_socket;
            by_text = TextEntries-insert Q la.address _ _ sound.by_text new.text;
            by_port = sound.by_port;
            keyed = sound.keyed;
          })
          | inr (port, known) ↦ rw known (record {
            by_socket = sound.by_socket;
            by_text = TextEntries-insert Q la.address _ _ sound.by_text new.text;
            by_port =
                AllOwners-push_owner R port _ tables.port_owners sound.by_port
                  (new.port port (inl known));
            keyed = push_owner-IsKeyed port _ tables.port_owners sound.keyed;
          })
        ]

    add_listen_address-AreSound :
        (la : NodeListenAddress) (tables : ListenTables)
        → Supports la
        → AreSound tables
        → AreSound (add_listen_address lookup_host tables la)
    unfolding add_listen_address
    add_listen_address-AreSound la tables new sound =
        let named = add_named-AreSound la tables new sound in
        elim (Option-cases (lookup_host la.address)) [
          | inl unresolved ↦ rw (unresolved, add_listen_address) named
          | inr (resolved, found) ↦
              rw (found, add_listen_address)
                (add_resolved-AreSound (node_ref la) resolved (add_named lookup_host tables la)
                  (λ s among.
                    let at_s : ResolvesTo la s = (resolved, found, among) in
                    (new.socket s at_s, new.socket_text s at_s, new.port _ (inr (s, at_s, refl))))
                  named)
        ]

    pub add_listen_addresses-AreSound :
        (las : List NodeListenAddress) (tables : ListenTables)
        → All Supports las
        → AreSound tables
        → AreSound (add_listen_addresses lookup_host tables las)
    unfolding add_listen_addresses
    add_listen_addresses-AreSound [] tables new sound = sound
    add_listen_addresses-AreSound (la ∷ las) tables (first, rest) sound =
        add_listen_addresses-AreSound las (add_listen_address lookup_host tables la) rest
          (add_listen_address-AreSound la tables first sound)
