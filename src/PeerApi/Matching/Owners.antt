-- ===== src/PeerApi/Matching/Owners.antt =====
-- Every node that listens on a port is among the port's owners in the tables of `PeerNodeMatcher`
-- (src/peer_api.rs).
use Prim.Native.String.{String}
use reorg_playground.Prelude.{
  ℕ, ◌<◌, ◌≡◌, inl, inr, Option, List, [], ◌∷◌, arith, All, count, ==_iff, Option-cases, Bool-cases,
  ◌==◌,
}
use reorg_playground.External.Sockets.{SocketAddr, Sockets}
use reorg_playground.PeerApi.{ConfiguredNodeRef, NodeListenAddress}
use reorg_playground.PeerApi.Addresses.{listen_port_from_address}
use reorg_playground.PeerApi.Matching.{
  ListenTables, add_named, node_ref, add_resolved, add_listen_address, add_listen_addresses,
}
use reorg_playground.PeerApi.Matching.Tables.{ListensOn}
use reorg_playground.PeerApi.Matching.Ports.{Owned, Owned-push_owner, Owned-kept}

module _ ⦃sockets : Sockets⦄ (lookup_host : String → Option (List SocketAddr)) where
  -- An owner stays an owner.
  add_resolved-kept :
      (p : ℕ) (other node : ConfiguredNodeRef) (resolved : List SocketAddr) (tables : ListenTables)
      → Owned p other tables.port_owners
      → Owned p other (add_resolved lookup_host node resolved tables).port_owners
  unfolding add_resolved
  add_resolved-kept p other node [] tables owned = owned
  add_resolved-kept p other node (s ∷ resolved) tables owned =
      add_resolved-kept p other node resolved _
        (Owned-kept p (sockets.port s) other node tables.port_owners owned)

  add_resolved-Owned :
      (s : SocketAddr) (node : ConfiguredNodeRef) (resolved : List SocketAddr)
      (tables : ListenTables)
      → 0 < count s resolved
      → Owned (sockets.port s) node (add_resolved lookup_host node resolved tables).port_owners
  unfolding add_resolved
  add_resolved-Owned s node [] tables among = absurd (omega arith)
  add_resolved-Owned s node (x ∷ resolved) tables among = elim (Bool-cases (s == x)) [
    | inl same ↦
        let at_x : s ≡ x = (==_iff s x).0 same in
        add_resolved-kept (sockets.port s) node node resolved _
          (rw at_x (Owned-push_owner (sockets.port x) node tables.port_owners))
    | inr other ↦ add_resolved-Owned s node resolved _ (ground arith)
  ]

  add_named-kept :
      (p : ℕ) (other : ConfiguredNodeRef) (la : NodeListenAddress) (tables : ListenTables)
      → Owned p other tables.port_owners
      → Owned p other (add_named lookup_host tables la).port_owners
  add_named-kept p other la tables owned =
      elim (Option-cases (listen_port_from_address la.address)) [
        | inl unknown ↦ rw (unknown, add_named) owned
        | inr (port, known) ↦
            rw (known, add_named) (Owned-kept p port other (node_ref la) tables.port_owners owned)
      ]

  add_listen_address-kept :
      (p : ℕ) (other : ConfiguredNodeRef) (la : NodeListenAddress) (tables : ListenTables)
      → Owned p other tables.port_owners
      → Owned p other (add_listen_address lookup_host tables la).port_owners
  unfolding add_listen_address
  add_listen_address-kept p other la tables owned =
      let named = add_named-kept p other la tables owned in
      elim (Option-cases (lookup_host la.address)) [
        | inl unresolved ↦ rw (unresolved, add_listen_address) named
        | inr (resolved, found) ↦
            rw (found, add_listen_address)
              (add_resolved-kept p other (node_ref la) resolved (add_named lookup_host tables la)
                named)
      ]

  add_listen_address-Owned :
      (p : ℕ) (la : NodeListenAddress) (tables : ListenTables)
      → ListensOn lookup_host la p
      → Owned p (node_ref la) (add_listen_address lookup_host tables la).port_owners
  unfolding add_listen_address
  add_listen_address-Owned p la tables (inl known) =
      let named : Owned p (node_ref la) (add_named lookup_host tables la).port_owners =
        rw (known, add_named) (Owned-push_owner p (node_ref la) tables.port_owners) in
      elim (Option-cases (lookup_host la.address)) [
        | inl unresolved ↦ rw (unresolved, add_listen_address) named
        | inr (resolved, found) ↦
            rw (found, add_listen_address)
              (add_resolved-kept p (node_ref la) (node_ref la) resolved
                (add_named lookup_host tables la) named)
      ]
  add_listen_address-Owned p la tables (inr (s, (resolved, found, among), at_port)) =
      rw (found, add_listen_address, ← at_port)
        (add_resolved-Owned s (node_ref la) resolved (add_named lookup_host tables la) among)

  add_listen_addresses-kept :
      (p : ℕ) (other : ConfiguredNodeRef) (las : List NodeListenAddress) (tables : ListenTables)
      → Owned p other tables.port_owners
      → Owned p other (add_listen_addresses lookup_host tables las).port_owners
  unfolding add_listen_addresses
  add_listen_addresses-kept p other [] tables owned = owned
  add_listen_addresses-kept p other (la ∷ las) tables owned =
      add_listen_addresses-kept p other las (add_listen_address lookup_host tables la)
        (add_listen_address-kept p other la tables owned)

  pub add_listen_addresses-Owned :
      (p : ℕ) (las : List NodeListenAddress) (tables : ListenTables)
      → All
          (λ la.
            ListensOn lookup_host la p
            → Owned p (node_ref la) (add_listen_addresses lookup_host tables las).port_owners)
          las
  unfolding add_listen_addresses
  add_listen_addresses-Owned p [] tables = tt
  add_listen_addresses-Owned p (la ∷ las) tables =
      let next = add_listen_address lookup_host tables la in
      (
        λ listens.
            add_listen_addresses-kept p (node_ref la) las next
              (add_listen_address-Owned p la tables listens),
        add_listen_addresses-Owned p las next,
      )
