-- ===== src/PeerApi/Disconnect.antt =====
-- What a request to disconnect a peer (src/peer_api.rs) does, and when.
use reorg_playground.Prelude.{
  ℕ, ◌≡◌, ◌≢◌, refl, ◌⊎◌, inl, inr, false, Option, none, some, [], ◌∷◌, Option-cases, List-cases,
  ok, err, Result-cases, if◌then◌else◌, some_eq, sym, ◌∙◌, subst,
}
use reorg_playground.External.Http.{StatusCode}
use reorg_playground.Node.{Node, Action}
use reorg_playground.Node.Errors.{FetchError}
use reorg_playground.State.{Network, AppState}
use reorg_playground.Api.{get_network, get_node}
use reorg_playground.Api.Guards.{
  status_of, status_of_error, is_ok, on_error_lem, Addresses, no_network, view_only, no_node,
  target, Target-cases,
}
use reorg_playground.PeerApi.{PeerConnectionRequest}
use reorg_playground.PeerApi.Actions.{
  peer_action_failure_response, PeerActionApiResponse, CounterpartyDisconnectPlan,
  peer_action_failure_from_fetch_error, collect_local_listen_address_candidates,
  plan_counterparty_disconnect, finish_disconnect, disconnect_node,
}

module _ {W : Type 0} where
  -- The request names the node at the other end, if any, and there is an address to tell it.
  abbrev pub Names : Network W → PeerConnectionRequest → Option (Node W) → Type 0
  Names network body none = body.counterparty_node_id ≡ none
  Names network body (some remote) =
      ((id : ℕ) × (body.counterparty_node_id ≡ some id) × (get_node network id ≡ some remote))
      × (collect_local_listen_address_candidates network body ≢ [])

  -- The call at the local node
  abbrev pub local_call : Node W → PeerConnectionRequest → Action W Unit
  local_call node body =
      node.remove_peer_connection body.address body.peer_id body.addnode_remove_addresses

  -- The call at the other end, if there is one
  abbrev pub counterparty_call : Network W → Option (Node W) → PeerConnectionRequest → Action W Unit
  counterparty_call network none body w = (ok tt, w)
  counterparty_call network (some other) body w =
      other.remove_counterparty_peer_connection
        (collect_local_listen_address_candidates network body) w

  -- Both calls, the second after a first one that succeeds
  abbrev pub both_calls :
      Network W → Node W → Option (Node W) → PeerConnectionRequest → Action W Unit
  both_calls network node remote body w =
      let (result, w') = local_call node body w in
      elim result [ err e ↦ (err e, w') | ok _ ↦ counterparty_call network remote body w' ]

module _ {W F : Type 0} where
  -- The request names a node of a network that may be controlled, and its counterparty can be told.
  pub record MayDisconnect (state : AppState W F) (network_id : ℕ) (body : PeerConnectionRequest)
      (network : Network W) (node : Node W) (remote : Option (Node W)) : Type 0 where
    pub network_eq : get_network state network_id ≡ some network
    pub may_control : network.view_only_mode ≡ false
    pub node_eq : get_node network body.node_id ≡ some node
    pub names : Names network body remote

none-ne-some : {A : Type 0} {a : A} → ◌≡◌ {A = Option A} none (some a) → ⊥
none-ne-some e = cc

failure_lem :
    (e : FetchError) (a b c : _)
    → let r = peer_action_failure_from_fetch_error e a b c in
      (r.1.success ≡ false) × (r.0 ≡ status_of_error e)
unfolding peer_action_failure_from_fetch_error
failure_lem e a b c =
    on_error_lem {A = PeerActionApiResponse} (λ r s. (r.1.success ≡ false) × (r.0 ≡ s)) _ _ _
      (refl, refl) (refl, refl) (refl, refl) e

module _ {W : Type 0} where
  -- The plan is for the call at the other end.
  abbrev PlanFor :
      Network W
      → PeerConnectionRequest
      → Option (Node W)
      → Option (CounterpartyDisconnectPlan W)
      → Type 0
  PlanFor network body none none = Unit
  PlanFor network body none (some plan) = ⊥
  PlanFor network body (some remote) none = ⊥
  PlanFor network body (some remote) (some plan) =
      (plan.remote_node ≡ remote)
      × (plan.local_listen_address_candidates
          ≡ collect_local_listen_address_candidates network body)

  no_address :
      (network : Network W) (body : PeerConnectionRequest) (id : ℕ)
      → body.counterparty_node_id ≡ some id
      → collect_local_listen_address_candidates network body ≡ []
      → (remote : Option (Node W)) → ¬ Names network body remote
  no_address network body id asked unknown none n = none-ne-some (sym n ∙ asked)
  no_address network body id asked unknown (some r) n = n.1 unknown

  no_counterparty :
      (network : Network W) (body : PeerConnectionRequest) (id : ℕ)
      → body.counterparty_node_id ≡ some id
      → get_node network id ≡ none
      → (remote : Option (Node W)) → ¬ Names network body remote
  no_counterparty network body id asked nobody none n = none-ne-some (sym n ∙ asked)
  no_counterparty network body id asked nobody (some r) ((id', asked', named), known) =
      let same : id' ≡ id = some_eq (sym asked' ∙ asked) in
      none-ne-some (sym nobody ∙ rw same at named)

  plan_cases :
      (network : Network W) (body : PeerConnectionRequest)
      → ((resp : PeerActionApiResponse) × (plan_counterparty_disconnect network body ≡ err resp)
          × (resp.1.success ≡ false)
          × ((remote : Option (Node W)) → ¬ Names network body remote))
        ⊎ ((remote : Option (Node W)) × (plan : Option (CounterpartyDisconnectPlan W))
            × (plan_counterparty_disconnect network body ≡ ok plan)
            × Names network body remote
            × PlanFor network body remote plan)
  unfolding plan_counterparty_disconnect
  plan_cases network body = elim (Option-cases body.counterparty_node_id) [
    | inl alone ↦ inr (none, none, rw (alone, plan_counterparty_disconnect) refl, alone, tt)
    | inr (id, asked) ↦ elim (List-cases (collect_local_listen_address_candidates network body)) [
      | inl unknown ↦ inl (
        peer_action_failure_response StatusCode.bad_request "PEER_LOCAL_CATALOG_ADDRESS_REQUIRED",
        rw (asked, unknown, plan_counterparty_disconnect) refl,
        refl,
        no_address network body id asked unknown,
      )
      | inr (address, rest, known) ↦ elim (Option-cases (get_node network id)) [
        | inl nobody ↦ inl (
          peer_action_failure_response StatusCode.bad_request "PEER_REMOTE_NODE_NOT_FOUND",
          rw (asked, known, nobody, plan_counterparty_disconnect) refl,
          refl,
          no_counterparty network body id asked nobody,
        )
        | inr (other, named) ↦ inr (
          some other,
          some (record {
            remote_node_id = id;
            remote_node = other;
            local_listen_address_candidates = address ∷ rest;
          }),
          rw (asked, known, named, plan_counterparty_disconnect) refl,
          ((id, asked, named), λ empty. cc),
          (refl, sym known),
        )
      ]
    ]
  ]

  finish_lem :
      (network_id : ℕ) (network : Network W) (body : PeerConnectionRequest)
      (remote : Option (Node W)) (plan : Option (CounterpartyDisconnectPlan W)) (w : W)
      → PlanFor network body remote plan
      → let (response, after, published) = finish_disconnect network_id plan w in
        let called = counterparty_call network remote body w in
        (after ≡ called.1)
        × (response.1.success ≡ is_ok called.0)
        × (response.0 ≡ status_of called.0)
        × (published ≡ network_id ∷ [])
  unfolding finish_disconnect
  finish_lem network_id network body none none w fits = (refl, refl, refl, refl)
  finish_lem network_id network body none (some plan) w fits = absurd fits
  finish_lem network_id network body (some remote) none w fits = absurd fits
  finish_lem network_id network body (some remote) (some plan) w (same, candidates) =
      let told_to : counterparty_call network (some remote) body w
          ≡ plan.remote_node.remove_counterparty_peer_connection
              plan.local_listen_address_candidates w =
        cc in
      rw told_to
        (elim (Result-cases
          (plan.remote_node.remove_counterparty_peer_connection plan.local_listen_address_candidates
            w).0) [
              | inl (e, failed) ↦
                  let (told, status) =
                    failure_lem e "PEER_REMOTE_BACKEND_UNSUPPORTED" "PEER_REMOTE_INVALID_REQUEST"
                      "PEER_REMOTE_EXECUTION_FAILED" in
                  rw (failed, finish_disconnect) (refl, told, status, refl)
              | inr (_, done) ↦ rw (done, finish_disconnect) (refl, refl, refl, refl)
            ])

module _ {W F : Type 0} where
  addresses :
      {state : AppState W F} {network_id : ℕ} {body : PeerConnectionRequest} {network : Network W}
      {node : Node W} {remote : Option (Node W)}
      → MayDisconnect state network_id body network node remote
      → Addresses state network_id body.node_id node
  addresses {network = network} may = record {
    network = network;
    network_eq = may.network_eq;
    may_control = may.may_control;
    node_eq = may.node_eq;
  }

module _ {W F : Type 0} where
  -- `disconnect_node` calls the nodes exactly if the request names a node of a network that is not view-only
  -- and, where it names a counterparty, that is a node of the network and an address of the local node is known:
  -- first the local node, and the counterparty only after that has succeeded. The answer tells of success
  -- just where all calls succeed, with the status of the first error otherwise. The id of the network is sent
  -- into the channel of peer changes exactly if the local call succeeds, whatever the other one gives.
  pub disconnect_node_lem :
      (state : AppState W F) (network_id : ℕ) (body : PeerConnectionRequest) (w : W)
      → let (response, after, published) = disconnect_node state network_id body w in
        ((network : Network W) × (node : Node W) × (remote : Option (Node W)) × MayDisconnect state
            network_id body network node remote
          × let called = both_calls network node remote body w in
            (after ≡ called.1)
            × (response.1.success ≡ is_ok called.0)
            × (response.0 ≡ status_of called.0)
            × (published ≡ (if is_ok (local_call node body w).0 then network_id ∷ [] else [])))
        ⊎ ((after ≡ w)
            × (response.1.success ≡ false)
            × (published ≡ [])
            × ((network : Network W) (node : Node W) (remote : Option (Node W))
                → ¬ MayDisconnect state network_id body network node remote))
  unfolding disconnect_node
  disconnect_node_lem state network_id body w = elim (Target-cases state network_id body.node_id) [
    | no_network missing denied ↦
        rw (missing, disconnect_node)
          (inr (refl, refl, refl, λ n node r may. denied node (addresses may)))
    | view_only network found closed denied ↦
        rw (found, closed, disconnect_node)
          (inr (refl, refl, refl, λ n node r may. denied node (addresses may)))
    | no_node network found may nobody denied ↦
        rw (found, may, nobody, disconnect_node)
          (inr (refl, refl, refl, λ n node r may. denied node (addresses may)))
    | target network node found may named only ↦ elim (plan_cases network body) [
      | inl (resp, failed, told, unnamed) ↦
          rw (found, may, named, failed, disconnect_node)
            (inr (
              refl,
              told,
              refl,
              λ n other r allowed. unnamed r (
                  subst (λ (m : Network W). Names m body r)
                    (some_eq (sym allowed.network_eq ∙ found)) allowed.names),
            ))
      | inr (remote, plan, planned, names, fits) ↦
          let local = local_call node body w in
          let allowed : MayDisconnect state network_id body network node remote = record {
            network_eq = found;
            may_control = may;
            node_eq = named;
            names = names;
          } in
          elim (Result-cases local.0) [
            | inl (e, failed) ↦
                let (told, status) =
                  failure_lem e "PEER_BACKEND_UNSUPPORTED" "PEER_INVALID_REQUEST"
                    "PEER_EXECUTION_FAILED" in
                rw (found, may, named, planned, failed, disconnect_node)
                  (inl (
                    network,
                    node,
                    remote,
                    allowed,
                    rw (failed, both_calls) (refl, told, status, refl),
                  ))
            | inr (_, done) ↦
                rw (found, may, named, planned, done, disconnect_node)
                  (inl (
                    network,
                    node,
                    remote,
                    allowed,
                    rw (done, both_calls)
                        (finish_lem network_id network body remote plan local.1 fits),
                  ))
          ]
    ]
  ]
