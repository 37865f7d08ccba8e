-- ===== src/PeerApi/Actions.antt =====
-- The handlers of src/peer_api.rs that connect and disconnect peers. The last part of a result is what is sent
-- into the channel of peer changes.
use Prim.Native.String.{String}
use text.Mathlib.Text.{◌==◌ as str_eq}
use reorg_playground.Prelude.{
  ℕ, true, false, not, Option, none, some, List, [], ◌∷◌, map, filter_by, Result, ok, err, ◌>>=◌,
  ok_or, trim,
}
use reorg_playground.External.Http.{StatusCode}
use reorg_playground.Node.{Node, info_of}
use reorg_playground.Node.Errors.{FetchError}
use reorg_playground.State.{Network, AppState}
use reorg_playground.Api.{get_network, get_node, on_error}
use reorg_playground.PeerApi.{PeerConnectionRequest, PeerActionResponse}

abbrev pub PeerActionApiResponse : Type 0
PeerActionApiResponse = StatusCode × PeerActionResponse

abbrev pub ok_peer_action_response : PeerActionApiResponse
ok_peer_action_response = (StatusCode.ok, record { success = true; error = none })

abbrev pub peer_action_failure_response : StatusCode → String → PeerActionApiResponse
peer_action_failure_response status code = (status, record { success = false; error = some code })

unfoldable pub peer_action_failure_from_fetch_error :
    FetchError → String → String → String → PeerActionApiResponse
peer_action_failure_from_fetch_error e unsupported_code invalid_request_code execution_failed_code =
    on_error (peer_action_failure_response StatusCode.bad_request unsupported_code)
      (peer_action_failure_response StatusCode.bad_request invalid_request_code)
      (peer_action_failure_response StatusCode.internal_server_error execution_failed_code) e

-- `log_and_map_local_peer_action_error`, less the log
abbrev pub local_peer_action_error : FetchError → PeerActionApiResponse
local_peer_action_error e =
    peer_action_failure_from_fetch_error e "PEER_BACKEND_UNSUPPORTED" "PEER_INVALID_REQUEST"
      "PEER_EXECUTION_FAILED"

module _ {W F : Type 0} where
  unfoldable pub resolve_peer_action_target :
      AppState W F → ℕ → ℕ → Result PeerActionApiResponse (Network W × Node W)
  resolve_peer_action_target state network_id node_id = do
    network ←
        ok_or (get_network state network_id)
          (peer_action_failure_response StatusCode.not_found "PEER_NETWORK_NOT_FOUND")
    elim network.view_only_mode [
      | true ↦ err (peer_action_failure_response StatusCode.bad_request "PEER_FEATURE_DISABLED")
      | false ↦ do
        node ←
            ok_or (get_node network node_id)
              (peer_action_failure_response StatusCode.bad_request "PEER_NODE_NOT_FOUND")
        ok (network, node)
    ]

pub record CounterpartyDisconnectPlan (W : Type 0) : Type 0 where
  pub remote_node_id : ℕ
  pub remote_node : Node W
  pub local_listen_address_candidates : List String

module _ {W : Type 0} where
  -- The address of the local node in the configuration, if there is one
  abbrev configured_address : Network W → ℕ → List String
  configured_address network node_id = elim (get_node network node_id) [
    | none ↦ []
    | some local_node ↦ elim (info_of local_node).p2p_address [
      | none ↦ []
      | some address ↦ address ∷ []
    ]
  ]

  unfoldable pub collect_local_listen_address_candidates :
      Network W → PeerConnectionRequest → List String
  collect_local_listen_address_candidates network request =
      elim (filter_by (λ address. not (str_eq address ""))
        (map trim request.local_listen_address_candidates)) [
          | [] ↦ configured_address network request.node_id
          | address ∷ addresses ↦ address ∷ addresses
        ]

  unfoldable pub plan_counterparty_disconnect :
      Network W
      → PeerConnectionRequest
      → Result PeerActionApiResponse (Option (CounterpartyDisconnectPlan W))
  plan_counterparty_disconnect network request = elim request.counterparty_node_id [
    | none ↦ ok none
    | some remote_node_id ↦ elim (collect_local_listen_address_candidates network request) [
      | [] ↦ err (
          peer_action_failure_response StatusCode.bad_request "PEER_LOCAL_CATALOG_ADDRESS_REQUIRED")
      | address ∷ addresses ↦ do
        remote_node ←
            ok_or (get_node network remote_node_id)
              (peer_action_failure_response StatusCode.bad_request "PEER_REMOTE_NODE_NOT_FOUND")
        ok (
            some (record {
              remote_node_id = remote_node_id;
              remote_node = remote_node;
              local_listen_address_candidates = address ∷ addresses;
            }))
    ]
  ]

  unfoldable pub execute_counterparty_disconnect :
      CounterpartyDisconnectPlan W → W → Result PeerActionApiResponse Unit × W
  execute_counterparty_disconnect cleanup w =
      let (result, w') =
        cleanup.remote_node.remove_counterparty_peer_connection
          cleanup.local_listen_address_candidates w in
      (
        elim result [
          | ok _ ↦ ok tt
          | err e ↦ err (
              peer_action_failure_from_fetch_error e "PEER_REMOTE_BACKEND_UNSUPPORTED"
                "PEER_REMOTE_INVALID_REQUEST" "PEER_REMOTE_EXECUTION_FAILED")
        ],
        w',
      )

  -- The end of `disconnect_node`, after the local call has succeeded
  unfoldable pub finish_disconnect :
      ℕ → Option (CounterpartyDisconnectPlan W) → W → PeerActionApiResponse × W × List ℕ
  unfolding execute_counterparty_disconnect
  finish_disconnect network_id none w = (ok_peer_action_response, w, network_id ∷ [])
  finish_disconnect network_id (some cleanup) w =
      let (result, w') = execute_counterparty_disconnect cleanup w in
      elim result [
        | ok _ ↦ (ok_peer_action_response, w', network_id ∷ [])
        | err resp ↦ (resp, w', network_id ∷ [])
      ]

module _ {W F : Type 0} where
  unfoldable pub add_node :
      AppState W F → ℕ → PeerConnectionRequest → W → PeerActionApiResponse × W × List ℕ
  unfolding resolve_peer_action_target
  add_node state network_id body w =
      elim (resolve_peer_action_target state network_id body.node_id) [
        | err resp ↦ (resp, w, [])
        | ok (network, node) ↦
            let (result, w') = node.add_peer body.address w in
            elim result [
              | ok _ ↦ (ok_peer_action_response, w', network_id ∷ [])
              | err e ↦ (local_peer_action_error e, w', [])
            ]
      ]

  unfoldable pub disconnect_node :
      AppState W F → ℕ → PeerConnectionRequest → W → PeerActionApiResponse × W × List ℕ
  unfolding resolve_peer_action_target plan_counterparty_disconnect
  disconnect_node state network_id body w =
      elim (resolve_peer_action_target state network_id body.node_id) [
        | err resp ↦ (resp, w, [])
        | ok (network, node) ↦ elim (plan_counterparty_disconnect network body) [
          | err resp ↦ (resp, w, [])
          | ok counterparty_disconnect ↦
              let (result, w') =
                node.remove_peer_connection body.address body.peer_id body.addnode_remove_addresses
                  w in
              elim result [
                | ok _ ↦ finish_disconnect network_id counterparty_disconnect w'
                | err e ↦ (local_peer_action_error e, w', [])
              ]
        ]
      ]
