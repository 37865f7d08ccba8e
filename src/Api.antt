-- ===== src/Api.antt =====
-- The HTTP handlers of src/api.rs. The path and the body are arguments; a handler's result is the status,
-- the response and the state of the nodes after the calls that it makes.
pub mod Guards
pub mod Controls
pub mod Faucet
pub mod Payout
pub mod PeerStates
mod Tests
use Prim.Native.String.{String}
use reorg_playground.Prelude.{
  ℕ, Bool, true, false, not, ◌&&◌, ◌||◌, ◌==◌, ltb, Option, none, some, List, [], ◌∷◌, Map, get,
  values, find_by, Result, ok, err, if◌then◌else◌, to_lowercase, contains, trim,
}
use reorg_playground.External.Bitcoin.{Bitcoin}
use reorg_playground.External.Http.{StatusCode}
use reorg_playground.External.Network.{Payments}
use reorg_playground.Node.{
  Node, info_of, supports_controls, supports_mining, FaucetSendResult, MineBlocksOptions,
}
use reorg_playground.Node.Errors.{FetchError, not_supported, data_error}
use reorg_playground.State.{Network, AppState, Cache, is_regtest}
use reorg_playground.Types.{HeaderInfoJson}
use reorg_playground.Types.Tips.{NodeDataJson}
use reorg_playground.Types.Metrics.{
  Float, NetworkMetricsJson, metrics_unavailable, no_reachable_active_tip,
}

module _ {W F : Type 0} where
  unfoldable pub get_network : AppState W F → ℕ → Option (Network W)
  get_network state network_id = find_by (λ network. network.id == network_id) state.networks

module _ {W : Type 0} where
  unfoldable pub get_node : Network W → ℕ → Option (Node W)
  get_node network node_id = find_by (λ node. (info_of node).id == node_id) network.nodes

pub record DataJsonResponse (F : Type 0) : Type 0 where
  pub header_infos : List HeaderInfoJson
  pub nodes : List NodeDataJson
  pub metrics : NetworkMetricsJson F

module _ {W F : Type 0} ⦃float : Float F⦄ where
  pub data_response : AppState W F → ℕ → DataJsonResponse F
  data_response state network_id = elim (get network_id state.caches) [
    | some cache ↦ record {
      header_infos = cache.header_infos_json;
      nodes = values cache.node_data;
      metrics = cache.metrics;
    }
    | none ↦ record {
      header_infos = [];
      nodes = [];
      metrics = elim (get_network state network_id) [
        | none ↦ record { stale_block_rate = record { as_of_height = none; windows = [] } }
        | some network ↦ metrics_unavailable network.stale_rate_ranges no_reachable_active_tip
      ];
    }
  ]

pub record NodeP2PState : Type 0 where
  pub node_id : ℕ
  pub active : Option Bool

module _ {W : Type 0} where
  pub load_node_p2p_state : Node W → W → NodeP2PState × W
  load_node_p2p_state node w =
      let (result, w') = node.p2p_network_active w in
      (
        record {
          node_id = (info_of node).id;
          active = elim result [ ok active ↦ some active | err _ ↦ none ];
        },
        w',
      )

  -- `join_all`; the calls are made in the order of the nodes, which is one of those that are possible.
  pub load_p2p_states : List (Node W) → W → List NodeP2PState × W
  load_p2p_states [] w = ([], w)
  load_p2p_states (node ∷ nodes) w =
      let (node_state, w') = load_node_p2p_state node w in
      let (states, w'') = load_p2p_states nodes w' in (node_state ∷ states, w'')

module _ {W F : Type 0} where
  pub p2p_state_response : AppState W F → ℕ → W → (StatusCode × List NodeP2PState) × W
  p2p_state_response state network_id w = elim (get_network state network_id) [
    | none ↦ ((StatusCode.not_found, []), w)
    | some network ↦
        let (nodes, w') = load_p2p_states network.nodes w in ((StatusCode.ok, nodes), w')
  ]

-- What an SSE subscriber reads from the channel, and what it is told
pub data Received : Type 0 where
  changed : ℕ → Received
  lagged : ℕ → Received

pub data Event : Type 0 where
  cache_changed : ℕ → Event
  resync_required : String → ℕ → Event

-- The closure that `cache_changes_sse` filters the channel with
pub cache_change_event : Option ℕ → Received → Option Event
cache_change_event filter_network_id (changed network_id) = elim filter_network_id [
  | none ↦ some (cache_changed network_id)
  | some selected_id ↦
      if not (selected_id == network_id) then none else some (cache_changed network_id)
]
cache_change_event filter_network_id (lagged dropped_messages) =
    some (resync_required "lagged" dropped_messages)

pub record MineBlockRequest : Type 0 where
  pub node_id : ℕ
  pub count : Option ℕ
  pub exclude_mempool_txs : Option Bool

pub record MineBlockResponse : Type 0 where
  pub success : Bool
  pub error : Option String

pub record RewindChainRequest : Type 0 where
  pub node_id : ℕ
  pub depth : ℕ

pub record RewindChainResponse : Type 0 where
  pub success : Bool
  pub invalidated_block_hash : Option String
  pub error : Option String

pub record ReconsiderBlockRequest : Type 0 where
  pub node_id : ℕ
  pub block_hash : String

pub record SetNetworkActiveRequest : Type 0 where
  pub node_id : ℕ
  pub active : Bool

pub record SetNetworkActiveResponse : Type 0 where
  pub success : Bool
  pub error : Option String

-- `option.unwrap_or(x)`
abbrev pub unwrap_or : {A : Type 0} → Option A → A → A
unwrap_or none x = x
unwrap_or (some a) x = a

-- `match` on an error with an arm for `NotSupported`, one for `DataError` and one for all others
pub on_error : {A : Type 0} → A → A → A → FetchError → A
on_error unsupported invalid other (not_supported node operation) = unsupported
on_error unsupported invalid other (data_error message) = invalid
on_error unsupported invalid other _ = other

abbrev mine_failed : String → MineBlockResponse
mine_failed code = record { success = false; error = some code }

abbrev mine_succeeded : MineBlockResponse
mine_succeeded = record { success = true; error = none }

-- The `match` on the result of the call in `mine_block`
mine_answer : Result FetchError (List ℕ) → StatusCode × MineBlockResponse
mine_answer (ok _) = (StatusCode.ok, mine_succeeded)
mine_answer (err e) =
    on_error (StatusCode.bad_request, mine_failed "MINE_BACKEND_UNSUPPORTED")
      (StatusCode.bad_request, mine_failed "MINE_INVALID_REQUEST")
      (StatusCode.internal_server_error, mine_failed "MINE_EXECUTION_FAILED") e

abbrev rewind_failed : String → RewindChainResponse
rewind_failed code = record { success = false; invalidated_block_hash = none; error = some code }

module _ ⦃bitcoin : Bitcoin⦄ where
  rewind_answer : Result FetchError ℕ → StatusCode × RewindChainResponse
  rewind_answer (ok block_hash) = (
    StatusCode.ok,
    record {
      success = true;
      invalidated_block_hash = some (bitcoin.to_string block_hash);
      error = none;
    },
  )
  rewind_answer (err e) =
      on_error (StatusCode.bad_request, rewind_failed "REWIND_BACKEND_UNSUPPORTED")
        (StatusCode.bad_request, rewind_failed "REWIND_INVALID_REQUEST")
        (StatusCode.internal_server_error, rewind_failed "REWIND_EXECUTION_FAILED") e

reconsider_answer : Result FetchError Unit → StatusCode × MineBlockResponse
reconsider_answer (ok _) = (StatusCode.ok, mine_succeeded)
reconsider_answer (err e) =
    on_error (StatusCode.bad_request, mine_failed "RECONSIDER_BACKEND_UNSUPPORTED")
      (StatusCode.bad_request, mine_failed "RECONSIDER_INVALID_REQUEST")
      (StatusCode.internal_server_error, mine_failed "RECONSIDER_EXECUTION_FAILED") e

abbrev set_active_failed : String → SetNetworkActiveResponse
set_active_failed code = record { success = false; error = some code }

set_active_answer : Result FetchError Unit → StatusCode × SetNetworkActiveResponse
set_active_answer (ok _) = (StatusCode.ok, record { success = true; error = none })
set_active_answer (err e) =
    on_error (StatusCode.bad_request, set_active_failed "NETWORK_CONTROL_BACKEND_UNSUPPORTED")
      (StatusCode.bad_request, set_active_failed "NETWORK_CONTROL_INVALID_REQUEST")
      (StatusCode.internal_server_error, set_active_failed "NETWORK_CONTROL_EXECUTION_FAILED") e

module _ {W F : Type 0} where
  pub mine_block : AppState W F → ℕ → MineBlockRequest → W → (StatusCode × MineBlockResponse) × W
  mine_block state network_id body w = elim (get_network state network_id) [
    | none ↦ ((StatusCode.not_found, mine_failed "MINE_NETWORK_NOT_FOUND"), w)
    | some network ↦ elim network.view_only_mode [
      | true ↦ ((StatusCode.bad_request, mine_failed "MINE_FEATURE_DISABLED"), w)
      | false ↦ elim (get_node network body.node_id) [
        | none ↦ ((StatusCode.bad_request, mine_failed "MINE_BACKEND_UNSUPPORTED"), w)
        | some node ↦ elim (supports_mining node network.view_only_mode) [
          | false ↦ ((StatusCode.bad_request, mine_failed "MINE_NODE_NOT_A_MINER"), w)
          | true ↦
              let count = unwrap_or body.count 1 in
              let options : MineBlocksOptions = record {
                exclude_mempool_txs = unwrap_or body.exclude_mempool_txs false;
              } in
              let (result, w') = node.mine_new_blocks_with_options count options w in
              (mine_answer result, w')
        ]
      ]
    ]
  ]

  -- The last part is what is sent into the channel `peer_changed_tx`.
  pub set_network_active :
      AppState W F
      → ℕ
      → SetNetworkActiveRequest
      → W
      → (StatusCode × SetNetworkActiveResponse) × W × List ℕ
  set_network_active state network_id body w = elim (get_network state network_id) [
    | none ↦ ((StatusCode.not_found, set_active_failed "NETWORK_CONTROL_NETWORK_NOT_FOUND"), w, [])
    | some network ↦ elim network.view_only_mode [
      | true ↦
          ((StatusCode.bad_request, set_active_failed "NETWORK_CONTROL_FEATURE_DISABLED"), w, [])
      | false ↦ elim (get_node network body.node_id) [
        | none ↦ (
          (StatusCode.bad_request, set_active_failed "NETWORK_CONTROL_BACKEND_UNSUPPORTED"),
          w,
          [],
        )
        | some node ↦
            let (result, w') = node.set_p2p_network_active body.active w in
            (set_active_answer result, w', elim result [ ok _ ↦ network_id ∷ [] | err _ ↦ [] ])
      ]
    ]
  ]

module _ {W F : Type 0} ⦃bitcoin : Bitcoin⦄ where
  pub rewind_chain :
      AppState W F → ℕ → RewindChainRequest → W → (StatusCode × RewindChainResponse) × W
  rewind_chain state network_id body w = elim (get_network state network_id) [
    | none ↦ ((StatusCode.not_found, rewind_failed "REWIND_NETWORK_NOT_FOUND"), w)
    | some network ↦ elim network.view_only_mode [
      | true ↦ ((StatusCode.bad_request, rewind_failed "REWIND_FEATURE_DISABLED"), w)
      | false ↦ elim (get_node network body.node_id) [
        | none ↦ ((StatusCode.bad_request, rewind_failed "REWIND_BACKEND_UNSUPPORTED"), w)
        | some node ↦ elim (supports_controls node network.view_only_mode) [
          | false ↦ ((StatusCode.bad_request, rewind_failed "REWIND_BACKEND_UNSUPPORTED"), w)
          | true ↦ let (result, w') = node.rewind_chain body.depth w in (rewind_answer result, w')
        ]
      ]
    ]
  ]

  pub reconsider_block :
      AppState W F → ℕ → ReconsiderBlockRequest → W → (StatusCode × MineBlockResponse) × W
  reconsider_block state network_id body w = elim (get_network state network_id) [
    | none ↦ ((StatusCode.not_found, mine_failed "RECONSIDER_NETWORK_NOT_FOUND"), w)
    | some network ↦ elim network.view_only_mode [
      | true ↦ ((StatusCode.bad_request, mine_failed "RECONSIDER_FEATURE_DISABLED"), w)
      | false ↦ elim (get_node network body.node_id) [
        | none ↦ ((StatusCode.bad_request, mine_failed "RECONSIDER_BACKEND_UNSUPPORTED"), w)
        | some node ↦ elim (supports_controls node network.view_only_mode) [
          | false ↦ ((StatusCode.bad_request, mine_failed "RECONSIDER_BACKEND_UNSUPPORTED"), w)
          | true ↦ elim (bitcoin.from_str body.block_hash) [
            | none ↦ ((StatusCode.bad_request, mine_failed "RECONSIDER_INVALID_BLOCK_HASH"), w)
            | some block_hash ↦
                let (result, w') = node.reconsider_block block_hash w in
                (reconsider_answer result, w')
          ]
        ]
      ]
    ]
  ]
