-- ===== src/Api/Payout.antt =====
-- The handler `faucet` of src/api.rs.
use Prim.Native.String.{String}
use reorg_playground.Prelude.{
  ℕ, Bool, true, false, not, ◌||◌, ltb, Option, none, some, Result, ok, err, if◌then◌else◌,
  to_lowercase, contains, trim,
}
use reorg_playground.External.Http.{StatusCode}
use reorg_playground.External.Network.{Payments}
use reorg_playground.Node.{FaucetSendResult, supports_controls, supports_mining}
use reorg_playground.Node.Errors.{FetchError, not_supported, data_error}
use reorg_playground.State.{AppState, is_regtest}
use reorg_playground.Api.{get_network, get_node}

pub record FaucetRequest : Type 0 where
  pub node_id : ℕ
  pub address : String
  pub amount_btc : String

pub record FaucetResponse : Type 0 where
  pub success : Bool
  pub txid : Option String
  pub mined_blocks : Option ℕ
  pub error : Option String

abbrev faucet_failed : String → FaucetResponse
faucet_failed code = record { success = false; txid = none; mined_blocks = none; error = some code }

-- The `match` on the result of the call
unfoldable pub faucet_answer : Result FetchError FaucetSendResult → StatusCode × FaucetResponse
faucet_answer (ok result) = (
  StatusCode.ok,
  record {
    success = true;
    txid = some result.txid;
    mined_blocks = some result.mined_blocks;
    error = none;
  },
)
faucet_answer (err (not_supported node operation)) =
    (StatusCode.bad_request, faucet_failed "FAUCET_BACKEND_UNSUPPORTED")
faucet_answer (err (data_error message)) = (
  StatusCode.bad_request,
  faucet_failed (
      if contains (to_lowercase message) "insufficient funds"
      then "FAUCET_INSUFFICIENT_FUNDS"
      else "FAUCET_EXECUTION_FAILED"),
)
faucet_answer (err _) = (StatusCode.internal_server_error, faucet_failed "FAUCET_EXECUTION_FAILED")

module _ ⦃payments : Payments⦄ where
  -- The amount, where it can be read and is more than 0
  unfoldable pub faucet_amount : String → Option ℕ
  faucet_amount amount_btc = elim (payments.amount_from_str_in (trim amount_btc)) [
    | none ↦ none
    | some amount ↦ if ltb 0 amount then some amount else none
  ]

module _ {W F : Type 0} ⦃payments : Payments⦄ where
  unfoldable pub faucet : AppState W F → ℕ → FaucetRequest → W → (StatusCode × FaucetResponse) × W
  faucet state network_id body w = elim (get_network state network_id) [
    | none ↦ ((StatusCode.not_found, faucet_failed "FAUCET_BACKEND_UNSUPPORTED"), w)
    | some network ↦ elim (network.view_only_mode || not (is_regtest network.network_type)) [
      | true ↦ ((StatusCode.bad_request, faucet_failed "FAUCET_FEATURE_DISABLED"), w)
      | false ↦ elim (get_node network body.node_id) [
        | none ↦ ((StatusCode.bad_request, faucet_failed "FAUCET_BACKEND_UNSUPPORTED"), w)
        | some node ↦
            elim (not (supports_controls node network.view_only_mode)
              || not (supports_mining node network.view_only_mode)) [
                | true ↦ ((StatusCode.bad_request, faucet_failed "FAUCET_NODE_NOT_ELIGIBLE"), w)
                | false ↦ elim (payments.regtest_address body.address) [
                  | none ↦ ((StatusCode.bad_request, faucet_failed "FAUCET_INVALID_ADDRESS"), w)
                  | some address ↦ elim (faucet_amount body.amount_btc) [
                    | none ↦ ((StatusCode.bad_request, faucet_failed "FAUCET_INVALID_AMOUNT"), w)
                    | some amount ↦
                        let (result, w') = node.send_faucet_transaction address amount w in
                        (faucet_answer result, w')
                  ]
                ]
              ]
      ]
    ]
  ]
