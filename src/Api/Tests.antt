-- ===== src/Api/Tests.antt =====
-- Requests to the handlers of src/api.rs, for a network with one miner. The state of the nodes is here the
-- number of calls that were made.
use reorg_playground.Prelude.{
  ℕ, suc, ◌≡◌, ◌⊎◌, refl, true, false, none, some, [], ◌∷◌, ok, err, if◌then◌else◌,
}
use reorg_playground.External.Http.{StatusCode}
use reorg_playground.External.Network.{BitcoinNetwork, Payments}
use reorg_playground.External.SampleHashes.{sample_hashes}
use reorg_playground.Node.{
  Node, NodeInfo, RequiredMethods, supports_mining, supports_controls, is_regtest_or_signet,
}
use reorg_playground.Node.Errors.{data_error}
use reorg_playground.State.{NetworkType, Network, AppState}
use reorg_playground.Api.{
  get_node, get_network, MineBlockRequest, mine_block, rewind_chain, reconsider_block,
  SetNetworkActiveRequest, set_network_active, unwrap_or, p2p_state_response,
}
use reorg_playground.Api.Guards.{IsGuardedCall, Addresses, IsControllable, IsMiner}
use reorg_playground.Api.Controls.{
  mine_options, mine_block_lem, rewind_chain_lem, reconsider_block_lem, set_network_active_lem,
}
use reorg_playground.Api.Faucet.{faucet_lem, MayPay}
use reorg_playground.Api.Payout.{FaucetRequest, faucet}
use reorg_playground.Api.PeerStates.{AreAnswers, p2p_state_response_lem}

abbrev core_info : NodeInfo
core_info = record {
  id = 7;
  name = "miner";
  description = "";
  implementation = "Bitcoin Core";
  network_type = BitcoinNetwork.regtest;
  supports_mining = true;
  signet_challenge = none;
  signet_nbits = none;
  p2p_address = none;
}

abbrev core_methods : RequiredMethods ℕ
core_methods = record {
  info = core_info;
  endpoint = "";
  version = λ w. (ok "1", w);
  block_header = λ l w. (err (data_error "none"), w);
  tips = λ w. (ok [], w);
  get_miner_pool = λ h i n w. (ok none, w);
}

abbrev core_node : Node ℕ
core_node = record {
  required = core_methods;
  supports_stale_tips = true;
  mine_new_blocks = λ count w. (ok (count ∷ []), suc w);
  mine_new_blocks_with_options = λ count options w. (ok (count ∷ []), suc w);
  send_faucet_transaction =
      λ address amount w. (ok (record { txid = "id"; mined_blocks = 1 }), suc w);
  rewind_chain = λ depth w. (ok depth, suc w);
  reconsider_block = λ hash w. (err (data_error "unknown block"), suc w);
  p2p_network_active = λ w. (ok true, suc w);
  set_p2p_network_active = λ active w. (ok tt, suc w);
  get_peer_info = λ w. (ok [], suc w);
  add_peer = λ a w. (ok tt, suc w);
  remove_peer_connection = λ a p c w. (ok tt, suc w);
  remove_counterparty_peer_connection = λ c w. (ok tt, suc w);
}

abbrev state : AppState ℕ Unit
state = record {
  caches = [];
  networks =
      record {
        id = 1;
        description = "";
        name = "regtest";
        query_interval = 1;
        first_tracked_height = 0;
        visible_heights_from_tip = 10;
        extra_hotspot_heights = 0;
        network_type = NetworkType.regtest;
        view_only_mode = false;
        mempool_url = none;
        access_info = none;
        stale_rate_ranges = [];
        nodes = core_node ∷ [];
      }
      ∷ [];
  network_infos = [];
  rss_base_url = "";
}

instance abbrev sample_payments : Payments
sample_payments = record { regtest_address = λ s. some s; amount_from_str_in = λ s. some 5 }

abbrev mine_request : MineBlockRequest
mine_request = record { node_id = 7; count = some 3; exclude_mempool_txs = none }

mine_run : (mine_block state 1 mine_request 0).1 ≡ 1
unfolding mine_block get_network get_node supports_mining supports_controls is_regtest_or_signet
mine_run = refl

mine_block_lem_example :
    IsGuardedCall
      (λ response. response.success)
      (mine_block state 1 mine_request 0)
      0
      (λ node. Addresses state 1 7 node × IsMiner node)
      (λ node.
        node.mine_new_blocks_with_options (unwrap_or (some 3) 1) (mine_options mine_request) 0)
mine_block_lem_example = mine_block_lem state 1 mine_request 0

rewind_chain_lem_example :
    IsGuardedCall
      (λ response. response.success)
      (rewind_chain state 1 (record { node_id = 7; depth = 2 }) 0)
      0
      (λ node. Addresses state 1 7 node × IsControllable node)
      (λ node. node.rewind_chain 2 0)
rewind_chain_lem_example = rewind_chain_lem state 1 (record { node_id = 7; depth = 2 }) 0

reconsider_block_lem_example :
    IsGuardedCall
      (λ response. response.success)
      (reconsider_block state 1 (record { node_id = 7; block_hash = "xx" }) 0)
      0
      (λ (node, block_hash).
        Addresses state 1 7 node
        × IsControllable node
        × (sample_hashes.from_str "xx" ≡ some block_hash))
      (λ (node, block_hash). node.reconsider_block block_hash 0)
reconsider_block_lem_example =
    reconsider_block_lem state 1 (record { node_id = 7; block_hash = "xx" }) 0

abbrev disconnect : SetNetworkActiveRequest
disconnect = record { node_id = 7; active = false }

set_network_active_lem_example :
    let answer = set_network_active state 1 disconnect 0 in
    IsGuardedCall
      (λ response. response.success)
      (answer.0, answer.1)
      0
      (λ node. Addresses state 1 7 node)
      (λ node. node.set_p2p_network_active false 0)
    × (answer.2 ≡ (if answer.0.1.success then 1 ∷ [] else []))
set_network_active_lem_example = set_network_active_lem state 1 disconnect 0

abbrev faucet_request : FaucetRequest
faucet_request = record { node_id = 7; address = "a"; amount_btc = " 5 " }

faucet_lem_example :
    IsGuardedCall
      (λ response. response.success)
      (faucet state 1 faucet_request 0)
      0
      (MayPay state 1 faucet_request)
      (λ (node, address, amount). node.send_faucet_transaction address amount 0)
faucet_lem_example = faucet_lem state 1 faucet_request 0

p2p_state_response_lem_example :
    let ((status, states), w') = p2p_state_response state 1 0 in
    ((network : Network ℕ) × (get_network state 1 ≡ some network)
      × (status ≡ StatusCode.ok)
      × AreAnswers network.nodes 0 states w')
    ⊎ ((get_network state 1 ≡ none) × (status ≡ StatusCode.not_found) × (states ≡ []) × (w' ≡ 0))
p2p_state_response_lem_example = p2p_state_response_lem state 1 0
