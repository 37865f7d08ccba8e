-- ===== src/Node.antt =====
-- The trait `Node` of src/node/mod.rs, as a record of the operations: a trait object. An operation runs on
-- the state `W` of what is behind it, the bitcoin nodes, and may change it.
pub mod Errors
use Prim.Native.String.{String}
use text.Mathlib.Text.{◌==◌ as str_eq}
use reorg_playground.Prelude.{
  ℕ, Bool, true, false, not, ◌&&◌, Option, List, Result, ok, err, if◌then◌else◌,
}
use reorg_playground.External.Bitcoin.{Header}
use reorg_playground.External.Network.{BitcoinNetwork}
use reorg_playground.Types.Tips.{ChainTip}
use reorg_playground.Node.Errors.{FetchError, not_supported}

pub record NodeInfo : Type 0 where
  pub id : ℕ
  pub name : String
  pub description : String
  pub implementation : String
  pub network_type : BitcoinNetwork
  pub supports_mining : Bool
  pub signet_challenge : Option String
  pub signet_nbits : Option String
  pub p2p_address : Option String

pub data HeaderLocator : Type 0 where
  height hash : ℕ → HeaderLocator

pub record PeerInfo : Type 0 where
  pub id : ℕ
  pub addr : String
  pub addrbind : String
  pub subver : String
  pub inbound : Bool
  pub connection_type : String
  pub network : String

pub record FaucetSendResult : Type 0 where
  pub txid : String
  pub mined_blocks : ℕ

pub record MineBlocksOptions : Type 0 where
  pub exclude_mempool_txs : Bool

unfoldable pub is_regtest_or_signet : BitcoinNetwork → Bool
is_regtest_or_signet BitcoinNetwork.bitcoin = false
is_regtest_or_signet BitcoinNetwork.testnet = false
is_regtest_or_signet BitcoinNetwork.signet = true
is_regtest_or_signet BitcoinNetwork.regtest = true

abbrev pub Action : Type 0 → Type 0 → Type 0
Action W A = W → Result FetchError A × W

-- The methods that every backend has, less `get_new_headers`
pub record RequiredMethods (W : Type 0) : Type 0 where
  pub info : NodeInfo
  pub endpoint : String
  pub version : Action W String
  pub block_header : HeaderLocator → Action W Header
  pub tips : Action W (List ChainTip)
  pub get_miner_pool : ℕ → ℕ → BitcoinNetwork → Action W (Option String)

-- The trait object: the required methods, and those that a backend may leave as they are by default
pub record Node (W : Type 0) : Type 0 where
  pub required : RequiredMethods W
  pub supports_stale_tips : Bool
  pub mine_new_blocks : ℕ → Action W (List ℕ)
  pub mine_new_blocks_with_options : ℕ → MineBlocksOptions → Action W (List ℕ)
  pub send_faucet_transaction : String → ℕ → Action W FaucetSendResult
  pub rewind_chain : ℕ → Action W ℕ
  pub reconsider_block : ℕ → Action W Unit
  pub p2p_network_active : Action W Bool
  pub set_p2p_network_active : Bool → Action W Unit
  pub get_peer_info : Action W (List PeerInfo)
  pub add_peer : String → Action W Unit
  pub remove_peer_connection : String → Option ℕ → List String → Action W Unit
  pub remove_counterparty_peer_connection : List String → Action W Unit

module _ {W : Type 0} where
  -- `node.info()`
  abbrev pub info_of : Node W → NodeInfo
  info_of node = node.required.info

  unfoldable pub supports_controls : Node W → Bool → Bool
  supports_controls node view_only_mode =
      not view_only_mode
      && (str_eq (info_of node).implementation "Bitcoin Core"
          && is_regtest_or_signet (info_of node).network_type)

  unfoldable pub supports_mining : Node W → Bool → Bool
  unfolding supports_controls
  supports_mining node view_only_mode =
      supports_controls node view_only_mode && (info_of node).supports_mining

  -- A default method that returns `FetchError::NotSupported`
  unfoldable pub unsupported : {A : Type 0} → NodeInfo → String → Action W A
  unsupported info operation w = (err (not_supported info.implementation operation), w)

  -- `mine_new_blocks_with_options` by default, over the backend's `mine_new_blocks`
  unfoldable pub default_mine_with_options :
      NodeInfo → (ℕ → Action W (List ℕ)) → ℕ → MineBlocksOptions → Action W (List ℕ)
  default_mine_with_options info mine_new_blocks count options w =
      if options.exclude_mempool_txs
      then unsupported info "mine_new_blocks_with_options" w
      else mine_new_blocks count w

  -- A backend that defines the required methods alone
  unfoldable pub default_node : RequiredMethods W → Node W
  default_node required = record {
    required = required;
    supports_stale_tips = false;
    mine_new_blocks = λ count. unsupported required.info "mine_new_blocks";
    mine_new_blocks_with_options =
        default_mine_with_options required.info
          (λ count. unsupported required.info "mine_new_blocks");
    send_faucet_transaction = λ address amount. unsupported required.info "send_faucet_transaction";
    rewind_chain = λ depth. unsupported required.info "rewind_chain";
    reconsider_block = λ block_hash. unsupported required.info "reconsider_block";
    p2p_network_active = unsupported required.info "p2p_network_active";
    set_p2p_network_active = λ active. unsupported required.info "set_p2p_network_active";
    get_peer_info = unsupported required.info "get_peer_info";
    add_peer = λ addr. unsupported required.info "add_peer";
    remove_peer_connection =
        λ addr peer_id candidates. unsupported required.info "remove_peer_connection";
    remove_counterparty_peer_connection = λ candidates w. (ok tt, w);
  }
