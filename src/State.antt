-- ===== src/State.antt =====
-- The networks, the caches and the server's shared state (src/config.rs, src/types.rs).
use Prim.Native.String.{String}
use reorg_playground.Prelude.{ℕ, Bool, true, false, Option, List, Map}
use reorg_playground.External.Network.{BitcoinNetwork}
use reorg_playground.Node.{Node}
use reorg_playground.Types.{HeaderInfoJson, Fork}
use reorg_playground.Types.Tips.{NodeDataJson}
use reorg_playground.Types.Metrics.{StaleRateRange, NetworkMetricsJson}

pub data NetworkType : Type 0 where
  mainnet testnet signet regtest : NetworkType

unfoldable pub as_bitcoin_network : NetworkType → BitcoinNetwork
as_bitcoin_network NetworkType.mainnet = BitcoinNetwork.bitcoin
as_bitcoin_network NetworkType.testnet = BitcoinNetwork.testnet
as_bitcoin_network NetworkType.signet = BitcoinNetwork.signet
as_bitcoin_network NetworkType.regtest = BitcoinNetwork.regtest

-- `network_type == NetworkType::Regtest`
unfoldable pub is_regtest : NetworkType → Bool
is_regtest NetworkType.mainnet = false
is_regtest NetworkType.testnet = false
is_regtest NetworkType.signet = false
is_regtest NetworkType.regtest = true

pub record BitcoinNodeAccessInfo : Type 0 where
  pub node_id : ℕ
  pub name : String
  pub rpc_port : Option ℕ
  pub rpc_user : Option String
  pub rpc_password : Option String
  pub p2p_port : Option ℕ

pub record FulcrumAccessInfo : Type 0 where
  pub tcp_port : ℕ
  pub stats_port : Option ℕ

pub record MempoolSpaceAccessInfo : Type 0 where
  pub web_port : ℕ
  pub api_port : Option ℕ

pub record NetworkAccessInfo : Type 0 where
  pub bitcoin_nodes : List BitcoinNodeAccessInfo
  pub fulcrum : Option FulcrumAccessInfo
  pub mempool_space : Option MempoolSpaceAccessInfo

-- `query_interval` in seconds
pub record Network (W : Type 0) : Type 0 where
  pub id : ℕ
  pub description : String
  pub name : String
  pub query_interval : ℕ
  pub first_tracked_height : ℕ
  pub visible_heights_from_tip : ℕ
  pub extra_hotspot_heights : ℕ
  pub network_type : NetworkType
  pub view_only_mode : Bool
  pub mempool_url : Option String
  pub access_info : Option NetworkAccessInfo
  pub stale_rate_ranges : List StaleRateRange
  pub nodes : List (Node W)

pub record NetworkJson : Type 0 where
  pub id : ℕ
  pub name : String
  pub description : String
  pub network_type : NetworkType
  pub view_only_mode : Bool
  pub mempool_url : Option String
  pub access_info : Option NetworkAccessInfo

-- `NetworkJson::new`
unfoldable pub network_json : {W : Type 0} → Network W → NetworkJson
network_json network = record {
  id = network.id;
  name = network.name;
  description = network.description;
  network_type = network.network_type;
  view_only_mode = network.view_only_mode;
  mempool_url = network.mempool_url;
  access_info = network.access_info;
}

-- `F` is the type of a rate.
pub record Cache (F : Type 0) : Type 0 where
  pub header_infos_json : List HeaderInfoJson
  pub node_data : Map NodeDataJson
  pub forks : List Fork
  pub metrics : NetworkMetricsJson F
  pub recent_miners : List (String × String)

-- `AppState`, less the two channels: what is sent into a channel is a result of the operation that sends.
pub record AppState (W F : Type 0) : Type 0 where
  pub caches : Map (Cache F)
  pub networks : List (Network W)
  pub network_infos : List NetworkJson
  pub rss_base_url : String
