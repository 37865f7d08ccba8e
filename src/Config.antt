-- ===== src/Config.antt =====
-- src/config.rs from the parsed TOML on: the records that serde fills are the input. Reading the file and
-- parsing TOML belong to other packages.
pub mod Parse
use Prim.Native.String.{String, ◌++◌ as text_append}
use Prim.Native.Char.{Char, code}
use text.Mathlib.Text.{◌==◌ as str_eq}
use reorg_playground.Prelude.{
  ℕ, ◌==◌, ◌||◌, ◌&&◌, Bool, true, false, Option, none, some, List, [], ◌∷◌, ◌++◌, map, any_by,
  is_empty, sort_by_key, Result, ok, err, ◌>>=◌, if◌then◌else◌, trim, to_lowercase, remove_chars,
  strip_prefix, show_number,
}
use reorg_playground.External.Network.{BitcoinNetwork}
use reorg_playground.Node.{Node, NodeInfo, info_of}
use reorg_playground.State.{
  NetworkType, as_bitcoin_network, BitcoinNodeAccessInfo, FulcrumAccessInfo, MempoolSpaceAccessInfo,
  NetworkAccessInfo, Network,
}
use reorg_playground.Types.Metrics.{StaleRateRange}

-- `ConfigError`; what a library's error carries is the text that it prints.
pub data ConfigError : Type 0 where
  cookie_file_does_not_exist no_bitcoin_core_rpc_auth no_btcd_rpc_auth no_networks : ConfigError
  invalid_stale_rate_windows unknown_implementation duplicate_node_id duplicate_network_id :
      ConfigError
  toml_error read_error addr_error : String → ConfigError

pub record TomlNode : Type 0 where
  pub id : ℕ
  pub description : String
  pub name : String
  pub rpc_host : String
  pub rpc_port : Option ℕ
  pub rpc_cookie_file : Option String
  pub rpc_user : Option String
  pub rpc_password : Option String
  pub use_rest : Option Bool
  pub client_implementation : String
  pub supports_mining : Option Bool
  pub p2p_port : Option ℕ
  pub exposed_rpc_port : Option ℕ
  pub exposed_p2p_port : Option ℕ

pub record TomlNetwork : Type 0 where
  pub id : ℕ
  pub name : String
  pub description : String
  pub query_interval : ℕ
  pub first_tracked_height : ℕ
  pub visible_heights_from_tip : ℕ
  pub extra_hotspot_heights : ℕ
  pub network_type : NetworkType
  pub view_only_mode : Bool
  pub mempool_url : Option String
  pub fulcrum_port : Option ℕ
  pub fulcrum_stats_port : Option ℕ
  pub mempool_web_port : Option ℕ
  pub mempool_api_port : Option ℕ
  pub stale_rate_windows : List ℕ
  pub stale_rate_include_all_time : Bool
  pub signet_challenge : Option String
  pub signet_nbits : Option String
  pub nodes : List TomlNode

pub record TomlConfig : Type 0 where
  pub address : String
  pub database_path : String
  pub rss_base_url : Option String
  pub networks : List TomlNetwork

-- `A` is the type of a socket address, the standard library's.
pub record Config (W A : Type 0) : Type 0 where
  pub database_path : String
  pub address : A
  pub networks : List (Network W)
  pub rss_base_url : String

-- The values that serde takes for a missing key
abbrev pub default_stale_rate_windows : List ℕ
default_stale_rate_windows = 100 ∷ 1000 ∷ []

abbrev pub default_stale_rate_include_all_time : Bool
default_stale_rate_include_all_time = true

pub data Backend : Type 0 where
  bitcoin_core btcd esplora electrum : Backend

-- the characters ' ', '_' and '-'
abbrev is_separator : Char → Bool
is_separator c = code c == 32 || (code c == 95 || code c == 45)

-- `FromStr`
pub backend_from_str : String → Result ConfigError Backend
backend_from_str s =
    let name = remove_chars is_separator (to_lowercase (trim s)) in
    if str_eq name "bitcoincore"
    then ok bitcoin_core
    else if str_eq name "btcd"
    then ok btcd
    else if str_eq name "esplora"
    then ok esplora
    else if str_eq name "electrum"
    then ok electrum
    else err unknown_implementation

-- `Display`
pub backend_to_string : Backend → String
backend_to_string bitcoin_core = "Bitcoin Core"
backend_to_string btcd = "btcd"
backend_to_string esplora = "esplora"
backend_to_string electrum = "electrum"

-- `bitcoincore_rpc::Auth`, as far as it is built here
pub data Auth : Type 0 where
  cookie_file : String → Auth
  user_pass : String → String → Auth

-- The structs of the four backends, with what their `new` puts in
pub data BackendNode : Type 0 where
  -- info, rpc_endpoint, rpc_auth, use_rest
  bitcoin_core_node : NodeInfo → String → Auth → Bool → BackendNode
  -- info, rpc_endpoint, rpc_user, rpc_password
  btcd_node : NodeInfo → String → String → String → BackendNode
  -- info, api_url
  esplora_node : NodeInfo → String → BackendNode
  -- info, url
  electrum_node : NodeInfo → String → BackendNode

-- `info()` of the backends
unfoldable pub backend_info : BackendNode → NodeInfo
backend_info (bitcoin_core_node info _ _ _) = info
backend_info (btcd_node info _ _ _) = info
backend_info (esplora_node info _) = info
backend_info (electrum_node info _) = info

-- The file system, and the operations of a backend's node, which talk to the node over the network
pub record Environment (W : Type 0) : Type 0 where
  pub file_exists : String → Bool
  pub operations : BackendNode → Node W

module _ {W : Type 0} ⦃env : Environment W⦄ where
  -- The trait object for a backend's struct
  unfoldable pub node_of : BackendNode → Node W
  node_of backend =
      let node = env.operations backend in
      record node { required = record node.required { info = backend_info backend } }

-- `parse_rpc_auth`, with the file system's answer as its first argument
pub parse_rpc_auth : (String → Bool) → TomlNode → Result ConfigError Auth
parse_rpc_auth file_exists node_config = elim node_config.rpc_cookie_file [
  | some rpc_cookie_file ↦
      if file_exists rpc_cookie_file
      then ok (cookie_file rpc_cookie_file)
      else err cookie_file_does_not_exist
  | none ↦ elim node_config.rpc_user [
    | none ↦ err no_bitcoin_core_rpc_auth
    | some user ↦ elim node_config.rpc_password [
      | none ↦ err no_bitcoin_core_rpc_auth
      | some password ↦ ok (user_pass user password)
    ]
  ]
]

-- `option.or(other)`
abbrev pub or : {A : Type 0} → Option A → Option A → Option A
or none other = other
or (some a) other = some a

-- `option.unwrap_or(x)`
abbrev pub with_default : {A : Type 0} → Option A → A → A
with_default none x = x
with_default (some a) x = a

pub p2p_host_from_rpc_host : String → String
p2p_host_from_rpc_host rpc_host =
    with_default
      (or (strip_prefix rpc_host "http://")
        (or (strip_prefix rpc_host "https://") (strip_prefix rpc_host "ssl://")))
      rpc_host

-- `format!("{}:{}", host, port)`
abbrev host_port : String → ℕ → String
host_port host port = text_append host (text_append ":" (show_number port))

abbrev pub p2p_address_of : TomlNode → Option String
unfolding p2p_host_from_rpc_host
p2p_address_of toml_node = elim toml_node.p2p_port [
  | none ↦ none
  | some port ↦ some (host_port (p2p_host_from_rpc_host toml_node.rpc_host) port)
]

pub node_info_of : TomlNode → BitcoinNetwork → Option String → Option String → Backend → NodeInfo
node_info_of toml_node network_type signet_challenge signet_nbits client_implementation = record {
  id = toml_node.id;
  name = toml_node.name;
  description = toml_node.description;
  implementation = backend_to_string client_implementation;
  network_type = network_type;
  supports_mining = with_default toml_node.supports_mining true;
  signet_challenge = signet_challenge;
  signet_nbits = signet_nbits;
  p2p_address = p2p_address_of toml_node;
}

-- The `match` on the backend in `parse_toml_node`
pub new_backend_node :
    (String → Bool) → TomlNode → NodeInfo → Backend → Result ConfigError BackendNode
new_backend_node file_exists toml_node info bitcoin_core = do
  rpc_auth ← parse_rpc_auth file_exists toml_node
  ok (
      bitcoin_core_node info (host_port toml_node.rpc_host (with_default toml_node.rpc_port 8332))
        rpc_auth (with_default toml_node.use_rest true))
new_backend_node file_exists toml_node info btcd = elim toml_node.rpc_user [
  | none ↦ err no_btcd_rpc_auth
  | some rpc_user ↦ elim toml_node.rpc_password [
    | none ↦ err no_btcd_rpc_auth
    | some rpc_password ↦ ok (
        btcd_node info (host_port toml_node.rpc_host (with_default toml_node.rpc_port 8332))
          rpc_user rpc_password)
  ]
]
new_backend_node file_exists toml_node info esplora = ok (esplora_node info toml_node.rpc_host)
new_backend_node file_exists toml_node info electrum =
    ok (electrum_node info (host_port toml_node.rpc_host (with_default toml_node.rpc_port 50002)))

pub parse_toml_node :
    (String → Bool)
    → TomlNode
    → BitcoinNetwork
    → Option String
    → Option String
    → Result ConfigError BackendNode
parse_toml_node file_exists toml_node network_type signet_challenge signet_nbits = do
  client_implementation ← backend_from_str toml_node.client_implementation
  new_backend_node file_exists toml_node
      (node_info_of toml_node network_type signet_challenge signet_nbits client_implementation)
      client_implementation
