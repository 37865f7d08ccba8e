-- ===== src/Config/Parse/Tests.antt =====
-- A configuration with one network of two nodes, and the theorems on src/config.rs at it.
use Prim.Native.String.{String}
use reorg_playground.Prelude.{
  ℕ, ◌≡◌, refl, true, false, none, some, List, [], ◌∷◌, map, is_empty, Result, ok, err,
}
use reorg_playground.Node.{default_node}
use reorg_playground.Node.Errors.{data_error}
use reorg_playground.State.{NetworkType}
use reorg_playground.Types.Metrics.{StaleRateRange}
use reorg_playground.Config.{
  ConfigError, duplicate_node_id, TomlNode, TomlNetwork, TomlConfig, Config, Environment, node_of,
  backend_info, backend_from_str, backend_to_string, esplora, parse_toml_node, new_backend_node,
  node_info_of, parse_rpc_auth,
}
use reorg_playground.Config.Parse.{
  parse_config, parse_networks, parse_nodes, parse_toml_network, normalize_stale_rate_ranges, dedup,
}
use reorg_playground.Config.Parse.Ranges.{IsNormalized, normalize_stale_rate_ranges_lem}
use reorg_playground.Config.Parse.Ids.{AreConfigured, IsDistinct, parse_config_lem}
use reorg_playground.Config.Parse.Access.{backend_from_str-backend_to_string}

ranges_run :
    normalize_stale_rate_ranges (100 ∷ 10 ∷ 100 ∷ []) true
    ≡ ok (StaleRateRange.rolling 10 ∷ StaleRateRange.rolling 100 ∷ StaleRateRange.all_time ∷ [])
unfolding normalize_stale_rate_ranges dedup
ranges_run = refl

normalize_stale_rate_ranges_lem_example :
    IsNormalized (100 ∷ 10 ∷ 100 ∷ []) true (normalize_stale_rate_ranges (100 ∷ 10 ∷ 100 ∷ []) true)
normalize_stale_rate_ranges_lem_example = normalize_stale_rate_ranges_lem (100 ∷ 10 ∷ 100 ∷ []) true

abbrev toml_node : ℕ → String → TomlNode
toml_node id client_implementation = record {
  id = id;
  description = "";
  name = "node";
  rpc_host = "https://host";
  rpc_port = none;
  rpc_cookie_file = none;
  rpc_user = some "user";
  rpc_password = some "password";
  use_rest = none;
  client_implementation = client_implementation;
  supports_mining = none;
  p2p_port = some 18444;
  exposed_rpc_port = none;
  exposed_p2p_port = none;
}

abbrev toml_network : List TomlNode → TomlNetwork
toml_network nodes = record {
  id = 1;
  name = "regtest";
  description = "";
  query_interval = 15;
  first_tracked_height = 0;
  visible_heights_from_tip = 10;
  extra_hotspot_heights = 5;
  network_type = NetworkType.regtest;
  view_only_mode = false;
  mempool_url = none;
  fulcrum_port = none;
  fulcrum_stats_port = none;
  mempool_web_port = none;
  mempool_api_port = none;
  stale_rate_windows = 100 ∷ [];
  stale_rate_include_all_time = true;
  signet_challenge = none;
  signet_nbits = none;
  nodes = nodes;
}

abbrev toml_config : List TomlNode → TomlConfig
toml_config nodes = record {
  address = "127.0.0.1:2323";
  database_path = "db";
  rss_base_url = none;
  networks = toml_network nodes ∷ [];
}

instance abbrev sample_environment : Environment ℕ
sample_environment = record {
  file_exists = λ path. false;
  operations = λ b. default_node (record {
    info = backend_info b;
    endpoint = "";
    version = λ w. (err (data_error ""), w);
    block_header = λ l w. (err (data_error ""), w);
    tips = λ w. (err (data_error ""), w);
    get_miner_pool = λ h i n w. (ok none, w);
  });
}

abbrev two_nodes : List TomlNode
two_nodes = toml_node 1 "Bitcoin Core" ∷ toml_node 2 "btcd" ∷ []

abbrev address_of : String → Result ConfigError String
address_of s = ok s

same_ids :
    parse_config {W = ℕ} address_of (toml_config (toml_node 1 "btcd" ∷ toml_node 1 "esplora" ∷ []))
    ≡ err duplicate_node_id
unfolding parse_config parse_networks parse_nodes parse_toml_node new_backend_node node_info_of
    backend_from_str node_of backend_info
same_ids = refl

abbrev accepted : Result ConfigError (Config ℕ String) → Config ℕ String
accepted (ok config) = config
accepted (err _) = record { database_path = ""; address = ""; networks = []; rss_base_url = "" }

two_nodes-accepted :
    parse_config address_of (toml_config two_nodes)
    ≡ ok (accepted (parse_config address_of (toml_config two_nodes)))
unfolding parse_config parse_networks parse_nodes parse_toml_node parse_toml_network
    new_backend_node node_info_of backend_from_str node_of backend_info normalize_stale_rate_ranges
    dedup parse_rpc_auth
two_nodes-accepted = refl

parse_config_lem_example :
    let config = accepted (parse_config address_of (toml_config two_nodes)) in
    (is_empty config.networks ≡ false)
    × AreConfigured (toml_network two_nodes ∷ []) config.networks
    × IsDistinct (map (λ n. n.id) config.networks)
    × (address_of "127.0.0.1:2323" ≡ ok config.address)
    × (config.database_path ≡ "db")
    × (config.rss_base_url ≡ "")
parse_config_lem_example =
    parse_config_lem address_of (toml_config two_nodes)
      (accepted (parse_config address_of (toml_config two_nodes))) two_nodes-accepted

backend_from_str-backend_to_string_example :
    backend_from_str (backend_to_string esplora) ≡ ok esplora
backend_from_str-backend_to_string_example = backend_from_str-backend_to_string esplora
