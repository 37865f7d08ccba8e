-- ===== src/Config/Parse.antt =====
-- `parse_config` of src/config.rs, with what it does for a network.
pub mod Ranges
pub mod Access
pub mod Ids
mod Tests
use Prim.Native.String.{String, ◌++◌ as text_append}
use Prim.Native.Char.{Char, code}
use text.Mathlib.Text.{◌==◌ as str_eq}
use reorg_playground.Prelude.{
  ℕ, ◌==◌, ◌||◌, ◌&&◌, Bool, true, false, Option, none, some, List, [], ◌∷◌, ◌++◌, map, any_by,
  is_empty, sort_by_key, Result, ok, err, ◌>>=◌, if◌then◌else◌, trim, to_lowercase, remove_chars,
  strip_prefix, show_number,
}
use reorg_playground.External.Network.{BitcoinNetwork}
use reorg_playground.Node.{Node, NodeInfo, info_of}
use reorg_playground.State.{
  NetworkType, as_bitcoin_network, BitcoinNodeAccessInfo, FulcrumAccessInfo, MempoolSpaceAccessInfo,
  NetworkAccessInfo, Network,
}
use reorg_playground.Types.Metrics.{StaleRateRange}
use reorg_playground.Config.{
  ConfigError, no_networks, invalid_stale_rate_windows, duplicate_node_id, duplicate_network_id,
  TomlNode, TomlNetwork, TomlConfig, Config, Environment, node_of, or, with_default,
  parse_toml_node,
}

-- `dedup`: of equal neighbours the first is kept.
pub dedup : List ℕ → List ℕ
dedup [] = []
dedup (x ∷ xs) = elim xs [ [] ↦ x ∷ [] | y ∷ _ ↦ if x == y then dedup xs else x ∷ dedup xs ]

pub normalize_stale_rate_ranges : List ℕ → Bool → Result ConfigError (List StaleRateRange)
normalize_stale_rate_ranges rolling_windows include_all_time =
    if any_by (λ window. window == 0) rolling_windows
    then err invalid_stale_rate_windows
    else let windows = dedup (sort_by_key (λ window. window) rolling_windows) in
      let ranges =
        map StaleRateRange.rolling windows
        ++ (if include_all_time then StaleRateRange.all_time ∷ [] else []) in
      if is_empty ranges then err invalid_stale_rate_windows else ok ranges

-- The closure that `build_network_access_info` filters the nodes with
pub node_access_info : TomlNode → Option BitcoinNodeAccessInfo
node_access_info node =
    let p2p_port = or node.exposed_p2p_port node.p2p_port in
    let info : BitcoinNodeAccessInfo = record {
      node_id = node.id;
      name = node.name;
      rpc_port = node.exposed_rpc_port;
      rpc_user = node.rpc_user;
      rpc_password = node.rpc_password;
      p2p_port = p2p_port;
    } in
    elim node.exposed_rpc_port [
      | some _ ↦ some info
      | none ↦ elim p2p_port [ none ↦ none | some _ ↦ some info ]
    ]

abbrev filter_map : {A B : Type 0} → (A → Option B) → List A → List B
filter_map f [] = []
filter_map f (x ∷ xs) = elim (f x) [ none ↦ filter_map f xs | some y ↦ y ∷ filter_map f xs ]

abbrev is_none : {A : Type 0} → Option A → Bool
is_none none = true
is_none (some _) = false

pub build_network_access_info : TomlNetwork → Option NetworkAccessInfo
build_network_access_info toml_network =
    let bitcoin_nodes = filter_map node_access_info toml_network.nodes in
    let fulcrum : Option FulcrumAccessInfo = elim toml_network.fulcrum_port [
      | none ↦ none
      | some tcp_port ↦
          some (record { tcp_port = tcp_port; stats_port = toml_network.fulcrum_stats_port })
    ] in
    let mempool_space : Option MempoolSpaceAccessInfo = elim toml_network.mempool_web_port [
      | none ↦ none
      | some web_port ↦
          some (record { web_port = web_port; api_port = toml_network.mempool_api_port })
    ] in
    if is_empty bitcoin_nodes && (is_none fulcrum && is_none mempool_space)
    then none
    else some
        (record { bitcoin_nodes = bitcoin_nodes; fulcrum = fulcrum; mempool_space = mempool_space })

module _ {W : Type 0} where
  pub parse_toml_network : TomlNetwork → List (Node W) → Result ConfigError (Network W)
  parse_toml_network toml_network nodes = do
    stale_rate_ranges ←
        normalize_stale_rate_ranges toml_network.stale_rate_windows
          toml_network.stale_rate_include_all_time
    ok (record {
      id = toml_network.id;
      description = toml_network.description;
      name = toml_network.name;
      query_interval = toml_network.query_interval;
      first_tracked_height = toml_network.first_tracked_height;
      visible_heights_from_tip = toml_network.visible_heights_from_tip;
      extra_hotspot_heights = toml_network.extra_hotspot_heights;
      network_type = toml_network.network_type;
      view_only_mode = toml_network.view_only_mode;
      mempool_url = toml_network.mempool_url;
      access_info = build_network_access_info toml_network;
      stale_rate_ranges = stale_rate_ranges;
      nodes = nodes;
    })

module _ {W : Type 0} ⦃env : Environment W⦄ where
  -- The loop over the nodes of a network; `node_ids` are the ids so far. The list is built from its end.
  pub parse_nodes : TomlNetwork → List ℕ → List TomlNode → Result ConfigError (List (Node W))
  parse_nodes toml_network node_ids [] = ok []
  parse_nodes toml_network node_ids (toml_node ∷ toml_nodes) =
      parse_toml_node env.file_exists toml_node (as_bitcoin_network toml_network.network_type)
        toml_network.signet_challenge toml_network.signet_nbits
      >>= λ backend.
          let node = node_of backend in
          let node_id = (info_of node).id in
          if any_by (λ id. id == node_id) node_ids
          then err duplicate_node_id
          else parse_nodes toml_network (node_id ∷ node_ids) toml_nodes >>= λ nodes.
              ok (node ∷ nodes)

  -- The loop over the networks, with the ids so far
  pub parse_networks : List ℕ → List TomlNetwork → Result ConfigError (List (Network W))
  parse_networks network_ids [] = ok []
  parse_networks network_ids (toml_network ∷ toml_networks) =
      parse_nodes toml_network [] toml_network.nodes >>= λ nodes.
      parse_toml_network toml_network nodes >>= λ network.
      if any_by (λ id. id == network.id) network_ids
      then err duplicate_network_id
      else parse_networks (network.id ∷ network_ids) toml_networks >>= λ networks.
          ok (network ∷ networks)

  -- `parse_config` after `toml::from_str`, with the standard library's parser of socket addresses
  pub parse_config :
      {A : Type 0} → (String → Result ConfigError A) → TomlConfig → Result ConfigError (Config W A)
  parse_config parse_address toml_config = parse_networks [] toml_config.networks >>= λ networks.
      if is_empty networks
      then err no_networks
      else parse_address toml_config.address >>= λ address. ok (record {
        database_path = toml_config.database_path;
        address = address;
        networks = networks;
        rss_base_url = with_default toml_config.rss_base_url "";
      })
