-- ===== src/Cache/Tests.antt =====
-- Updates of the cache of one network, as src/cache.rs makes them.
use reorg_playground.Prelude.{
  ℕ, err, ok, ◌≡◌, refl, false, none, some, [], ◌∷◌, All, Map, get, modify, values,
}
use reorg_playground.External.ListGraph.{list_graph}
use reorg_playground.External.SampleHashes.{sample_hashes}
use reorg_playground.Node.{Node, default_node}
use reorg_playground.Node.Errors.{data_error}
use reorg_playground.External.Network.{BitcoinNetwork}
use reorg_playground.State.{Network, NetworkType, Cache}
use reorg_playground.Types.{HeaderInfo, HeaderInfoJson}
use reorg_playground.Types.Metrics.{Float, metrics_unavailable, no_reachable_active_tip}
use reorg_playground.HeaderTree.Samples.{b101, full_tree}
use reorg_playground.HeaderTree.Serialize.{serialize_tree}
use reorg_playground.Cache.{header_miner, header_tree, apply_update, populate_cache}
use reorg_playground.Cache.Updates.{find_header, apply_update-keeps_miner}
use reorg_playground.Cache.Populate.{Shows, IsInitial, populate_cache_lem}

instance abbrev pair_rates : Float (ℕ × ℕ)
pair_rates = record { zero_rate = (0, 0); rate_of = λ a b. (a, b) }

abbrev old : Cache (ℕ × ℕ)
old = record {
  header_infos_json = [];
  node_data = [];
  forks = [];
  metrics = metrics_unavailable [] no_reachable_active_tip;
  recent_miners = [];
}

-- The other tasks drop the forks in between.
abbrev others : Map (Cache (ℕ × ℕ)) → Map (Cache (ℕ × ℕ))
others caches = modify 1 (λ c. record c { forks = [] }) caches

abbrev mined : HeaderInfo
mined = record b101 { miner = "pool" }

abbrev shown : HeaderInfoJson
shown = record {
  id = 0;
  prev_id = 0;
  height = 101;
  hash = "xx";
  version = 1;
  prev_blockhash = "x";
  merkle_root = "";
  time = 0;
  bits = 0;
  difficulty_int = 0;
  nonce = 2;
  miner = "";
}

apply_update-keeps_miner_example :
    let identified = (apply_update 5 (header_miner mined) old).0 in
    let cache = (apply_update 6 (header_tree (shown ∷ []) []) identified).0 in
    (h : HeaderInfoJson) × (find_header "xx" cache.header_infos_json ≡ some h) × (h.miner ≡ "pool")
apply_update-keeps_miner_example = apply_update-keeps_miner 5 6 mined (shown ∷ []) [] old shown refl

abbrev node : Node ℕ
node = default_node (record {
  info = record {
    id = 7;
    name = "node";
    description = "";
    implementation = "btcd";
    network_type = BitcoinNetwork.regtest;
    supports_mining = false;
    signet_challenge = none;
    signet_nbits = none;
    p2p_address = none;
  };
  endpoint = "";
  version = λ w. (err (data_error ""), w);
  block_header = λ l w. (err (data_error ""), w);
  tips = λ w. (err (data_error ""), w);
  get_miner_pool = λ h i n w. (ok none, w);
})

abbrev network : Network ℕ
network = record {
  id = 1;
  description = "";
  name = "regtest";
  query_interval = 1;
  first_tracked_height = 0;
  visible_heights_from_tip = 10;
  extra_hotspot_heights = 0;
  network_type = NetworkType.regtest;
  view_only_mode = false;
  mempool_url = none;
  access_info = none;
  stale_rate_ranges = [];
  nodes = node ∷ [];
}

populate_cache_lem_example :
    (caches' : Map (Cache (ℕ × ℕ))) × (cache : Cache (ℕ × ℕ)) × (populate_cache network full_tree []
        []
      ≡ some caches')
    × (get 1 caches' ≡ some cache)
    × (cache.header_infos_json ≡ serialize_tree full_tree)
    × All (Shows cache.node_data) (node ∷ [])
    × All IsInitial (values cache.node_data)
    × (cache.recent_miners ≡ [])
    × (cache.metrics ≡ metrics_unavailable [] no_reachable_active_tip)
populate_cache_lem_example = populate_cache_lem network full_tree [] []
