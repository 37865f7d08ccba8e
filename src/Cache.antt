-- ===== src/Cache.antt =====
-- src/cache.rs: what the server shows of a network, and its updates. `none` is the panic of an `expect`.
pub mod Updates
pub mod Populate
pub mod Nodes
mod Tests
use Prim.Native.String.{String}
use text.Mathlib.Text.{◌==◌ as str_eq}
use reorg_playground.Prelude.{
  insert_numbers, ℕ, suc, ◌==◌, leb, ltb, Bool, true, false, Option, none, some, List, [], ◌∷◌,
  ◌++◌, map, length, filter_by, Map, get, insert_ordered, modify, values, if◌then◌else◌,
}
use reorg_playground.External.Bitcoin.{Bitcoin}
use reorg_playground.External.Petgraph.{DiGraph}
use reorg_playground.Node.{Node, info_of, supports_controls, supports_mining}
use reorg_playground.State.{Network, Cache}
use reorg_playground.Types.{HeaderInfo, HeaderInfoJson, TreeInfo, Fork}
use reorg_playground.Types.Tips.{ChainTip, NodeDataJson, set_reachable, set_version, set_tips}
use reorg_playground.Types.Metrics.{Float, StaleRateRange, NetworkMetricsJson}
use reorg_playground.HeaderTree.Serialize.{serialize_tree}
use reorg_playground.Metrics.{calculate_network_metrics}

pub data CacheUpdate : Type 0 where
  header_miner : HeaderInfo → CacheUpdate
  header_tree : List HeaderInfoJson → List Fork → CacheUpdate
  node_tips : ℕ → List ChainTip → CacheUpdate
  node_reachability : ℕ → Bool → CacheUpdate
  node_version : ℕ → String → CacheUpdate

-- `HeaderInfoJson::update_miner`
unfoldable pub update_miner : String → HeaderInfoJson → HeaderInfoJson
update_miner miner header = record header { miner = miner }

-- `position`, and the update of the header there
pub update_first : String → String → List HeaderInfoJson → List HeaderInfoJson
unfolding update_miner
update_first hash miner [] = []
update_first hash miner (h ∷ hs) =
    if str_eq h.hash hash then update_miner miner h ∷ hs else h ∷ update_first hash miner hs

-- `HashMap<String, HeaderInfoJson>` as the list of its values, each under its own hash; Rust does not fix the
-- order of the values.
pub insert_header : HeaderInfoJson → List HeaderInfoJson → List HeaderInfoJson
insert_header h [] = h ∷ []
insert_header h (x ∷ xs) = if str_eq x.hash h.hash then h ∷ xs else x ∷ insert_header h xs

pub collect_headers : List HeaderInfoJson → List HeaderInfoJson → List HeaderInfoJson
collect_headers collected [] = collected
collect_headers collected (h ∷ hs) = collect_headers (insert_header h collected) hs

-- The loop that replays the recent miners
pub replay_miners : List (String × String) → List HeaderInfoJson → List HeaderInfoJson
replay_miners [] headers = headers
replay_miners ((hash, miner) ∷ recent) headers =
    replay_miners recent (update_first hash miner headers)

abbrev drop_first : {A : Type 0} → List A → List A
drop_first [] = []
drop_first (x ∷ xs) = xs

-- `push`, and `remove(0)` of more than five
pub push_recent : String × String → List (String × String) → List (String × String)
push_recent entry recent =
    let pushed = recent ++ entry ∷ [] in if ltb 5 (length pushed) then drop_first pushed else pushed

-- `min_by_key(|h| h.height).map_or(0, |h| h.height)`
pub min_height : List HeaderInfoJson → ℕ
min_height [] = 0
min_height (h ∷ hs) = elim hs [
  | [] ↦ h.height
  | _ ∷ _ ↦ if leb h.height (min_height hs) then h.height else min_height hs
]

module _ {F : Type 0} ⦃bitcoin : Bitcoin⦄ where
  -- The `match` on the update: the cache after it, and whether the metrics are to be calculated. `now` is
  -- the clock in seconds.
  pub apply_update : ℕ → CacheUpdate → Cache F → Cache F × Bool
  apply_update now (header_miner header_info) cache =
      let hash = bitcoin.to_string (bitcoin.block_hash header_info.header) in
      (
        record cache {
          header_infos_json = update_first hash header_info.miner cache.header_infos_json;
          recent_miners = push_recent (hash, header_info.miner) cache.recent_miners;
        },
        false,
      )
  apply_update now (header_tree header_infos_json forks) cache = (
    record cache {
      header_infos_json = replay_miners cache.recent_miners (collect_headers [] header_infos_json);
      forks = forks;
    },
    true,
  )
  apply_update now (node_tips node_id tips) cache =
      let relevant_tips = filter_by (λ t. leb (min_height cache.header_infos_json) t.height) tips in
      (
        record cache { node_data = modify node_id (set_tips now relevant_tips) cache.node_data },
        true,
      )
  apply_update now (node_reachability node_id reachable) cache =
      (record cache { node_data = modify node_id (set_reachable reachable) cache.node_data }, true)
  apply_update now (node_version node_id version) cache =
      (record cache { node_data = modify node_id (set_version version) cache.node_data }, false)

module _ {F : Type 0} ⦃bitcoin : Bitcoin⦄ where
  -- What the first lock covers: the caches with the update, and the node data for the metrics if they are calculated
  pub update_locked :
      ℕ → Map (Cache F) → ℕ → CacheUpdate → Option (Map (Cache F) × Option (Map NodeDataJson))
  update_locked now caches network_id update = elim (get network_id caches) [
    | none ↦ none
    | some network ↦
        let (cache, refresh) = apply_update now update network in
        some (
          modify network_id (λ _. cache) caches,
          elim refresh [ true ↦ some cache.node_data | false ↦ none ],
        )
  ]

  -- What the second lock covers
  abbrev pub store_metrics : ℕ → NetworkMetricsJson F → Map (Cache F) → Map (Cache F)
  store_metrics network_id metrics caches =
      modify network_id (λ c. record c { metrics = metrics }) caches

module _ {F G : Type 0} ⦃bitcoin : Bitcoin⦄ ⦃petgraph : DiGraph HeaderInfo G⦄
    ⦃float : Float F⦄ where
  -- The caches after the update, and the network whose id is sent into `cache_changed_tx`. While no lock is held,
  -- other tasks turn the caches into `others` of them; `tree` is the tree that the metrics are calculated from.
  pub update_cache :
      ℕ
      → (Map (Cache F) → Map (Cache F))
      → Map (Cache F)
      → TreeInfo G
      → List StaleRateRange
      → ℕ
      → CacheUpdate
      → Option (Map (Cache F) × ℕ)
  update_cache now others caches tree stale_rate_ranges network_id update =
      elim (update_locked now caches network_id update) [
        | none ↦ none
        | some (updated, none) ↦ some (updated, network_id)
        | some (updated, some node_data) ↦
            elim (calculate_network_metrics tree node_data stale_rate_ranges) [
              | none ↦ none
              | some metrics ↦ some (store_metrics network_id metrics (others updated), network_id)
            ]
      ]

-- The loops that fill the `BTreeSet`
abbrev heights_of_nodes : List NodeDataJson → List ℕ → List ℕ
heights_of_nodes [] set = set
heights_of_nodes (node ∷ nodes) set =
    heights_of_nodes nodes (insert_numbers (map (λ tip. tip.height) node.tips) set)

module _ {F : Type 0} where
  pub tip_heights : Map (Cache F) → ℕ → Option (List ℕ)
  tip_heights caches network_id = elim (get network_id caches) [
    | none ↦ none
    | some cache ↦ some (heights_of_nodes (values cache.node_data) [])
  ]

  pub is_node_reachable : Map (Cache F) → ℕ → ℕ → Option Bool
  is_node_reachable caches network_id node_id = elim (get network_id caches) [
    | none ↦ none
    | some cache ↦ elim (get node_id cache.node_data) [
      | none ↦ none
      | some node ↦ some node.reachable
    ]
  ]

module _ {W : Type 0} where
  -- `NodeDataJson::new` with what `populate_cache` gives it
  pub initial_node_data : Bool → Node W → NodeDataJson
  initial_node_data view_only_mode node =
      let info = info_of node in
      record {
        id = info.id;
        name = info.name;
        description = info.description;
        implementation = info.implementation;
        supports_controls = supports_controls node view_only_mode;
        supports_mining = supports_mining node view_only_mode;
        supports_stale_tips = node.supports_stale_tips;
        tips = [];
        last_changed_timestamp = 0;
        version = "unknown";
        reachable = true;
      }

  -- `collect` into the `BTreeMap`
  pub collect_node_data : Bool → List (Node W) → Map NodeDataJson → Map NodeDataJson
  collect_node_data view_only_mode [] node_data = node_data
  collect_node_data view_only_mode (node ∷ nodes) node_data =
      collect_node_data view_only_mode nodes
        (insert_ordered (info_of node).id (initial_node_data view_only_mode node) node_data)

module _ {W F G : Type 0} ⦃bitcoin : Bitcoin⦄ ⦃petgraph : DiGraph HeaderInfo G⦄
    ⦃float : Float F⦄ where
  -- The forks are what `recent_forks` gives for the tree.
  pub populate_cache : Network W → TreeInfo G → List Fork → Map (Cache F) → Option (Map (Cache F))
  populate_cache network tree forks caches =
      let node_data = collect_node_data network.view_only_mode network.nodes [] in
      elim (calculate_network_metrics tree node_data network.stale_rate_ranges) [
        | none ↦ none
        | some metrics ↦ some (
            insert_ordered network.id
              (record {
                header_infos_json = serialize_tree tree;
                node_data = node_data;
                forks = forks;
                metrics = metrics;
                recent_miners = [];
              })
              caches)
      ]
