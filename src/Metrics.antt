-- ===== src/Metrics.antt =====
-- src/metrics.rs: the rate of stale blocks, on the chain that the reachable nodes agree on. Heights are
-- u64: a height plus one is taken modulo 2^64. `path_to_root` walks up from a block until
-- there is no parent; here it takes as many steps at most as the block is high, plus one, and `none`
-- means that this did not do. `Metrics.Paths` proves that it does where heights fall along the edges.
pub mod Paths
pub mod Common
mod Counting
pub mod Windows
pub mod Network
mod Tests
use Prim.Native.String.{String}
use text.Mathlib.Text.{◌==◌ as str_eq}
use reorg_playground.Prelude.{
  ℕ, zero, suc, ◌+◌, ◌-◌, ◌%◌, ◌^◌, ◌==◌, ltb, leb, Bool, true, false, not, ◌&&◌, Option, none,
  some, List, [], ◌∷◌, ◌++◌, Map, get, values, length, filter_by, any_by, is_empty, map,
  if◌then◌else◌, Result, ok, err, ok_or, ◌>>=◌, try_map, text_set,
}
use reorg_playground.External.Bitcoin.{Bitcoin}
use reorg_playground.External.Petgraph.{DiGraph}
use reorg_playground.Types.{HeaderInfo, TreeInfo}
use reorg_playground.Types.Tips.{TipInfoJson, NodeDataJson}
use reorg_playground.Types.Metrics.{
  Float, StaleRateRange, StaleBlockRateRangeJson, MetricUnavailableReason, no_reachable_active_tip,
  no_reachable_stale_tip_support, tip_not_in_tree, insufficient_history,
  incomplete_observed_history, StaleBlockRateWindowJson, NetworkMetricsJson, window_unavailable,
  metrics_unavailable, range_json,
}
use reorg_playground.HeaderTree.{weight}

-- `tip.status == "active"`
pub is_active : TipInfoJson → Bool
is_active tip = str_eq tip.status "active"

pub has_reachable_stale_tip_observer : Map NodeDataJson → Bool
unfolding is_active
has_reachable_stale_tip_observer node_data =
    any_by (λ node. node.reachable && (node.supports_stale_tips && any_by is_active node.tips))
      (values node_data)

-- The hashes of the active tips of the reachable nodes.
pub active_hashes_of : List NodeDataJson → List String
active_hashes_of [] = []
active_hashes_of (node ∷ nodes) =
    if node.reachable
    then map (λ tip. tip.hash) (filter_by is_active node.tips) ++ active_hashes_of nodes
    else active_hashes_of nodes

-- `iter().zip().take_while(==)`
pub shared : List ℕ → List ℕ → List ℕ
shared [] ys = []
shared (x ∷ xs) [] = []
shared (x ∷ xs) (y ∷ ys) = if x == y then x ∷ shared xs ys else []

pub last : List ℕ → Option ℕ
last [] = none
last (x ∷ xs) = elim xs [ [] ↦ some x | _ ∷ _ ↦ last xs ]

module _ {G : Type 0} ⦃petgraph : DiGraph HeaderInfo G⦄ where
  open petgraph use {raw_nodes, incoming, externals}

  -- `graph[idx].height`. The indices are those of nodes; for another the code would panic.
  unfoldable pub height_of : TreeInfo G → ℕ → ℕ
  height_of t idx = elim (weight t idx) [ none ↦ 0 | some n ↦ n.height ]

  pub parent_index : TreeInfo G → ℕ → Option ℕ
  parent_index t idx = elim (incoming t.graph idx) [ [] ↦ none | p ∷ _ ↦ some p ]

  -- The loop of `path_to_root`, with the steps left; the path is built from its end.
  pub walk_up : TreeInfo G → ℕ → ℕ → List ℕ → Option (List ℕ)
  walk_up t zero current path = none
  walk_up t (suc fuel) current path = elim (parent_index t current) [
    | none ↦ some path
    | some parent ↦ walk_up t fuel parent (parent ∷ path)
  ]

  pub path_to_root : TreeInfo G → ℕ → Option (List ℕ)
  path_to_root t tip_idx = walk_up t (suc (height_of t tip_idx)) tip_idx (tip_idx ∷ [])

  -- The loop of `walk_back_window_start`.
  pub walk_back : TreeInfo G → ℕ → ℕ → Option ℕ
  walk_back t current zero = some current
  walk_back t current (suc remaining) = elim (parent_index t current) [
    | none ↦ none
    | some parent ↦ elim ((height_of t parent + 1) % 2 ^ 64 == height_of t current) [
      | false ↦ none
      | true ↦ walk_back t parent remaining
    ]
  ]

  pub walk_back_window_start : TreeInfo G → ℕ → ℕ → Option ℕ
  walk_back_window_start t resolved_tip window_size = walk_back t resolved_tip (window_size - 1)

  pub has_history_gap_in_window : TreeInfo G → ℕ → ℕ → Bool
  has_history_gap_in_window t start_height end_height =
      any_by (λ idx. ltb start_height (height_of t idx) && leb (height_of t idx) end_height)
        (externals t.graph)

  pub count_headers_in_height_range : TreeInfo G → ℕ → ℕ → ℕ
  count_headers_in_height_range t start_height end_height = length (
      filter_by (λ node. leb start_height node.height && leb node.height end_height)
        (raw_nodes t.graph))

  -- The loop over the tips after the first.
  pub common_from : TreeInfo G → List ℕ → List ℕ → Option (Result MetricUnavailableReason (List ℕ))
  common_from t common [] = some (ok common)
  common_from t common (tip_idx ∷ rest) = elim (path_to_root t tip_idx) [
    | none ↦ none
    | some path ↦ elim (is_empty (shared common path)) [
      | true ↦ some (err insufficient_history)
      | false ↦ common_from t (shared common path) rest
    ]
  ]

  -- `none` for a path without an end, and for the panic of `active_tip_indices[0]` on no tips.
  pub resolve : TreeInfo G → List ℕ → Option (Result MetricUnavailableReason ℕ)
  resolve t [] = none
  resolve t (tip_idx ∷ rest) = elim (path_to_root t tip_idx) [
    | none ↦ none
    | some path ↦ elim (common_from t path rest) [
      | none ↦ none
      | some common ↦ some (common >>= λ c. ok_or (last c) insufficient_history)
    ]
  ]

module _ {G : Type 0} ⦃bitcoin : Bitcoin⦄ where
  pub tip_index : TreeInfo G → String → Result MetricUnavailableReason ℕ
  tip_index t hash = do
    block_hash ← ok_or (bitcoin.from_str hash) tip_not_in_tree
    ok_or (get block_hash t.index) tip_not_in_tree

  pub active_tip_indices : TreeInfo G → Map NodeDataJson → Result MetricUnavailableReason (List ℕ)
  active_tip_indices t node_data =
      let active_hashes = text_set (active_hashes_of (values node_data)) in
      if is_empty active_hashes
      then err no_reachable_active_tip
      else try_map (tip_index t) active_hashes

module _ {G : Type 0} ⦃bitcoin : Bitcoin⦄ ⦃petgraph : DiGraph HeaderInfo G⦄ where
  pub resolved_tip_index : TreeInfo G → Map NodeDataJson → Option (Result MetricUnavailableReason ℕ)
  resolved_tip_index t node_data = elim (active_tip_indices t node_data) [
    | err reason ↦ some (err reason)
    | ok tips ↦ resolve t tips
  ]

-- `MetricsContext`, without the tree
pub record MetricsContext : Type 0 where
  pub resolved_tip : ℕ
  pub resolved_path : List ℕ

module _ {G : Type 0} ⦃bitcoin : Bitcoin⦄ ⦃petgraph : DiGraph HeaderInfo G⦄ where
  -- `MetricsContext::new`
  pub new_context :
      TreeInfo G → Map NodeDataJson → Option (Result MetricUnavailableReason MetricsContext)
  new_context t node_data = elim (resolved_tip_index t node_data) [
    | none ↦ none
    | some (err reason) ↦ some (err reason)
    | some (ok tip) ↦ elim (has_reachable_stale_tip_observer node_data) [
      | false ↦ some (err no_reachable_stale_tip_support)
      | true ↦ elim (path_to_root t tip) [
        | none ↦ none
        | some path ↦ some (ok (record { resolved_tip = tip; resolved_path = path }))
      ]
    ]
  ]

module _ {G F : Type 0} ⦃petgraph : DiGraph HeaderInfo G⦄ ⦃float : Float F⦄ where
  pub build_window : TreeInfo G → StaleBlockRateRangeJson → ℕ → ℕ → ℕ → StaleBlockRateWindowJson F
  build_window t range window_start window_end active_blocks =
      let start_height = height_of t window_start in
      let end_height = height_of t window_end in
      let stale_blocks = count_headers_in_height_range t start_height end_height - active_blocks in
      if has_history_gap_in_window t start_height end_height
      then window_unavailable range incomplete_observed_history
      else record {
        range = range;
        stale_blocks = stale_blocks;
        active_blocks = active_blocks;
        rate = float.rate_of stale_blocks active_blocks;
        available = true;
        reason = none;
      }

  pub calculate_rolling_window : TreeInfo G → MetricsContext → ℕ → StaleBlockRateWindowJson F
  calculate_rolling_window t context blocks =
      elim (walk_back_window_start t context.resolved_tip blocks) [
        | none ↦ window_unavailable (StaleBlockRateRangeJson.rolling blocks) insufficient_history
        | some window_start ↦
            build_window t (StaleBlockRateRangeJson.rolling blocks) window_start
              context.resolved_tip blocks
      ]

  -- `none` is the panic of `expect` on an empty path.
  pub calculate_all_time_window : TreeInfo G → MetricsContext → Option (StaleBlockRateWindowJson F)
  calculate_all_time_window t context = elim context.resolved_path [
    | [] ↦ none
    | retained_start ∷ rest ↦ some (
        build_window t StaleBlockRateRangeJson.all_time retained_start context.resolved_tip
          (length context.resolved_path))
  ]

  pub calculate_window :
      TreeInfo G → MetricsContext → StaleRateRange → Option (StaleBlockRateWindowJson F)
  calculate_window t context (StaleRateRange.rolling blocks) =
      some (calculate_rolling_window t context blocks)
  calculate_window t context StaleRateRange.all_time = calculate_all_time_window t context

  pub calculate_windows :
      TreeInfo G → MetricsContext → List StaleRateRange → Option (List (StaleBlockRateWindowJson F))
  calculate_windows t context [] = some []
  calculate_windows t context (range ∷ ranges) = elim (calculate_window t context range) [
    | none ↦ none
    | some window ↦ elim (calculate_windows t context ranges) [
      | none ↦ none
      | some windows ↦ some (window ∷ windows)
    ]
  ]

module _ {G F : Type 0} ⦃bitcoin : Bitcoin⦄ ⦃petgraph : DiGraph HeaderInfo G⦄
    ⦃float : Float F⦄ where
  -- `calculate_network_metrics_with_tree`
  pub calculate_network_metrics :
      TreeInfo G → Map NodeDataJson → List StaleRateRange → Option (NetworkMetricsJson F)
  calculate_network_metrics t node_data stale_rate_ranges = elim (new_context t node_data) [
    | none ↦ none
    | some (err reason) ↦ some (metrics_unavailable stale_rate_ranges reason)
    | some (ok context) ↦ elim (calculate_windows t context stale_rate_ranges) [
      | none ↦ none
      | some windows ↦ some (record {
        stale_block_rate = record {
          as_of_height = some (height_of t context.resolved_tip);
          windows = windows;
        };
      })
    ]
  ]
