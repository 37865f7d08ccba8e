-- ===== src/Metrics/Tests.antt =====
-- Runs of src/metrics.rs on a chain of three blocks with a stale block, and the theorems at such inputs.
use reorg_playground.Prelude.{
  ℕ, zero, suc, ◌+◌, ◌-◌, ◌≤◌, ◌<◌, ◌≡◌, ◌↔◌, ◌⊎◌, refl, true, false, some, none, List, [], ◌∷◌,
  arith, length, All, ok, map,
}
use reorg_playground.External.ListGraph.{list_graph}
use reorg_playground.External.SampleHashes.{sample_hashes}
use reorg_playground.Types.{HeaderInfo}
use reorg_playground.Types.Metrics.{
  Float, StaleRateRange, StaleBlockRateRangeJson, StaleBlockRateWindowJson, NetworkMetricsJson,
  MetricUnavailableReason, range_json, metrics_unavailable,
}
use reorg_playground.HeaderTree.{weight}
use reorg_playground.HeaderTree.Samples.{full_tree-HeightsRise, full_tree, full_tree-IsWellFormed}
use reorg_playground.HeaderTree.Roots.{HasParent}
use reorg_playground.Metrics.{
  height_of, parent_index, walk_up, path_to_root, walk_back, walk_back_window_start,
  count_headers_in_height_range, has_history_gap_in_window, build_window, calculate_rolling_window,
  calculate_all_time_window, MetricsContext, last, resolve, common_from, shared,
  calculate_network_metrics, resolved_tip_index, has_reachable_stale_tip_observer,
}
use reorg_playground.Metrics.Paths.{IsRootPath, path_to_root_lem}
use reorg_playground.Metrics.Common.{LeadsTo, Prefix, resolve_lem}
use reorg_playground.Metrics.Counting.{AreBlocksBetween}
use reorg_playground.Metrics.Windows.{
  HeightsFit, has_history_gap_in_window_lem, rolling_window_exact, all_time_window_exact,
}
use reorg_playground.Metrics.Network.{calculate_network_metrics_lem}

instance abbrev counts : Float (ℕ × ℕ)
counts = record { zero_rate = (0, 0); rate_of = λ a b. (a, b) }

full_tree-HeightsFit : HeightsFit full_tree
unfolding height_of
full_tree-HeightsFit zero = omega arith
full_tree-HeightsFit (suc zero) = omega arith
full_tree-HeightsFit (suc (suc zero)) = omega arith
full_tree-HeightsFit (suc (suc (suc zero))) = omega arith
full_tree-HeightsFit (suc (suc (suc (suc i)))) = omega arith

-- The tip of the active chain, and the path to it.
abbrev context : MetricsContext
context = record { resolved_tip = 1; resolved_path = 0 ∷ 2 ∷ 1 ∷ [] }

path_to_tip : path_to_root full_tree 1 ≡ some (0 ∷ 2 ∷ 1 ∷ [])
unfolding path_to_root walk_up parent_index height_of
path_to_tip = refl

-- The last two heights hold three blocks: one is stale.
abbrev two_blocks : StaleBlockRateWindowJson (ℕ × ℕ)
two_blocks = record {
  range = StaleBlockRateRangeJson.rolling 2;
  stale_blocks = 1;
  active_blocks = 2;
  rate = (1, 2);
  available = true;
  reason = none;
}

two_blocks_window : calculate_rolling_window full_tree context 2 ≡ two_blocks
unfolding calculate_rolling_window walk_back_window_start walk_back build_window
    count_headers_in_height_range has_history_gap_in_window parent_index height_of
two_blocks_window = refl

abbrev all_blocks : StaleBlockRateWindowJson (ℕ × ℕ)
all_blocks = record {
  range = StaleBlockRateRangeJson.all_time;
  stale_blocks = 1;
  active_blocks = 3;
  rate = (1, 3);
  available = true;
  reason = none;
}

all_blocks_window : calculate_all_time_window full_tree context ≡ some all_blocks
unfolding calculate_all_time_window build_window count_headers_in_height_range
    has_history_gap_in_window height_of
all_blocks_window = refl

-- The tips 1 and 3 share block 0 alone.
resolve_tips : resolve full_tree (1 ∷ 3 ∷ []) ≡ some (ok 0)
unfolding resolve common_from shared last path_to_root walk_up parent_index height_of
resolve_tips = refl

path_to_root_lem_example :
    (path : List ℕ) × (path_to_root full_tree 1 ≡ some path) × IsRootPath full_tree 1 path
path_to_root_lem_example = path_to_root_lem full_tree 1 full_tree-HeightsRise

resolve_lem_example :
    (common : List ℕ) × (last common ≡ some 0)
    × All (LeadsTo full_tree common) (1 ∷ 3 ∷ [])
    × ((ds : List ℕ) → All (LeadsTo full_tree ds) (1 ∷ 3 ∷ []) → Prefix ds common)
resolve_lem_example = resolve_lem full_tree (1 ∷ 3 ∷ []) 0 resolve_tips

has_history_gap_in_window_lem_example : (has_history_gap_in_window full_tree 100 102 ≡ true) ↔ (
    (c : ℕ) × (n : HeaderInfo) × (weight full_tree c ≡ some n)
    × (100 < n.height)
    × (n.height ≤ 102)
    × (¬ HasParent full_tree n))
has_history_gap_in_window_lem_example =
    has_history_gap_in_window_lem full_tree 100 102 full_tree-IsWellFormed

rolling_window_exact_example :
    (2 ≤ height_of full_tree 1 + 1)
    × (two_blocks.active_blocks ≡ 2)
    × ((headers : List ℕ) × AreBlocksBetween full_tree
          (height_of full_tree 1 + 1 - 2)
          (height_of full_tree 1)
          headers
        × (two_blocks.stale_blocks + two_blocks.active_blocks ≡ length headers))
    × (has_history_gap_in_window full_tree (height_of full_tree 1 + 1 - 2) (height_of full_tree 1)
        ≡ false)
rolling_window_exact_example =
    rolling_window_exact full_tree context 2 two_blocks full_tree-IsWellFormed full_tree-HeightsRise
      full_tree-HeightsFit (omega arith) (omega arith) two_blocks_window refl

all_time_window_exact_example :
    (root : ℕ) × (rest : List ℕ) × (context.resolved_path ≡ root ∷ rest)
    × (parent_index full_tree root ≡ none)
    × (all_blocks.active_blocks ≡ length context.resolved_path)
    × ((headers : List ℕ) × AreBlocksBetween full_tree
          (height_of full_tree root)
          (height_of full_tree 1)
          headers
        × (all_blocks.stale_blocks + all_blocks.active_blocks ≡ length headers))
    × (has_history_gap_in_window full_tree (height_of full_tree root) (height_of full_tree 1)
        ≡ false)
all_time_window_exact_example =
    all_time_window_exact full_tree context all_blocks full_tree-IsWellFormed full_tree-HeightsRise
      (omega arith) path_to_tip all_blocks_window refl

calculate_network_metrics_lem_example :
    (metrics : NetworkMetricsJson (ℕ × ℕ)) × (calculate_network_metrics full_tree []
        (StaleRateRange.rolling 2 ∷ [])
      ≡ some metrics)
    × (map (λ w. w.range) metrics.stale_block_rate.windows
        ≡ map range_json (StaleRateRange.rolling 2 ∷ []))
    × (((reason : MetricUnavailableReason) × (metrics
            ≡ metrics_unavailable (StaleRateRange.rolling 2 ∷ []) reason))
        ⊎ ((tip : ℕ) × (resolved_tip_index full_tree [] ≡ some (ok tip))
            × (has_reachable_stale_tip_observer [] ≡ true)
            × (metrics.stale_block_rate.as_of_height ≡ some (height_of full_tree tip))))
calculate_network_metrics_lem_example =
    calculate_network_metrics_lem full_tree [] (StaleRateRange.rolling 2 ∷ []) full_tree-HeightsRise
