-- ===== src/Metrics/Network.antt =====
-- `calculate_network_metrics_with_tree` of src/metrics.rs as a whole: it returns, with one window for
-- each range that is configured.
use reorg_playground.Prelude.{
  All, Result-cases, ℕ, ◌≡◌, refl, sym, ap, ◌∙◌, ◌⊎◌, inl, inr, some, List, [], ◌∷◌, Option-cases,
  Bool-cases, true, List-cases, map, Map, Result, ok, err, length, text_set, try_map, ◌>>=◌, values,
}
use reorg_playground.External.Bitcoin.{Bitcoin}
use reorg_playground.External.Petgraph.{DiGraph}
use reorg_playground.Types.{HeaderInfo, TreeInfo}
use reorg_playground.Types.Tips.{NodeDataJson}
use reorg_playground.Types.Metrics.{
  Float, StaleRateRange, StaleBlockRateRangeJson, StaleBlockRateWindowJson, NetworkMetricsJson,
  window_unavailable, range_json, metrics_unavailable, MetricUnavailableReason,
  no_reachable_active_tip, no_reachable_stale_tip_support,
}
use reorg_playground.Metrics.{
  height_of, build_window, calculate_rolling_window, calculate_all_time_window, calculate_window,
  calculate_windows, MetricsContext, new_context, calculate_network_metrics, walk_back_window_start,
  has_history_gap_in_window, active_tip_indices, resolved_tip_index, tip_index, active_hashes_of,
  has_reachable_stale_tip_observer,
}
use reorg_playground.Metrics.Paths.{HeightsRise, path_to_root_lem, IsRootPath}
use reorg_playground.Metrics.Common.{resolve_returns}

try_map-nonempty :
    {E A B : Type 0} (f : A → Result E B) (x : A) (xs : List A)
    → ((e : E) × (try_map f (x ∷ xs) ≡ err e))
      ⊎ ((y : B) × (rest : List B) × (try_map f (x ∷ xs) ≡ ok (y ∷ rest)))
try_map-nonempty {E = E} {B = B} f x xs = go (f x) (try_map f xs)
  where
    go :
        (r : Result E B) (rs : Result E (List B))
        → ((e : E) × ((r >>= λ y. rs >>= λ ys. ok (y ∷ ys)) ≡ err e))
          ⊎ ((y : B) × (rest : List B) × ((r >>= λ y. rs >>= λ ys. ok (y ∷ ys)) ≡ ok (y ∷ rest)))
    go (err e) rs = inl (e, refl)
    go (ok y) (err e) = inl (e, refl)
    go (ok y) (ok ys) = inr (y, ys, refl)

module _ {G F : Type 0} ⦃petgraph : DiGraph HeaderInfo G⦄ ⦃float : Float F⦄ where
  build_window-range :
      (t : TreeInfo G) (range : StaleBlockRateRangeJson) (start tip active : ℕ)
      (window : StaleBlockRateWindowJson F)
      → build_window t range start tip active ≡ window
      → window.range ≡ range
  unfolding build_window window_unavailable
  build_window-range t range start tip active window e =
      elim (Bool-cases (has_history_gap_in_window t (height_of t start) (height_of t tip))) [
        | inl gap ↦ sym (ap (λ w. w.range) (rw (gap, build_window) at e))
        | inr no_gap ↦ sym (ap (λ w. w.range) (rw (no_gap, build_window) at e))
      ]

  -- A window can be calculated if the path is not empty, and is that of the range.
  calculate_window_lem :
      (t : TreeInfo G) (context : MetricsContext) (root : ℕ) (rest : List ℕ)
      (range : StaleRateRange)
      → context.resolved_path ≡ root ∷ rest
      → (window : StaleBlockRateWindowJson F) × (calculate_window t context range ≡ some window)
        × (window.range ≡ range_json range)
  unfolding calculate_window calculate_rolling_window calculate_all_time_window window_unavailable
      range_json
  calculate_window_lem t context root rest (StaleRateRange.rolling blocks) path_eq =
      (calculate_rolling_window t context blocks, refl, in_range)
    where
      in_range :
          (calculate_rolling_window {F = F} t context blocks).range
          ≡ StaleBlockRateRangeJson.rolling blocks
      in_range = elim (Option-cases (walk_back_window_start t context.resolved_tip blocks)) [
        | inl short ↦ rw (short, calculate_rolling_window) refl
        | inr (start, found) ↦
            rw (found, calculate_rolling_window) (build_window-range t _ start _ blocks _ refl)
      ]
  calculate_window_lem t context root rest StaleRateRange.all_time path_eq = (
    build_window t StaleBlockRateRangeJson.all_time root context.resolved_tip
        (length context.resolved_path),
    rw path_eq refl,
    build_window-range t StaleBlockRateRangeJson.all_time root _ _ _ refl,
  )

  calculate_windows_lem :
      (t : TreeInfo G) (context : MetricsContext) (root : ℕ) (rest : List ℕ)
      (ranges : List StaleRateRange)
      → context.resolved_path ≡ root ∷ rest
      → (windows : List (StaleBlockRateWindowJson F)) × (calculate_windows t context ranges
          ≡ some windows)
        × (map (λ w. w.range) windows ≡ map range_json ranges)
  unfolding calculate_windows
  calculate_windows_lem t context root rest [] path_eq = ([], refl, refl)
  calculate_windows_lem t context root rest (range ∷ ranges) path_eq =
      let (window, one, same) = calculate_window_lem t context root rest range path_eq in
      let (windows, more, all_same) = calculate_windows_lem t context root rest ranges path_eq in
      (window ∷ windows, rw (one, more, calculate_windows) refl, rw (same, all_same) refl)

module _ (F : Type 0) ⦃float : Float F⦄ where
  unavailable-range :
      (ranges : List StaleRateRange) (reason : MetricUnavailableReason)
      → map (λ w. w.range) (metrics_unavailable {F = F} ranges reason).stale_block_rate.windows
        ≡ map range_json ranges
  unfolding metrics_unavailable window_unavailable
  unavailable-range [] reason = refl
  unavailable-range (r ∷ ranges) reason =
      ap (λ w. range_json r ∷ w) (unavailable-range ranges reason)

module _ {G : Type 0} ⦃bitcoin : Bitcoin⦄ ⦃petgraph : DiGraph HeaderInfo G⦄ where
  resolved_tip_index_returns :
      (t : TreeInfo G) (node_data : Map NodeDataJson)
      → HeightsRise t
      → (r : Result MetricUnavailableReason ℕ) × (resolved_tip_index t node_data ≡ some r)
  unfolding resolved_tip_index active_tip_indices
  resolved_tip_index_returns t node_data rise =
      elim (List-cases (text_set (active_hashes_of (values node_data)))) [
        | inl nothing ↦ (err no_reachable_active_tip, rw (nothing, resolved_tip_index) refl)
        | inr (x, xs, hashes) ↦ elim (try_map-nonempty (tip_index t) x xs) [
          | inl (reason, failed) ↦ (err reason, rw (hashes, failed, resolved_tip_index) refl)
          | inr (y, ys, found) ↦
              let (r, e) = resolve_returns t y ys rise in
              (r, rw (hashes, found, resolved_tip_index) e)
        ]
      ]

  -- The outcomes of `MetricsContext::new`.
  new_context_lem :
      (t : TreeInfo G) (node_data : Map NodeDataJson)
      → HeightsRise t
      → ((reason : MetricUnavailableReason) × (new_context t node_data ≡ some (err reason)))
        ⊎ ((context : MetricsContext) × (new_context t node_data ≡ some (ok context))
            × (resolved_tip_index t node_data ≡ some (ok context.resolved_tip))
            × (has_reachable_stale_tip_observer node_data ≡ true)
            × IsRootPath t context.resolved_tip context.resolved_path)
  unfolding new_context
  new_context_lem t node_data rise =
      let (r, resolved) = resolved_tip_index_returns t node_data rise in
      elim (Result-cases r) [
        | inl (reason, failed) ↦
            let known = resolved ∙ ap some failed in inl (reason, rw (known, new_context) refl)
        | inr (tip, succeeded) ↦
            let known = resolved ∙ ap some succeeded in
            elim (Bool-cases (has_reachable_stale_tip_observer node_data)) [
              | inr blind ↦
                  inl (no_reachable_stale_tip_support, rw (known, blind, new_context) refl)
              | inl seen ↦
                  let (path, found, way) = path_to_root_lem t tip rise in
                  inr (
                    record { resolved_tip = tip; resolved_path = path },
                    rw (known, seen, found, new_context) refl,
                    known,
                    seen,
                    way,
                  )
            ]
      ]

module _ {G F : Type 0} ⦃bitcoin : Bitcoin⦄ ⦃petgraph : DiGraph HeaderInfo G⦄
    ⦃float : Float F⦄ where
  -- Where heights rise along the edges, the metrics are always calculated, and hold one window for each
  -- configured range, in the order of the ranges. Either every window is unavailable, for one reason,
  -- and no height is given; or the nodes' active tips resolve to a block, a reachable node observes
  -- stale tips, and the metrics are as of that block's height.
  pub calculate_network_metrics_lem :
      (t : TreeInfo G) (node_data : Map NodeDataJson) (ranges : List StaleRateRange)
      → HeightsRise t
      → (metrics : NetworkMetricsJson F) × (calculate_network_metrics t node_data ranges
          ≡ some metrics)
        × (map (λ w. w.range) metrics.stale_block_rate.windows ≡ map range_json ranges)
        × (((reason : MetricUnavailableReason) × (metrics ≡ metrics_unavailable ranges reason))
            ⊎ ((tip : ℕ) × (resolved_tip_index t node_data ≡ some (ok tip))
                × (has_reachable_stale_tip_observer node_data ≡ true)
                × (metrics.stale_block_rate.as_of_height ≡ some (height_of t tip))))
  unfolding calculate_network_metrics
  calculate_network_metrics_lem t node_data ranges rise = elim (new_context_lem t node_data rise) [
    | inl (reason, no_context) ↦ (
      metrics_unavailable ranges reason,
      rw (no_context, calculate_network_metrics) refl,
      unavailable-range F ranges reason,
      inl (reason, refl),
    )
    | inr (context, known, resolved, seen, way) ↦
        let path_eq = way.path_eq in
        let (windows, all, in_ranges) =
          calculate_windows_lem t context way.first way.rest ranges path_eq in
        (
          record {
            stale_block_rate = record {
              as_of_height = some (height_of t context.resolved_tip);
              windows = windows;
            };
          },
          rw (known, all, calculate_network_metrics) refl,
          in_ranges,
          inr (context.resolved_tip, resolved, seen, refl),
        )
  ]

active_hashes_of-none :
    (nodes : List NodeDataJson) → All (λ n. n.tips ≡ []) nodes → active_hashes_of nodes ≡ []
unfolding active_hashes_of
active_hashes_of-none [] none_of = refl
active_hashes_of-none (n ∷ nodes) none_of =
    let rest = active_hashes_of-none nodes none_of.1 in
    elim (Bool-cases n.reachable) [
      | inl up ↦ rw (none_of.0, up, rest, active_hashes_of) refl
      | inr down ↦ rw (down, active_hashes_of) rest
    ]

module _ {G F : Type 0} ⦃bitcoin : Bitcoin⦄ ⦃petgraph : DiGraph HeaderInfo G⦄
    ⦃float : Float F⦄ where
  -- Without tips there is no active tip.
  pub calculate_network_metrics-no_tips :
      (t : TreeInfo G) (node_data : Map NodeDataJson) (ranges : List StaleRateRange)
      → All (λ n. n.tips ≡ []) (values node_data)
      → calculate_network_metrics {F = F} t node_data ranges
        ≡ some (metrics_unavailable ranges no_reachable_active_tip)
  unfolding calculate_network_metrics new_context resolved_tip_index active_tip_indices
  calculate_network_metrics-no_tips t node_data ranges none_of =
      let no_hashes = active_hashes_of-none (values node_data) none_of in
      rw (no_hashes, calculate_network_metrics, new_context, resolved_tip_index, active_tip_indices)
        refl
