-- ===== src/Metrics/Windows.antt =====
-- The windows of src/metrics.rs: the counts that are published add up to the headers of the tree.
use reorg_playground.Prelude.{
  some_eq, not_both, ℕ, zero, suc, ◌+◌, ◌-◌, ◌%◌, ◌^◌, ◌≤◌, ◌<◌, ◌≡◌, ◌↔◌, refl, sym, ap, some,
  none, List, [], ◌∷◌, arith, length, ◌==◌, ==_iff, Option-cases, Bool-cases, inl, inr, true, false,
  any_by-count, any_by_of_count, get_elem?_of_lt, lt-length_of_get_elem?,
}
use reorg_playground.External.Bitcoin.{Bitcoin}
use reorg_playground.External.Petgraph.{DiGraph}
use reorg_playground.Types.{HeaderInfo, TreeInfo}
use reorg_playground.Types.Metrics.{
  Float, StaleBlockRateRangeJson, StaleBlockRateWindowJson, window_unavailable,
}
use reorg_playground.HeaderTree.{weight, node_count}
use reorg_playground.HeaderTree.Insert.{IsWellFormed}
use reorg_playground.HeaderTree.Roots.{HasParent, root_or_parent, root_no_parent}
use reorg_playground.Metrics.{
  height_of, parent_index, walk_back, walk_back_window_start, count_headers_in_height_range,
  has_history_gap_in_window, build_window, calculate_rolling_window, calculate_all_time_window,
  MetricsContext, last, path_to_root,
}
use reorg_playground.Metrics.Paths.{
  HeightsRise, IsChain, parent_index-Edge, path_to_root-IsRootPath,
}
use reorg_playground.Metrics.Counting.{
  AreBlocksBetween, count_headers_in_height_range_lem, count_above, count_below, count_self,
}

module _ {G : Type 0} ⦃bitcoin : Bitcoin⦄ ⦃petgraph : DiGraph HeaderInfo G⦄ where
  open petgraph use {raw_nodes, externals}

  -- Heights are u64.
  abbrev pub HeightsFit : TreeInfo G → Type 0
  HeightsFit t = (i : ℕ) → height_of t i < 2 ^ 64

  parent_is_node :
      (t : TreeInfo G) (c p : ℕ) → IsWellFormed t → parent_index t c ≡ some p → p < node_count t
  parent_is_node t c p wf e =
      let (n, at, to) = wf.edges_link p c (parent_index-Edge t c p e) in
      let (m, at', _) = wf.indexed.index_sound n.header.prev_blockhash p to in
      lt-length_of_get_elem? (raw_nodes t.graph) p at'

  walk_back_lem :
      (t : TreeInfo G) (current n start : ℕ)
      → IsWellFormed t
      → HeightsRise t
      → HeightsFit t
      → current < node_count t
      → walk_back t current n ≡ some start
      → (height_of t start + n ≡ height_of t current)
        × (n < count_headers_in_height_range t (height_of t start) (height_of t current))
  unfolding walk_back
  walk_back_lem t current zero start wf rise fit inside e =
      let same : current ≡ start = cc in rw (← same) (omega arith, count_self t current inside)
  walk_back_lem t current (suc n) start wf rise fit inside e =
      elim (Option-cases (parent_index t current)) [
        | inl root ↦ absurd (cc (rw (root, walk_back) at e))
        | inr (p, parent) ↦
            elim (Bool-cases ((height_of t p + 1) % 2 ^ 64 == height_of t current)) [
              | inr gap ↦ absurd (cc (rw (parent, gap, walk_back) at e))
              | inl next ↦
                  let (heights, counted) =
                    walk_back_lem t p n start wf rise fit (parent_is_node t current p wf parent)
                      (rw (parent, next, walk_back) at e) in
                  let next' = (==_iff _ _).0 next in
                  let lower = rise p current (parent_index-Edge t current p parent) in
                  let fits = fit current in
                  let more =
                    count_above t (height_of t start) p current inside (omega arith) lower in
                  (omega arith, omega arith)
            ]
      ]

  chain_counted :
      (t : TreeInfo G) (first : ℕ) (rest : List ℕ) (tip : ℕ)
      → IsWellFormed t
      → HeightsRise t
      → tip < node_count t
      → IsChain t (first ∷ rest)
      → last (first ∷ rest) ≡ some tip
      → (height_of t first ≤ height_of t tip)
        × (length (first ∷ rest)
            ≤ count_headers_in_height_range t (height_of t first) (height_of t tip))
  unfolding last
  chain_counted t first [] tip wf rise inside chain ends =
      let same : first ≡ tip = cc in rw same (omega arith, count_self t tip inside)
  chain_counted t first (y ∷ rest) tip wf rise inside chain ends =
      let (low, counted) = chain_counted t y rest tip wf rise inside chain.1 ends in
      let lower = rise first y (parent_index-Edge t y first chain.0) in
      let more =
        count_below t first y (height_of t tip) (parent_is_node t y first wf chain.0) lower low in
      (omega arith, omega arith)

  -- A window has a gap exactly when the tree has a block in it, above its lowest height, without that
  -- block's predecessor.
  pub has_history_gap_in_window_lem :
      (t : TreeInfo G) (start_height end_height : ℕ)
      → IsWellFormed t
      → (has_history_gap_in_window t start_height end_height ≡ true) ↔ (
          (c : ℕ) × (n : HeaderInfo) × (weight t c ≡ some n)
          × (start_height < n.height)
          × (n.height ≤ end_height)
          × (¬ HasParent t n))
  unfolding has_history_gap_in_window height_of
  has_history_gap_in_window_lem t lo hi wf = (
    λ gap.
        let (c, root, test) = any_by-count _ (externals t.graph) gap in
        let inside : c < node_count t = ground (arith, petgraph.count-externals t.graph c) in
        let (n, at) = get_elem?_of_lt (raw_nodes t.graph) c inside in
        (c, n, at, ground arith, ground arith, root_no_parent t c n wf at root),
    λ (c, n, at, above, below, orphan). elim (root_or_parent t c n wf at) [
      | inr parent ↦ absurd (orphan parent)
      | inl root ↦ any_by_of_count _ c (externals t.graph) root (ground arith)
    ],
  )

module _ {G F : Type 0} ⦃bitcoin : Bitcoin⦄ ⦃petgraph : DiGraph HeaderInfo G⦄
    ⦃float : Float F⦄ where
  -- A window that `build_window` makes available counts the headers between its ends.
  build_window_exact :
      (t : TreeInfo G) (range : StaleBlockRateRangeJson) (start tip active lo hi : ℕ)
      (window : StaleBlockRateWindowJson F)
      → height_of t start ≡ lo
      → height_of t tip ≡ hi
      → active ≤ count_headers_in_height_range t lo hi
      → build_window t range start tip active ≡ window
      → window.available ≡ true
      → (window.active_blocks ≡ active)
        × ((headers : List ℕ) × AreBlocksBetween t lo hi headers
            × (window.stale_blocks + window.active_blocks ≡ length headers))
        × (has_history_gap_in_window t lo hi ≡ false)
  unfolding build_window window_unavailable
  build_window_exact t range start tip active lo hi window from to enough e available =
      elim (Bool-cases (has_history_gap_in_window t lo hi)) [
        | inl gap ↦ absurd (
            not_both available
              (sym (ap (λ w. w.available) (rw (from, to, gap, build_window) at e))))
        | inr no_gap ↦
            let same = rw (from, to, no_gap, build_window) at e in
            let active_eq : window.active_blocks ≡ active = sym (ap (λ w. w.active_blocks) same) in
            let stale_eq = ap (λ w. w.stale_blocks) same in
            let (headers, between, counted) = count_headers_in_height_range_lem t lo hi in
            (active_eq, (headers, between, omega arith), no_gap)
      ]

  -- A rolling window that is available spans the tip's last `blocks` heights. Its stale and its active
  -- blocks together are all headers of the tree at these heights, `blocks` of them are active, and the
  -- window has no gap.
  pub rolling_window_exact :
      (t : TreeInfo G) (context : MetricsContext) (blocks : ℕ) (window : StaleBlockRateWindowJson F)
      → IsWellFormed t
      → HeightsRise t
      → HeightsFit t
      → context.resolved_tip < node_count t
      → 0 < blocks
      → calculate_rolling_window t context blocks ≡ window
      → window.available ≡ true
      → let tip_height = height_of t context.resolved_tip in
        (blocks ≤ tip_height + 1)
        × (window.active_blocks ≡ blocks)
        × ((headers : List ℕ) × AreBlocksBetween t (tip_height + 1 - blocks) tip_height headers
            × (window.stale_blocks + window.active_blocks ≡ length headers))
        × (has_history_gap_in_window t (tip_height + 1 - blocks) tip_height ≡ false)
  unfolding calculate_rolling_window walk_back_window_start window_unavailable
  rolling_window_exact t context blocks window wf rise fit inside pos e available =
      elim (Option-cases (walk_back t context.resolved_tip (blocks - 1))) [
        | inl short ↦ absurd (
            not_both available
              (sym (ap (λ w. w.available) (rw (short, calculate_rolling_window) at e))))
        | inr (start, found) ↦
            let (from, counted) =
              walk_back_lem t context.resolved_tip (blocks - 1) start wf rise fit inside found in
            let lo : height_of t start ≡ height_of t context.resolved_tip + 1 - blocks =
              omega arith in
            let enough = rw lo at counted in
            let exact =
              build_window_exact t (StaleBlockRateRangeJson.rolling blocks) start
                context.resolved_tip blocks _ _ window lo refl (omega arith)
                (rw (found, calculate_rolling_window) at e) available in
            (omega arith, exact.0, exact.1, exact.2)
      ]

  -- The window of all time, when it is available: its active blocks are those on the path from the root
  -- to the tip, and its stale and active blocks together are all headers between the heights of the two.
  pub all_time_window_exact :
      (t : TreeInfo G) (context : MetricsContext) (window : StaleBlockRateWindowJson F)
      → IsWellFormed t
      → HeightsRise t
      → context.resolved_tip < node_count t
      → path_to_root t context.resolved_tip ≡ some context.resolved_path
      → calculate_all_time_window t context ≡ some window
      → window.available ≡ true
      → (root : ℕ) × (rest : List ℕ) × (context.resolved_path ≡ root ∷ rest)
        × (parent_index t root ≡ none)
        × (window.active_blocks ≡ length context.resolved_path)
        × ((headers : List ℕ) × AreBlocksBetween t
              (height_of t root)
              (height_of t context.resolved_tip)
              headers
            × (window.stale_blocks + window.active_blocks ≡ length headers))
        × (has_history_gap_in_window t (height_of t root) (height_of t context.resolved_tip)
            ≡ false)
  unfolding calculate_all_time_window
  all_time_window_exact t context window wf rise inside on_path e available =
      let way = path_to_root-IsRootPath t context.resolved_tip context.resolved_path on_path in
      let path_eq = way.path_eq in
      let (_, counted) =
        chain_counted t way.first way.rest context.resolved_tip wf rise inside
          (rw path_eq at way.chain) (rw path_eq at way.ends) in
      let built = some_eq (rw (path_eq, calculate_all_time_window) at e) in
      let exact =
        build_window_exact t StaleBlockRateRangeJson.all_time way.first context.resolved_tip
          (length context.resolved_path) _ _ window refl refl (omega (arith, ap length path_eq))
          built available in
      (way.first, way.rest, path_eq, way.is_root, exact.0, exact.1, exact.2)
