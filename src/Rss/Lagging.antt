-- ===== src/Rss/Lagging.antt =====
-- Which nodes the feed of lagging nodes of src/rss.rs reports.
use reorg_playground.Prelude.{
  ℕ, ◌+◌, ◌%◌, ◌^◌, ◌≤◌, ◌<◌, ◌≡◌, refl, inl, inr, ltb, ltb→lt, List, [], ◌∷◌, length, arith, All,
  Any, All-map, Bool-cases, Map, values,
}
use reorg_playground.Types.Tips.{NodeDataJson}
use reorg_playground.Rss.{
  Item, lagging_node_item, active_height, max_active_height, lagging_among, lagging_nodes,
}

-- One of the nodes has an active tip more than three blocks above this node's.
abbrev pub IsLagging : List NodeDataJson → NodeDataJson → Type 0
IsLagging nodes node = Any (λ other. active_height node + 3 < active_height other) nodes

-- The item reports the node.
abbrev pub Reports : NodeDataJson → Item → Type 0
Reports node item = item ≡ lagging_node_item node (active_height node)

below_max :
    (h : ℕ) (nodes : List NodeDataJson)
    → h < max_active_height nodes
    → Any (λ other. h < active_height other) nodes
below_max h [] lt = absurd (omega arith)
below_max h (node ∷ nodes) lt = elim (Bool-cases (ltb h (active_height node))) [
  | inl here ↦ inl (ltb→lt h (active_height node) here)
  | inr later ↦
      let low : active_height node ≤ h = ground arith in inr (below_max h nodes (omega arith))
]

above_max :
    (h : ℕ) (nodes : List NodeDataJson)
    → Any (λ other. h < active_height other) nodes
    → h < max_active_height nodes
above_max h [] some_node = absurd some_node
above_max h (node ∷ nodes) (inl here) = omega arith
above_max h (node ∷ nodes) (inr later) = omega (arith, above_max h nodes later)

abbrev Fits : NodeDataJson → Type 0
Fits node = active_height node + 3 < 2 ^ 64

lagging_among_sound :
    (top : ℕ) (nodes : List NodeDataJson)
    → All Fits nodes
    → All
        (λ item. Any (λ node. Reports node item × (active_height node + 3 < top)) nodes)
        (lagging_among top nodes)
unfolding lagging_among
lagging_among_sound top [] fit = tt
lagging_among_sound top (node ∷ nodes) fit =
    let rest : All (λ item. Any (λ n. Reports n item × (active_height n + 3 < top)) (node ∷ nodes))
        (lagging_among top nodes) =
      All-map _ _ (lagging_among top nodes) (λ item later. inr later)
        (lagging_among_sound top nodes fit.1) in
    let small = fit.0 in
    elim (Bool-cases (ltb ((active_height node + 3) % 2 ^ 64) top)) [
      | inl behind ↦
          let lt = ltb→lt _ _ behind in rw (behind, lagging_among) (inl (refl, omega arith), rest)
      | inr close ↦ rw (close, lagging_among) rest
    ]

lagging_among_complete :
    (top : ℕ) (nodes : List NodeDataJson)
    → All Fits nodes
    → All
        (λ node. active_height node + 3 < top → Any (Reports node) (lagging_among top nodes))
        nodes
unfolding lagging_among
lagging_among_complete top [] fit = tt
lagging_among_complete top (node ∷ nodes) fit =
    let rest = lagging_among_complete top nodes fit.1 in
    let small = fit.0 in
    elim (Bool-cases (ltb ((active_height node + 3) % 2 ^ 64) top)) [
      | inl behind ↦ (
        λ _. rw (behind, lagging_among) (inl refl),
        All-map _ _ nodes (λ n found lt. rw (behind, lagging_among) (inr (found lt))) rest,
      )
      | inr close ↦ (
        λ lt.
            let same : (active_height node + 3) % 2 ^ 64 ≡ active_height node + 3 = omega arith in
            absurd (ground arith),
        All-map _ _ nodes (λ n found lt. rw (close, lagging_among) (found lt)) rest,
      )
    ]

Any-each :
    {P P' : NodeDataJson → Type 0} (nodes : List NodeDataJson)
    → ((n : NodeDataJson) → P n → P' n)
    → Any P nodes
    → Any P' nodes
Any-each [] f found = found
Any-each (node ∷ nodes) f (inl here) = inl (f node here)
Any-each (node ∷ nodes) f (inr later) = inr (Any-each nodes f later)

not_alone :
    (node_data : Map NodeDataJson)
    → length node_data ≤ 1
    → All (λ node. ¬ IsLagging (values node_data) node) (values node_data)
not_alone [] one = tt
not_alone ((id, single) ∷ []) one = (λ lag. elim lag [ inl lt ↦ omega arith | inr none ↦ none ], tt)
not_alone (a ∷ b ∷ node_data) one = absurd (omega arith)

-- If no height is within 3 of 2^64, the feed has an item for a node exactly if the active tip of another node
-- is more than three blocks above its own: each item is the one of such a node, and each such node has its item.
pub lagging_nodes_lem :
    (node_data : Map NodeDataJson)
    → All (λ node. active_height node + 3 < 2 ^ 64) (values node_data)
    → let nodes = values node_data in
      let items = lagging_nodes node_data in
      All (λ item. Any (λ node. Reports node item × IsLagging nodes node) nodes) items
      × All (λ node. IsLagging nodes node → Any (Reports node) items) nodes
unfolding lagging_nodes
lagging_nodes_lem node_data fit =
    let nodes = values node_data in
    let top = max_active_height nodes in
    elim (Bool-cases (ltb 1 (length node_data))) [
      | inl several ↦
          rw (several, lagging_nodes)
            (
              All-map _ _ (lagging_among top nodes)
                  (λ item found.
                    Any-each nodes (λ n (reports, lt). (reports, below_max _ nodes lt)) found)
                  (lagging_among_sound top nodes fit),
              All-map _ _ nodes (λ node found lag. found (above_max _ nodes lag))
                  (lagging_among_complete top nodes fit),
            )
      | inr alone ↦
          let one : length node_data ≤ 1 = ground arith in
          rw (alone, lagging_nodes)
            (tt, All-map _ _ nodes (λ node no lag. absurd (no lag)) (not_alone node_data one))
    ]
