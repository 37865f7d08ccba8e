-- ===== src/Cache/Populate.antt =====
-- `populate_cache` of src/cache.rs: what a network shows before any node is asked.
use reorg_playground.Prelude.{
  ℕ, ◌≡◌, refl, ◌∙◌, inl, inr, Bool, true, ◌==◌, ==_iff, ltb, some, List, [], ◌∷◌, All, All-map,
  arith, Map, get, insert_ordered, values, Bool-cases, if◌then◌else◌,
}
use reorg_playground.External.Bitcoin.{Bitcoin}
use reorg_playground.External.Petgraph.{DiGraph}
use reorg_playground.Node.{Node, info_of}
use reorg_playground.State.{Network, Cache}
use reorg_playground.Types.{HeaderInfo, TreeInfo, Fork}
use reorg_playground.Types.Tips.{NodeDataJson}
use reorg_playground.Types.Metrics.{Float, metrics_unavailable, no_reachable_active_tip}
use reorg_playground.Metrics.Network.{calculate_network_metrics-no_tips}
use reorg_playground.HeaderTree.Serialize.{serialize_tree}
use reorg_playground.Cache.{initial_node_data, collect_node_data, populate_cache}

get-insert_ordered :
    {V : Type 0} (k j : ℕ) (v : V) (m : Map V)
    → get j (insert_ordered k v m) ≡ (if k == j then some v else get j m)
get-insert_ordered k j v [] = refl
get-insert_ordered k j v ((i, w) ∷ m) = ground (arith, get-insert_ordered k j v m)

All-insert_ordered :
    {V : Type 0} (P : V → Type 0) (k : ℕ) (v : V) (m : Map V)
    → P v
    → All P (values m)
    → All P (values (insert_ordered k v m))
All-insert_ordered P k v [] h all = (h, tt)
All-insert_ordered P k v ((i, w) ∷ m) h all = elim (Bool-cases (ltb k i)) [
  | inl before ↦ rw before (h, all)
  | inr after ↦ elim (Bool-cases (k == i)) [
    | inl same ↦ rw (after, same) (h, all.1)
    | inr other ↦ rw (after, other) (all.0, All-insert_ordered P k v m h all.1)
  ]
]

-- A node that no one has asked yet
abbrev pub IsInitial : NodeDataJson → Type 0
IsInitial n = (n.tips ≡ []) × (n.reachable ≡ true) × (n.version ≡ "unknown")

module _ {W : Type 0} where
  abbrev pub Shows : Map NodeDataJson → Node W → Type 0
  Shows node_data node =
      (n : NodeDataJson) × (get (info_of node).id node_data ≡ some n) × IsInitial n

  collect_node_data-keeps :
      (view_only : Bool) (nodes : List (Node W)) (m : Map NodeDataJson) (id : ℕ)
      → (n : NodeDataJson) × (get id m ≡ some n) × IsInitial n
      → (n : NodeDataJson) × (get id (collect_node_data view_only nodes m) ≡ some n) × IsInitial n
  unfolding collect_node_data initial_node_data
  collect_node_data-keeps view_only [] m id has = has
  collect_node_data-keeps view_only (node ∷ nodes) m id (n, at, fresh) =
      let k = (info_of node).id in
      let put = get-insert_ordered k id (initial_node_data view_only node) m in
      collect_node_data-keeps view_only nodes
        (insert_ordered k (initial_node_data view_only node) m) id
        (elim (Bool-cases (k == id)) [
          | inl same ↦ (initial_node_data view_only node, rw same at put, (refl, refl, refl))
          | inr other ↦ (n, rw other at put ∙ at, fresh)
        ])

  collect_node_data_lem :
      (view_only : Bool) (nodes : List (Node W)) (m : Map NodeDataJson)
      → All IsInitial (values m)
      → All IsInitial (values (collect_node_data view_only nodes m))
        × All (Shows (collect_node_data view_only nodes m)) nodes
  unfolding collect_node_data initial_node_data
  collect_node_data_lem view_only [] m all = (all, tt)
  collect_node_data_lem view_only (node ∷ nodes) m all =
      let k = (info_of node).id in
      let n = initial_node_data view_only node in
      let (all', shown) =
        collect_node_data_lem view_only nodes (insert_ordered k n m)
          (All-insert_ordered IsInitial k n m (refl, refl, refl) all) in
      let same : (k == k) ≡ true = (==_iff k k).1 refl in
      let here = rw same at (get-insert_ordered k k n m) in
      (
        all',
        (
          collect_node_data-keeps view_only nodes (insert_ordered k n m) k
              (n, here, (refl, refl, refl)),
          shown,
        ),
      )

module _ {W F G : Type 0} ⦃bitcoin : Bitcoin⦄ ⦃petgraph : DiGraph HeaderInfo G⦄
    ⦃float : Float F⦄ where
  -- `populate_cache` always succeeds. The cache that it makes has the headers of the tree, each configured node
  -- as reachable and without tips, no recent miners, and metrics that say that there is no active tip.
  pub populate_cache_lem :
      (network : Network W) (tree : TreeInfo G) (forks : List Fork) (caches : Map (Cache F))
      → (caches' : Map (Cache F)) × (cache : Cache F) × (populate_cache network tree forks caches
          ≡ some caches')
        × (get network.id caches' ≡ some cache)
        × (cache.header_infos_json ≡ serialize_tree tree)
        × All (Shows cache.node_data) network.nodes
        × All IsInitial (values cache.node_data)
        × (cache.recent_miners ≡ [])
        × (cache.metrics ≡ metrics_unavailable network.stale_rate_ranges no_reachable_active_tip)
  unfolding populate_cache
  populate_cache_lem network tree forks caches =
      let node_data = collect_node_data network.view_only_mode network.nodes [] in
      let (all, shown) = collect_node_data_lem network.view_only_mode network.nodes [] tt in
      let unknown =
        calculate_network_metrics-no_tips {F = F} tree node_data network.stale_rate_ranges
          (All-map IsInitial (λ n. n.tips ≡ []) (values node_data) (λ n fresh. fresh.0) all) in
      let cache : Cache F = record {
        header_infos_json = serialize_tree tree;
        node_data = node_data;
        forks = forks;
        metrics = metrics_unavailable network.stale_rate_ranges no_reachable_active_tip;
        recent_miners = [];
      } in
      let same : (network.id == network.id) ≡ true = (==_iff network.id network.id).1 refl in
      (
        insert_ordered network.id cache caches,
        cache,
        rw (unknown, populate_cache) refl,
        rw same at (get-insert_ordered network.id network.id cache caches),
        refl,
        shown,
        all,
        refl,
        refl,
      )
