-- ===== src/Main/Repair.antt =====
-- The repair of unexpected roots in a round of polling, and the updates of a node's reachability (src/main.rs).
use reorg_playground.Prelude.{
  ℕ, ◌==◌, ◌≡◌, refl, inl, inr, Bool, false, Bool-cases, List, [], ◌∷◌, map, All, Any, Any_elim,
  Result-cases,
}
use reorg_playground.External.Bitcoin.{Header, Bitcoin}
use reorg_playground.External.Petgraph.{DiGraph}
use reorg_playground.External.Sqlite.{Sqlite, Encoding}
use reorg_playground.Node.{Node, info_of}
use reorg_playground.State.{Network}
use reorg_playground.Types.{HeaderInfo, TreeInfo}
use reorg_playground.Types.Blocks.{AreBlocks, IsSound}
use reorg_playground.Types.Metrics.{Float}
use reorg_playground.HeaderTree.{hash_of}
use reorg_playground.HeaderTree.Roots.{unexpected_root_count}
use reorg_playground.Fetch.Repair.{fetch_missing_headers_for_unexpected_roots}
use reorg_playground.Fetch.Repair.Sound.{IsHonest, repair-IsSound}
use reorg_playground.Cache.{node_reachability}
use reorg_playground.Cache.Nodes.{IsShown, is_node_reachable_lem}
use reorg_playground.Db.{DbError}
use reorg_playground.Main.Shared.{Server}
use reorg_playground.Main.{
  queue_miner_identification_requests, set_node_reachable, store_missing_headers,
  repair_missing_headers_from_unexpected_roots,
}
use reorg_playground.Main.Steps.{Reach, here, next, Reach-join, send_step, IsValid}
use reorg_playground.Main.Persist.{
  RunsTo, Has, IsGood-Reaches, update_network_cache_runs, persist_headers_runs,
}

module _ {B D G F : Type 0} ⦃bitcoin : Bitcoin⦄ ⦃petgraph : DiGraph HeaderInfo G⦄ ⦃float : Float F⦄
    ⦃encoding : Encoding DbError⦄ ⦃sqlite : Sqlite DbError D⦄ (dfs : G → ℕ → List ℕ)
    (network : Network (Server B D G F)) (IsBlock : Header → Type 0) (block_height : Header → ℕ)
    (blocks : AreBlocks IsBlock block_height) where
  abbrev Good : Server B D G F → Type 0
  Good s = IsValid network IsBlock block_height s

  abbrev Steps : Server B D G F → Server B D G F → Type 0
  Steps s s' = Reach network IsBlock block_height s s'

  abbrev Holds : Server B D G F → List HeaderInfo → Type 0
  Holds s headers = Has dfs network IsBlock block_height blocks s headers

  pub queue_runs :
      (s : Server B D G F) (hashes : List ℕ)
      → Steps s (queue_miner_identification_requests hashes s)
  unfolding queue_miner_identification_requests
  queue_runs s hashes = next here (send_step hashes refl)

  -- The cache of the network shows the node.
  abbrev IsMember : Node (Server B D G F) → Type 0
  IsMember node = Any (λ n. n ≡ node) network.nodes

  pub set_node_reachable_runs :
      (node : Node (Server B D G F)) (reachable : Bool) (s : Server B D G F)
      → Good s
      → IsMember node
      → RunsTo dfs network IsBlock block_height blocks s
          (set_node_reachable dfs network node reachable s)
  unfolding set_node_reachable
  set_node_reachable_runs node reachable s good member =
      let (cache, cached, all) = good.cached in
      let (data_of, shown) =
        Any_elim (λ n. IsShown cache (info_of n).id) (λ n. n ≡ node) network.nodes
          (λ n shown same. rw same at shown) all member in
      let (s', updated, r) =
        update_network_cache_runs dfs network IsBlock block_height blocks
          (node_reachability (info_of node).id reachable) s good in
      let known =
        is_node_reachable_lem s.caches network.id (info_of node).id cache data_of cached shown in
      elim (Bool-cases data_of.reachable) [
        | inl was ↦ elim (Bool-cases reachable) [
          | inl is ↦ (s, rw (known, was, is, set_node_reachable) refl, here)
          | inr is ↦ (s', rw (known, was, is, set_node_reachable) (rw is at updated), r)
        ]
        | inr was ↦ elim (Bool-cases reachable) [
          | inl is ↦ (s', rw (known, was, is, set_node_reachable) (rw is at updated), r)
          | inr is ↦ (s, rw (known, was, is, set_node_reachable) refl, here)
        ]
      ]

  store_missing_headers_runs :
      (headers : List HeaderInfo) (s : Server B D G F)
      → Good s
      → All (IsSound IsBlock block_height) headers
      → RunsTo dfs network IsBlock block_height blocks s
          (store_missing_headers dfs network headers s)
  unfolding store_missing_headers
  store_missing_headers_runs [] s good at = (s, refl, here)
  store_missing_headers_runs (h ∷ hs) s good at =
      let (n, s', persisted, r, _) =
        persist_headers_runs dfs network IsBlock block_height blocks (h ∷ hs) s good at in
      (
        queue_miner_identification_requests (map (λ h. hash_of h) (h ∷ hs)) s',
        rw (persisted, store_missing_headers) refl,
        Reach-join network IsBlock block_height r (queue_runs s' _),
      )

  pub repair_runs :
      (node : Node (Server B D G F)) (s : Server B D G F)
      → Good s
      → IsHonest IsBlock block_height Steps node.required.block_header
      → RunsTo dfs network IsBlock block_height blocks s
          (repair_missing_headers_from_unexpected_roots dfs network node s)
  unfolding repair_missing_headers_from_unexpected_roots
  repair_runs node s good honest =
      let first = network.first_tracked_height in
      elim (Bool-cases (unexpected_root_count s.tree first == 0)) [
        | inl no_root ↦ (s, rw (no_root, repair_missing_headers_from_unexpected_roots) refl, here)
        | inr some_root ↦
            let tree : Server B D G F → TreeInfo G = λ t. t.tree in
            let block_header = node.required.block_header in
            let fetched =
              fetch_missing_headers_for_unexpected_roots tree block_header first false s in
            let (r, sound) =
              repair-IsSound tree blocks (λ t. here)
                (λ t u v. Reach-join network IsBlock block_height) block_header honest first false s
                good.sound in
            elim (Result-cases fetched.0) [
              | inl (x, failed) ↦ (
                fetched.1,
                rw (some_root, failed, repair_missing_headers_from_unexpected_roots) refl,
                r,
              )
              | inr (headers, done) ↦
                  let good' =
                    IsGood-Reaches dfs network IsBlock block_height blocks s fetched.1 good r in
                  let (s', stored, r') =
                    store_missing_headers_runs headers fetched.1 good' (sound headers done) in
                  (
                    s',
                    rw (some_root, done, repair_missing_headers_from_unexpected_roots) stored,
                    Reach-join network IsBlock block_height r r',
                  )
            ]
      ]
