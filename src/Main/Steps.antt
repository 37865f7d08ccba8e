-- ===== src/Main/Steps.antt =====
-- The steps of the tasks of one network (src/main.rs): each change that a task makes to what they share, in any
-- order.
use Prim.Native.String.{String}
use reorg_playground.Prelude.{
  ◌≤◌, ok, ℕ, ◌≡◌, refl, ◌∙◌, some, Option, Bool, List, [], ◌∷◌, ◌++◌, drop, get, Map, All,
}
use reorg_playground.External.Bitcoin.{Header, BlockHash, Bitcoin}
use reorg_playground.External.Petgraph.{DiGraph}
use reorg_playground.External.Sqlite.{Row, Sqlite, Encoding}
use reorg_playground.Node.{info_of}
use reorg_playground.State.{Network, Cache}
use reorg_playground.Types.{HeaderInfo, TreeInfo}
use reorg_playground.Types.Blocks.{IsSound}
use reorg_playground.Types.Metrics.{Float, NetworkMetricsJson}
use reorg_playground.Types.Tips.{NodeDataJson}
use reorg_playground.HeaderTree.{insert_headers, weight}
use reorg_playground.HeaderTree.Insert.{IsWellFormed}
use reorg_playground.HeaderTree.Growth.{IsListed}
use reorg_playground.HeaderTree.Weights.{IsSameBlock, with_miner}
use reorg_playground.Cache.{CacheUpdate, update_locked, store_metrics}
use reorg_playground.Cache.Nodes.{IsShown}
use reorg_playground.Db.{DbError, write_to_db, update_miner}
use reorg_playground.Main.Shared.{Server}

module _ {B D G F : Type 0} ⦃bitcoin : Bitcoin⦄ ⦃petgraph : DiGraph HeaderInfo G⦄ ⦃float : Float F⦄
    ⦃encoding : Encoding DbError⦄ ⦃sqlite : Sqlite DbError D⦄ (network : Network (Server B D G F))
    (IsBlock : Header → Type 0) (block_height : Header → ℕ) where
  open petgraph use {raw_nodes, incoming, set_weight}

  pub data Step (s s' : Server B D G F) : Type 0 where
    -- `insert_headers` with blocks at their heights
    insert_step :
        (headers : List HeaderInfo) (tree : TreeInfo G) (tree_changed : Bool)
        → All (IsSound IsBlock block_height) headers
        → insert_headers s.tree headers ≡ some (tree, tree_changed)
        → s' ≡ record s { tree = tree }
        → Step s s'
    -- `write_to_db` with headers that were inserted before
    write_step :
        (headers : List HeaderInfo)
        → All (IsSound IsBlock block_height) headers
        → All (IsListed s.tree.index) headers
        → s' ≡ record s { db = (write_to_db headers s.db network.id).1 }
        → Step s s'
    -- `update_cache`, under its first lock
    cache_step :
        (update : CacheUpdate) (caches : Map (Cache F)) (node_data : Option (Map NodeDataJson))
        → update_locked s.now s.caches network.id update ≡ some (caches, node_data)
        → s' ≡ record s { caches = caches }
        → Step s s'
    -- `update_cache`, under its second lock, with metrics that were calculated at any time before
    metrics_step :
        (metrics : NetworkMetricsJson F)
        → s' ≡ record s { caches = store_metrics network.id metrics s.caches }
        → Step s s'
    -- The end of `update_cache`
    notify_step :
        (changed : ℕ) → s' ≡ record s { sent_changes = s.sent_changes ++ changed ∷ [] } → Step s s'
    -- `graph[idx]` with the miner that was found
    miner_step :
        (idx : ℕ) (header_info : HeaderInfo) (miner : String)
        → weight s.tree idx ≡ some header_info
        → s' ≡ record s { tree = with_miner s.tree idx header_info miner }
        → Step s s'
    write_miner_step :
        (hash : BlockHash) (miner : String)
        → s' ≡ record s { db = (update_miner s.db hash miner).1 }
        → Step s s'
    send_step :
        (block_hashes : List ℕ)
        → s' ≡ record s { miner_queue = s.miner_queue ++ block_hashes }
        → Step s s'
    receive_step : (n : ℕ) → s' ≡ record s { miner_queue = drop n s.miner_queue } → Step s s'
    -- The bitcoin nodes, and the clock
    outside_step :
        (backends : B) (now : ℕ) → s' ≡ record s { backends = backends; now = now } → Step s s'

  pub data Reach (s : Server B D G F) : Server B D G F → Type 0 where
    here : Reach s s
    next : {t u : Server B D G F} → Reach s t → Step t u → Reach s u

  pub Reach-join : {s t u : Server B D G F} → Reach s t → Reach t u → Reach s u
  Reach-join r here = r
  Reach-join r (next r' step) = next (Reach-join r r') step

  -- A row of the network holds a block at its height; one that a restart loads is in the tree.
  abbrev pub IsStored : TreeInfo G → Row → Type 0
  IsStored t row =
      row.network ≡ network.id
      → (header : Header) × (encoding.decode row.header ≡ ok header)
        × IsBlock header
        × (row.height ≡ block_height header)
        × (network.first_tracked_height ≤ row.height
            → (i : ℕ) × (get (bitcoin.block_hash header) t.index ≡ some i))

  -- The tree is well formed and has blocks at their heights, the cache shows the network's nodes, and the rows of
  -- the database hold blocks of the tree.
  pub record IsValid (s : Server B D G F) : Type 0 where
    pub well_formed : IsWellFormed s.tree
    pub sound : All (IsSound IsBlock block_height) (raw_nodes s.tree.graph)
    pub cached :
        (cache : Cache F) × (get network.id s.caches ≡ some cache)
        × All (λ node. IsShown cache (info_of node).id) network.nodes
    pub stored : All (IsStored s.tree) (sqlite.rows s.db)

  -- The blocks of one tree stand in the other one at the same places, and under the same hashes.
  abbrev pub KeepsBlocks : TreeInfo G → TreeInfo G → Type 0
  KeepsBlocks t t' =
      ((i : ℕ) (n : HeaderInfo)
        → weight t i ≡ some n
        → (n' : HeaderInfo) × (weight t' i ≡ some n') × IsSameBlock n n')
      × ((k i : ℕ) → get k t.index ≡ some i → get k t'.index ≡ some i)

  pub KeepsBlocks-refl : (t : TreeInfo G) → KeepsBlocks t t
  KeepsBlocks-refl t = (λ i n at. (n, at, (refl, refl)), λ k i at. at)

  pub KeepsBlocks-trans : (t u v : TreeInfo G) → KeepsBlocks t u → KeepsBlocks u v → KeepsBlocks t v
  KeepsBlocks-trans t u v (nodes, index) (nodes', index') = (
    λ i n at.
        let (m, at_m, (header, height)) = nodes i n at in
        let (n', at', (header', height')) = nodes' i m at_m in
        (n', at', (header ∙ header', height ∙ height')),
    λ k i at. index' k i (index k i at),
  )
