-- ===== src/Main.antt =====
-- src/main.rs: the tasks that follow one network. An argument gives what `get_new_headers` of a backend loads; the
-- task that takes its batches runs after it here. `none` is the panic of an `expect`.
pub mod Shared
pub mod TipOrder
pub mod Steps
pub mod Invariant
pub mod Persist
pub mod Repair
pub mod Poll
pub mod Miners
mod Tests
use Prim.Native.String.{String}
use text.Mathlib.Text.{◌==◌ as str_eq}
use reorg_playground.Prelude.{
  ℕ, zero, suc, ◌+◌, ◌==◌, Bool, true, false, Option, none, some, List, [], ◌∷◌, ◌++◌, map, length,
  Result, ok, err, if◌then◌else◌,
}
use reorg_playground.External.Bitcoin.{Bitcoin}
use reorg_playground.External.Petgraph.{DiGraph}
use reorg_playground.External.Sqlite.{Sqlite, Encoding}
use reorg_playground.Node.{Node, info_of}
use reorg_playground.Node.Errors.{FetchError, bitcoin_core_rpc}
use reorg_playground.State.{Network}
use reorg_playground.Types.{HeaderInfo, TreeInfo}
use reorg_playground.Types.Tips.{ChainTip}
use reorg_playground.Types.Metrics.{Float}
use reorg_playground.HeaderTree.{hash_of, insert_headers}
use reorg_playground.HeaderTree.Roots.{unexpected_root_count}
use reorg_playground.HeaderTree.Serialize.{serialize_tree}
use reorg_playground.HeaderTree.Forks.{recent_forks}
use reorg_playground.Db.{DbError, write_to_db}
use reorg_playground.Fetch.{Fetched}
use reorg_playground.Fetch.Repair.{fetch_missing_headers_for_unexpected_roots}
use reorg_playground.Cache.{
  CacheUpdate, header_tree, node_tips, node_reachability, node_version, update_cache,
  is_node_reachable,
}
use reorg_playground.Main.Shared.{Server, ◌>>=◌}
use reorg_playground.Main.TipOrder.{tips_eq, sort_tips}

abbrev pub max_forks_in_cache : ℕ
max_forks_in_cache = 50

abbrev pub version_unknown : String
version_unknown = "unknown"

abbrev pub node_version_retries : ℕ
node_version_retries = 5

-- The loop of `load_node_version`, with the attempts left. An error of JSON-RPC is passed over; whether an error of
-- the client is one is an argument.
pub load_node_version : {W : Type 0} → (String → Bool) → Node W → ℕ → W → String × W
load_node_version is_json_rpc node zero w = (version_unknown, w)
load_node_version is_json_rpc node (suc attempts) w =
    let (result, w') = node.required.version w in
    elim result [
      | ok version ↦ (version, w')
      | err e ↦ elim e [
        | bitcoin_core_rpc msg ↦ elim (is_json_rpc msg) [
          | true ↦ load_node_version is_json_rpc node attempts w'
          | false ↦ (version_unknown, w')
        ]
        | _ ↦ (version_unknown, w')
      ]
    ]

module _ {B D G F : Type 0} where
  pub queue_miner_identification_requests : List ℕ → Server B D G F → Server B D G F
  queue_miner_identification_requests block_hashes s = record s {
    miner_queue = s.miner_queue ++ block_hashes;
  }

module _ {B D G F : Type 0} ⦃bitcoin : Bitcoin⦄ ⦃petgraph : DiGraph HeaderInfo G⦄ ⦃float : Float F⦄
    ⦃encoding : Encoding DbError⦄ ⦃sqlite : Sqlite DbError D⦄ (dfs : G → ℕ → List ℕ)
    (network : Network (Server B D G F)) where
  -- `update_cache` with what the tasks give it; no other task runs in between
  pub update_network_cache : CacheUpdate → Server B D G F → Option (Server B D G F)
  update_network_cache update s = do
    (caches, changed) ←
        update_cache s.now (λ caches. caches) s.caches s.tree network.stale_rate_ranges network.id
          update
    some (record s { caches = caches; sent_changes = s.sent_changes ++ changed ∷ [] })

  pub refresh_network_tree_cache : Server B D G F → Option (Server B D G F)
  refresh_network_tree_cache s =
      update_network_cache
        (header_tree (serialize_tree s.tree) (recent_forks dfs s.tree max_forks_in_cache)) s

  -- The tree and the database after a batch, whether the tree changed, and how many headers were written
  pub store_headers : List HeaderInfo → Server B D G F → Option (Bool × ℕ × Server B D G F)
  store_headers headers s = do
    (tree, tree_changed) ← insert_headers s.tree headers
    let (written, db) = write_to_db headers s.db network.id in
        some (
          tree_changed,
          elim written [ ok _ ↦ length headers | err _ ↦ 0 ],
          record s { tree = tree; db = db },
        )

  pub persist_headers : List HeaderInfo → Server B D G F → Option (ℕ × Server B D G F)
  persist_headers [] s = some (0, s)
  persist_headers (h ∷ hs) s = do
    (tree_changed, persisted_header_count, s') ← store_headers (h ∷ hs) s
    elim tree_changed [
      | true ↦ do s'' ← refresh_network_tree_cache s'; some (persisted_header_count, s'')
      | false ↦ some (persisted_header_count, s')
    ]

  -- The batches in the order in which they were sent
  pub process_header_progress_updates :
      List (List HeaderInfo) → Server B D G F → Option (ℕ × Server B D G F)
  process_header_progress_updates [] s = some (0, s)
  process_header_progress_updates (batch ∷ batches) s = do
    (persisted, s') ← persist_headers batch s
    (total, s'') ← process_header_progress_updates batches s'
    some (persisted + total, s'')

  -- The update of a node's reachability, where it is not as the cache has it
  pub set_node_reachable : Node (Server B D G F) → Bool → Server B D G F → Option (Server B D G F)
  set_node_reachable node reachable s = do
    known ← is_node_reachable s.caches network.id (info_of node).id
    let update = update_network_cache (node_reachability (info_of node).id reachable) s in
        elim known [
          | true ↦ if reachable then some s else update
          | false ↦ if reachable then update else some s
        ]

  pub load_sorted_tips :
      Node (Server B D G F) → Server B D G F → Option (Option (List ChainTip) × Server B D G F)
  load_sorted_tips node s =
      let (result, s') = node.required.tips s in
      elim result [
        | ok tips ↦ do s'' ← set_node_reachable node true s'; some (some (sort_tips tips), s'')
        | err _ ↦ do s'' ← set_node_reachable node false s'; some (none, s'')
      ]

  pub update_node_tips_cache :
      Node (Server B D G F) → List ChainTip → Server B D G F → Option (Server B D G F)
  update_node_tips_cache node tips = update_network_cache (node_tips (info_of node).id tips)

  -- What the missing headers are put to
  pub store_missing_headers : List HeaderInfo → Server B D G F → Option (Server B D G F)
  store_missing_headers [] s = some s
  store_missing_headers (h ∷ hs) s = do
    (_, s') ← persist_headers (h ∷ hs) s
    some (queue_miner_identification_requests (map (λ h. hash_of h) (h ∷ hs)) s')

  pub repair_missing_headers_from_unexpected_roots :
      Node (Server B D G F) → Server B D G F → Option (Server B D G F)
  repair_missing_headers_from_unexpected_roots node s =
      elim (unexpected_root_count s.tree network.first_tracked_height == 0) [
        | true ↦ some s
        | false ↦
            let (result, s', _) =
              fetch_missing_headers_for_unexpected_roots (λ (t : Server B D G F). t.tree)
                node.required.block_header network.first_tracked_height false s in
            elim result [
              | err _ ↦ some s'
              | ok missing_headers ↦ store_missing_headers missing_headers s'
            ]
      ]

  -- The first update of the task of a node
  pub start_node :
      (String → Bool) → Node (Server B D G F) → Server B D G F → Option (Server B D G F)
  start_node is_json_rpc node s =
      let (version, s') = load_node_version is_json_rpc node node_version_retries s in
      update_network_cache (node_version (info_of node).id version) s'

  module _
      (get_new_headers : Node (Server B D G F)
        → List ChainTip
        → ℕ
        → Server B D G F
        → Fetched (Server B D G F) (List HeaderInfo × List ℕ)) where
    pub fetch_incremental_headers :
        Node (Server B D G F) → List ChainTip → Server B D G F → Option (Bool × Server B D G F)
    fetch_incremental_headers node tips s =
        let (fetch_result, s', batches) =
          get_new_headers node tips network.first_tracked_height s in
        do
          (_, s'') ← process_header_progress_updates batches s'
          elim fetch_result [
            | err _ ↦ some (false, s'')
            | ok (_, miner_hashes) ↦
                some (true, queue_miner_identification_requests miner_hashes s'')
          ]

    -- What one round does for tips that differ from the last ones
    pub follow_tips :
        Node (Server B D G F)
        → List ChainTip
        → List ChainTip
        → Server B D G F
        → Option (List ChainTip × Server B D G F)
    follow_tips node last_tips tips s = do
      (fetched, s') ← fetch_incremental_headers node tips s
      elim fetched [
        | false ↦ some (last_tips, s')
        | true ↦ do
          s'' ← update_node_tips_cache node tips s'
          s''' ← repair_missing_headers_from_unexpected_roots node s''
          some (tips, s''')
      ]

    -- One round of the loop of a node's task, with `last_tips` after it
    pub poll_node :
        Node (Server B D G F)
        → List ChainTip
        → Server B D G F
        → Option (List ChainTip × Server B D G F)
    poll_node node last_tips s = do
      (loaded, s') ← load_sorted_tips node s
      elim loaded [
        | none ↦ some (last_tips, s')
        | some tips ↦ elim (tips_eq last_tips tips) [
          | false ↦ follow_tips node last_tips tips s'
          | true ↦ do
            s'' ← repair_missing_headers_from_unexpected_roots node s'
            some (last_tips, s'')
        ]
      ]
