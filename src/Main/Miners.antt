-- ===== src/Main/Miners.antt =====
-- The tasks of src/main.rs that look for the miners of blocks: which blocks are looked at after the start, and
-- what is done for a block hash that was sent into the channel.
pub mod Identify
use Prim.Native.String.{String}
use text.Mathlib.Text.{◌==◌ as str_eq}
use reorg_playground.Prelude.{
  ℕ, ◌+◌, ◌-◌, ◌%◌, ◌^◌, ◌==◌, max, Bool, true, false, not, ◌&&◌, ◌||◌, Option, none, some, List,
  [], ◌∷◌, map, take, drop, filter_by, any_by, get, ok, err, if◌then◌else◌,
}
use reorg_playground.External.Bitcoin.{BlockHash, Bitcoin}
use reorg_playground.External.Petgraph.{DiGraph}
use reorg_playground.External.Sqlite.{Sqlite, Encoding}
use reorg_playground.Node.{Node}
use reorg_playground.State.{Network, as_bitcoin_network}
use reorg_playground.Types.{HeaderInfo, TreeInfo}
use reorg_playground.Types.Metrics.{Float}
use reorg_playground.HeaderTree.{hash_of, weight}
use reorg_playground.HeaderTree.Hotspots.{sorted_interesting_heights}
use reorg_playground.Db.{DbError, update_miner}
use reorg_playground.Cache.{header_miner, tip_heights}
use reorg_playground.Main.Shared.{Server, ◌>>=◌}
use reorg_playground.Main.{update_network_cache, queue_miner_identification_requests}

abbrev pub miner_unknown : String
miner_unknown = "Unknown"

-- The first filter of the backfill, and the test before a block is looked at
pub has_no_miner : HeaderInfo → Bool
has_no_miner info = str_eq info.miner "" || str_eq info.miner miner_unknown

-- The second filter
pub is_near : List ℕ → ℕ → Bool
is_near interesting_heights h =
    let is_interesting : ℕ → Bool = λ height. any_by (λ x. x == height) interesting_heights in
    is_interesting h
    || (is_interesting ((h + 1) % 2 ^ 64)
        || (is_interesting ((h + 2) % 2 ^ 64) || is_interesting (max h 1 - 1)))

-- `HeaderInfo::update_miner`
abbrev pub update_header_miner : String → HeaderInfo → HeaderInfo
update_header_miner miner info = record info { miner = miner }

abbrev pub answer_or : String → Option String → String
answer_or miner none = miner
answer_or miner (some pool_name) = pool_name

-- The loop over the nodes, up to the first that knows the miner
pub find_miner :
    {W : Type 0} → (Node W → W → Option String × W) → List (Node W) → String → W → String × W
find_miner ask [] miner w = (miner, w)
find_miner ask (node ∷ nodes) miner w =
    let (answer, w') = ask node w in
    let found = answer_or miner answer in
    elim (str_eq found miner_unknown) [ true ↦ find_miner ask nodes found w' | false ↦ (found, w') ]

module _ {B D G F : Type 0} ⦃bitcoin : Bitcoin⦄ ⦃petgraph : DiGraph HeaderInfo G⦄ ⦃float : Float F⦄
    ⦃encoding : Encoding DbError⦄ ⦃sqlite : Sqlite DbError D⦄ (dfs : G → ℕ → List ℕ)
    (network : Network (Server B D G F)) where
  open petgraph use {raw_nodes, set_weight}

  -- The one-shot task
  pub backfill_miners : Server B D G F → Option (Server B D G F)
  backfill_miners s = do
    heights ← tip_heights s.caches network.id
    let interesting_heights =
          sorted_interesting_heights s.tree network.visible_heights_from_tip
            network.extra_hotspot_heights network.first_tracked_height heights in
        let candidates =
          filter_by (λ node. is_near interesting_heights node.height)
            (filter_by has_no_miner (raw_nodes s.tree.graph)) in
        some (queue_miner_identification_requests (map (λ info. hash_of info) candidates) s)

  -- The answer of one node; an error counts as no answer.
  unfoldable pub ask_miner :
      HeaderInfo → Node (Server B D G F) → Server B D G F → Option String × Server B D G F
  ask_miner info node s =
      let (result, s') =
        node.required.get_miner_pool (hash_of info) info.height
          (as_bitcoin_network network.network_type) s in
      (elim result [ ok pool ↦ pool | err _ ↦ none ], s')

  -- What is done once the nodes were asked
  pub store_miner : ℕ → HeaderInfo → Server B D G F → Option (Server B D G F)
  store_miner idx header_info s = do
    _ ← weight s.tree idx
    let tree = record s.tree { graph = set_weight s.tree.graph idx header_info } in
        let (_, db) = update_miner s.db (hash_of header_info) header_info.miner in
        update_network_cache dfs network (header_miner header_info)
          (record s { tree = tree; db = db })

  -- The body of the loop over the buffer
  pub identify_miner : Server B D G F → BlockHash → Option (Server B D G F)
  identify_miner s hash = elim (get hash s.tree.index) [
    | none ↦ some s
    | some idx ↦ elim (weight s.tree idx) [
      | none ↦ none
      | some header_info ↦ elim (has_no_miner header_info) [
        | false ↦ some s
        | true ↦
            let (miner, s') = find_miner (ask_miner header_info) network.nodes miner_unknown s in
            store_miner idx (update_header_miner miner header_info) s'
      ]
    ]
  ]

  pub identify_miners : List BlockHash → Server B D G F → Option (Server B D G F)
  identify_miners [] s = some s
  identify_miners (hash ∷ buffer) s = do s' ← identify_miner s hash; identify_miners buffer s'

  abbrev pub limit : ℕ
  limit = 100

  -- One round of the task
  pub receive_and_identify : Server B D G F → Option (Server B D G F)
  receive_and_identify s =
      identify_miners (take limit s.miner_queue)
        (record s { miner_queue = drop limit s.miner_queue })
