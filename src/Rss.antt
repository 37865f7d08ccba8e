-- ===== src/Rss.antt =====
-- The items of the feeds of src/rss.rs on forks, lagging nodes and unreachable nodes.
pub mod Lagging
mod Tests
use Prim.Native.String.{String, ◌++◌}
use text.Mathlib.Text.{◌==◌ as str_eq}
use reorg_playground.Prelude.{
  ℕ, ◌+◌, ◌%◌, ◌^◌, max, leb, ltb, Bool, true, false, not, List, [], ◌∷◌, map, length, filter_by,
  Map, values, show_number, if◌then◌else◌,
}
use reorg_playground.External.Bitcoin.{Bitcoin}
use reorg_playground.Types.{Fork}
use reorg_playground.Types.Tips.{NodeDataJson, TipInfoJson}

pub record Item : Type 0 where
  pub title : String
  pub description : String
  pub guid : String

-- `THREASHOLD_NODE_LAGGING`
abbrev pub threshold_node_lagging : ℕ
threshold_node_lagging = 3

-- `Item::lagging_node_item`
abbrev pub lagging_node_item : NodeDataJson → ℕ → Item
lagging_node_item node height = record {
  title = "Node '" ++ node.name ++ "' is lagging behind";
  description =
      "The node's active tip is on height "
      ++ show_number height
      ++ ", while other nodes consider a block with a height at least "
      ++ show_number threshold_node_lagging
      ++ " blocks higher their active tip. The node might still be synchronizing with the network or stuck.";
  guid = "lagging-node-" ++ node.name ++ "-on-" ++ show_number height;
}

-- `Item::unreachable_node_item`
abbrev pub unreachable_node_item : NodeDataJson → Item
unreachable_node_item node = record {
  title = "Node '" ++ node.name ++ "' (id=" ++ show_number node.id ++ ") is unreachable";
  description =
      "The RPC server of this node is not reachable. The node might be offline or there might be other networking issues. The nodes tip data was last updated at timestamp "
      ++ show_number node.last_changed_timestamp
      ++ " (zero indicates never).";
  guid =
      "unreachable-node-"
      ++ show_number node.id
      ++ "-last-"
      ++ show_number node.last_changed_timestamp;
}

-- The height of the last tip with the status "active"
abbrev last_active_height : ℕ → List TipInfoJson → ℕ
last_active_height found [] = found
last_active_height found (tip ∷ tips) =
    last_active_height (if str_eq tip.status "active" then tip.height else found) tips

-- `nodes_with_active_height`, of one node
abbrev pub active_height : NodeDataJson → ℕ
active_height node = last_active_height 0 node.tips

-- `max_height`
abbrev pub max_active_height : List NodeDataJson → ℕ
max_active_height [] = 0
max_active_height (node ∷ nodes) = max (active_height node) (max_active_height nodes)

-- The loop over the nodes in `lagging_nodes_response`
unfoldable pub lagging_among : ℕ → List NodeDataJson → List Item
lagging_among max_height [] = []
lagging_among max_height (node ∷ nodes) =
    let height = active_height node in
    let rest = lagging_among max_height nodes in
    if ltb ((height + threshold_node_lagging) % 2 ^ 64) max_height
    then lagging_node_item node height ∷ rest
    else rest

-- `lagging_nodes` in `lagging_nodes_response`
unfoldable pub lagging_nodes : Map NodeDataJson → List Item
lagging_nodes node_data =
    if ltb 1 (length node_data)
    then lagging_among (max_active_height (values node_data)) (values node_data)
    else []

-- `unreachable_node_items` in `unreachable_nodes_response`
unfoldable pub unreachable_node_items : Map NodeDataJson → List Item
unreachable_node_items node_data =
    map unreachable_node_item (filter_by (λ node. not node.reachable) (values node_data))

module _ ⦃bitcoin : Bitcoin⦄ where
  -- `From<Fork> for Item`
  abbrev pub fork_item : Fork → Item
  fork_item fork =
      let hash = bitcoin.to_string (bitcoin.block_hash fork.common.header) in
      let kind = if leb (length fork.children) 2 then "Fork" else "Multi-fork" in
      record {
        title = kind ++ " at height " ++ show_number fork.common.height;
        description =
            "There are "
            ++ show_number (length fork.children)
            ++ " blocks building on-top of block "
            ++ hash
            ++ ".";
        guid = hash;
      }
