-- ===== src/Rss/Tests.antt =====
-- Runs of the feeds of src/rss.rs on two unreachable nodes, at the heights 100 and 104, and on a fork.
use reorg_playground.Prelude.{ℕ, ◌≡◌, refl, false, [], ◌∷◌, All, Any, Map, values, arith}
use reorg_playground.Types.Tips.{NodeDataJson}
use reorg_playground.Rss.{
  lagging_nodes, lagging_among, lagging_node_item, unreachable_node_item, unreachable_node_items,
  fork_item,
}
use reorg_playground.External.SampleHashes.{sample_hashes}
use reorg_playground.HeaderTree.Samples.{b100, b101, fork101}
use reorg_playground.Rss.Lagging.{IsLagging, Reports, lagging_nodes_lem}

abbrev node_at : ℕ → NodeDataJson
node_at height = record {
  id = height;
  name = "node";
  description = "";
  implementation = "";
  supports_controls = false;
  supports_mining = false;
  supports_stale_tips = false;
  tips = record { hash = ""; status = "active"; height = height } ∷ [];
  last_changed_timestamp = 0;
  version = "";
  reachable = false;
}

abbrev two_nodes : Map NodeDataJson
two_nodes = (0, node_at 100) ∷ (1, node_at 104) ∷ []

lagging_run : lagging_nodes two_nodes ≡ lagging_node_item (node_at 100) 100 ∷ []
unfolding lagging_nodes lagging_among
lagging_run = refl

lagging_nodes_lem_example :
    let nodes = values two_nodes in
    let items = lagging_nodes two_nodes in
    All (λ item. Any (λ node. Reports node item × IsLagging nodes node) nodes) items
    × All (λ node. IsLagging nodes node → Any (Reports node) items) nodes
lagging_nodes_lem_example = lagging_nodes_lem two_nodes (omega arith, (omega arith, tt))

unreachable_run :
    unreachable_node_items two_nodes
    ≡ unreachable_node_item (node_at 100) ∷ unreachable_node_item (node_at 104) ∷ []
unfolding unreachable_node_items
unreachable_run = refl

fork_run : fork_item (record { common = b100; children = b101 ∷ fork101 ∷ [] }) ≡ record {
  title = "Fork at height 100";
  description = "There are 2 blocks building on-top of block x.";
  guid = "x";
}
fork_run = refl
