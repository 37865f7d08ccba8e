-- ===== src/HeaderTree.antt =====
-- src/headertree.rs: the tree of block headers, and its growth by `insert_headers`. The lock around
-- the tree is not modelled: every function here holds it from its first line to its last.
pub mod Index
pub mod Children
pub mod Edges
pub mod Growth
pub mod Insert
pub mod Result
pub mod Roots
pub mod Serialize
pub mod Heights
pub mod Hotspots
pub mod Forks
pub mod Weights
pub mod Samples
mod Tests
use reorg_playground.Prelude.{
  ℕ, suc, Bool, true, false, Option, none, some, List, [], ◌∷◌, foldl, Map, get, contains_key,
  insert, push_entry, length, get_elem?, if◌then◌else◌,
}
use reorg_playground.External.Bitcoin.{BlockHash, Bitcoin}
use reorg_playground.External.Petgraph.{DiGraph}
use reorg_playground.Types.{HeaderInfo, TreeInfo}

abbrev pub hash_of : ⦃bitcoin : Bitcoin⦄ → HeaderInfo → BlockHash
hash_of ⦃bitcoin⦄ h = bitcoin.block_hash h.header

-- `children_by_prev`: the fold over the node indices, which are `i`, `i + 1` and so on.
pub children_from : ℕ → List HeaderInfo → Map (List ℕ) → Map (List ℕ)
children_from i [] acc = acc
children_from i (h ∷ hs) acc = children_from (suc i) hs (push_entry h.header.prev_blockhash i acc)

module _ {G : Type 0} ⦃petgraph : DiGraph HeaderInfo G⦄ where
  open petgraph use {raw_nodes, add_node, update_edge}

  -- `graph.node_count()`
  abbrev pub node_count : TreeInfo G → ℕ
  node_count t = length (raw_nodes t.graph)

  -- `graph[idx]`, where `none` is the panic of an index out of range
  abbrev pub weight : TreeInfo G → ℕ → Option HeaderInfo
  weight t i = get_elem? (raw_nodes t.graph) i

  -- The edge from the parent, if the tree has it.
  pub link_parent : G → Option ℕ → ℕ → G
  link_parent g none idx_new = g
  link_parent g (some idx_prev) idx_new = update_edge g idx_prev idx_new

  pub link_all : G → ℕ → List ℕ → G
  link_all g idx_new [] = g
  link_all g idx_new (c ∷ cs) = link_all (update_edge g idx_new c) idx_new cs

  -- The edges to the children, if any waited for this header.
  pub link_children : G → ℕ → Option (List ℕ) → G
  link_children g idx_new none = g
  link_children g idx_new (some children) = link_all g idx_new children

module _ {G : Type 0} ⦃bitcoin : Bitcoin⦄ ⦃petgraph : DiGraph HeaderInfo G⦄ where
  open petgraph use {raw_nodes, add_node, update_edge}

  -- The body of the first loop of `insert_headers`; the flag is `tree_changed`.
  pub add_header : TreeInfo G × Bool → HeaderInfo → TreeInfo G × Bool
  add_header (t, changed) h = if contains_key (hash_of h) t.index then (t, changed) else (
    record {
      graph = add_node t.graph h;
      index = insert (hash_of h) (length (raw_nodes t.graph)) t.index;
    },
    true,
  )

  unfoldable pub add_headers : TreeInfo G × Bool → List HeaderInfo → TreeInfo G × Bool
  add_headers s [] = s
  add_headers s (h ∷ hs) = add_headers (add_header s h) hs

  -- The body of the second loop; `none` is the panic of its `expect`.
  pub link_header : Map ℕ → Map (List ℕ) → G → HeaderInfo → Option G
  link_header index children_by_prev g new = elim (get (hash_of new) index) [
    | none ↦ none
    | some idx_new ↦
        let linked = link_parent g (get new.header.prev_blockhash index) idx_new in
        some (link_children linked idx_new (get (hash_of new) children_by_prev))
  ]

  pub link_headers : Map ℕ → Map (List ℕ) → G → List HeaderInfo → Option G
  link_headers index children_by_prev g [] = some g
  link_headers index children_by_prev g (h ∷ hs) = elim (link_header index children_by_prev g h) [
    | none ↦ none
    | some g' ↦ link_headers index children_by_prev g' hs
  ]

  -- `insert_headers`, with the tree after the call.
  pub insert_headers : TreeInfo G → List HeaderInfo → Option (TreeInfo G × Bool)
  insert_headers t new_headers =
      let (added, tree_changed) = add_headers (t, false) new_headers in
      let children_by_prev = children_from 0 (raw_nodes added.graph) [] in
      elim (link_headers added.index children_by_prev added.graph new_headers) [
        | none ↦ none
        | some g ↦ some (record added { graph = g }, tree_changed)
      ]
