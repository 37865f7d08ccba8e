-- ===== src/External/Petgraph.antt =====
-- petgraph's directed graph, as far as the program uses it: an interface of operations, with their
-- documented behaviour as laws. Nodes are numbered from 0 in the order in which they were added.
-- Nothing is said of the order in which neighbours are listed.
use reorg_playground.Prelude.{
  ℕ, ◌≤◌, ◌<◌, max, ◌≡◌, ◌&&◌, List, [], ◌∷◌, ◌++◌, length, count, is_empty, ltb, ◌==◌, set_elem,
  if◌then◌else◌,
}

pub record DiGraph (W G : Type 0) : Type 0 where
  -- `DiGraph::new()`
  pub empty : G
  -- `raw_nodes()`, the weights in the order of the indices
  pub raw_nodes : G → List W
  -- `add_node(w)` with the index that it returns
  pub add_node : G → W → G
  -- `update_edge(a, b, _)`
  pub update_edge : G → ℕ → ℕ → G
  -- `neighbors_directed(i, Incoming)` and `neighbors_directed(i, Outgoing)`
  pub incoming : G → ℕ → List ℕ
  pub outgoing : G → ℕ → List ℕ
  -- `externals(Incoming)`
  pub externals : G → List ℕ
  -- `graph[i] = w`, for a node that is there
  pub set_weight : G → ℕ → W → G
  pub raw_nodes-empty : raw_nodes empty ≡ []
  pub raw_nodes-add_node : (g : G) (w : W) → raw_nodes (add_node g w) ≡ raw_nodes g ++ w ∷ []
  pub raw_nodes-update_edge :
      (g : G) (a b : ℕ)
      → a < length (raw_nodes g)
      → b < length (raw_nodes g)
      → raw_nodes (update_edge g a b) ≡ raw_nodes g
  pub raw_nodes-set_weight :
      (g : G) (i : ℕ) (w : W) → raw_nodes (set_weight g i w) ≡ set_elem (raw_nodes g) i w
  pub incoming-set_weight :
      (g : G) (i : ℕ) (w : W) (c : ℕ) → incoming (set_weight g i w) c ≡ incoming g c
  -- A node that is not there has no neighbours.
  pub incoming_fresh : (g : G) (c : ℕ) → length (raw_nodes g) ≤ c → incoming g c ≡ []
  pub incoming-add_node : (g : G) (w : W) (c : ℕ) → incoming (add_node g w) c ≡ incoming g c
  -- An edge is added where there is none; where there is one, it stays the only one.
  pub incoming-update_edge :
      (g : G) (a b p c : ℕ)
      → a < length (raw_nodes g)
      → b < length (raw_nodes g)
      → count p (incoming (update_edge g a b) c)
        ≡ (if (p == a) && (c == b) then max 1 (count p (incoming g c)) else count p (incoming g c))
  pub outgoing-incoming : (g : G) (p c : ℕ) → count c (outgoing g p) ≡ count p (incoming g c)
  -- The nodes without an incoming edge, each once.
  pub count-externals :
      (g : G) (i : ℕ)
      → count i (externals g)
        ≡ (if ltb i (length (raw_nodes g)) && is_empty (incoming g i) then 1 else 0)
