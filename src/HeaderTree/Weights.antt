-- ===== src/HeaderTree/Weights.antt =====
-- A tree in which the miner of one block is replaced, as src/main.rs does by `graph[idx] = ...`.
use Prim.Native.String.{String}
use reorg_playground.Prelude.{
  ℕ, zero, suc, ◌≡◌, refl, sym, ap, ◌∙◌, some, some_eq, List, [], ◌∷◌, get, get_elem?, set_elem,
  All, subst,
}
use reorg_playground.External.Bitcoin.{Bitcoin}
use reorg_playground.External.Petgraph.{DiGraph}
use reorg_playground.Types.{HeaderInfo, TreeInfo}
use reorg_playground.HeaderTree.{weight}
use reorg_playground.HeaderTree.Growth.{LinkIn}
use reorg_playground.HeaderTree.Insert.{IsWellFormed}

-- The same block at the same height
abbrev pub IsSameBlock : HeaderInfo → HeaderInfo → Type 0
IsSameBlock a b = (a.header ≡ b.header) × (a.height ≡ b.height)

-- The elements of the list with `y` for one `x`, beside those of the list.
get_elem?-set_elem :
    (xs : List HeaderInfo) (i j : ℕ) (x y z : HeaderInfo)
    → IsSameBlock x y
    → get_elem? xs i ≡ some x
    → get_elem? xs j ≡ some z
    → (z' : HeaderInfo) × (get_elem? (set_elem xs i y) j ≡ some z') × IsSameBlock z z'
get_elem?-set_elem [] i j x y z same at_i at_j = absurd (cc)
get_elem?-set_elem (w ∷ xs) zero zero x y z (header, height) at_i at_j =
    let e : x ≡ z = some_eq (sym at_i ∙ at_j) in (y, refl, rw (← e) (header, height))
get_elem?-set_elem (w ∷ xs) zero (suc j) x y z same at_i at_j = (z, at_j, (refl, refl))
get_elem?-set_elem (w ∷ xs) (suc i) zero x y z same at_i at_j = (z, at_j, (refl, refl))
get_elem?-set_elem (w ∷ xs) (suc i) (suc j) x y z same at_i at_j =
    get_elem?-set_elem xs i j x y z same at_i at_j

get_elem?_of_set_elem :
    (xs : List HeaderInfo) (i j : ℕ) (x y z' : HeaderInfo)
    → IsSameBlock x y
    → get_elem? xs i ≡ some x
    → get_elem? (set_elem xs i y) j ≡ some z'
    → (z : HeaderInfo) × (get_elem? xs j ≡ some z) × IsSameBlock z z'
get_elem?_of_set_elem [] i j x y z' same at_i at_j = absurd (cc)
get_elem?_of_set_elem (w ∷ xs) zero zero x y z' same at_i at_j =
    let e : y ≡ z' = some_eq at_j in (x, at_i, rw (← e) same)
get_elem?_of_set_elem (w ∷ xs) zero (suc j) x y z' same at_i at_j = (z', at_j, (refl, refl))
get_elem?_of_set_elem (w ∷ xs) (suc i) zero x y z' same at_i at_j = (z', at_j, (refl, refl))
get_elem?_of_set_elem (w ∷ xs) (suc i) (suc j) x y z' same at_i at_j =
    get_elem?_of_set_elem xs i j x y z' same at_i at_j

get_elem?-set_elem_self :
    (xs : List HeaderInfo) (i : ℕ) (x y : HeaderInfo)
    → get_elem? xs i ≡ some x
    → get_elem? (set_elem xs i y) i ≡ some y
get_elem?-set_elem_self [] i x y at = absurd (cc)
get_elem?-set_elem_self (w ∷ xs) zero x y at = refl
get_elem?-set_elem_self (w ∷ xs) (suc i) x y at = get_elem?-set_elem_self xs i x y at

pub All-set_elem :
    (P : HeaderInfo → Type 0) (xs : List HeaderInfo) (i : ℕ) (y : HeaderInfo)
    → P y
    → All P xs
    → All P (set_elem xs i y)
All-set_elem P [] i y h all = tt
All-set_elem P (x ∷ xs) zero y h all = (h, all.1)
All-set_elem P (x ∷ xs) (suc i) y h all = (all.0, All-set_elem P xs i y h all.1)

module _ {G : Type 0} ⦃bitcoin : Bitcoin⦄ ⦃petgraph : DiGraph HeaderInfo G⦄ where
  open petgraph use {raw_nodes, incoming, set_weight}

  -- `graph[idx]` with another miner
  abbrev pub with_miner : TreeInfo G → ℕ → HeaderInfo → String → TreeInfo G
  with_miner t idx info miner = record t {
    graph = set_weight t.graph idx (record info { miner = miner });
  }

  module _ (t : TreeInfo G) (idx : ℕ) (info : HeaderInfo) (miner : String)
      (there : weight t idx ≡ some info) where
    abbrev changed : TreeInfo G
    changed = with_miner t idx info miner

    abbrev nodes_eq :
        raw_nodes changed.graph ≡ set_elem (raw_nodes t.graph) idx (record info { miner = miner })
    nodes_eq = petgraph.raw_nodes-set_weight t.graph idx (record info { miner = miner })

    pub weight-with_miner_self : weight changed idx ≡ some (record info { miner = miner })
    weight-with_miner_self =
        rw nodes_eq (
          get_elem?-set_elem_self (raw_nodes t.graph) idx info (record info { miner = miner })
            there)

    pub weight-with_miner :
        (i : ℕ) (n : HeaderInfo)
        → weight t i ≡ some n
        → (n' : HeaderInfo) × (weight changed i ≡ some n') × IsSameBlock n n'
    weight-with_miner i n at =
        let (n', at', same) =
          get_elem?-set_elem (raw_nodes t.graph) idx i info (record info { miner = miner }) n
            (refl, refl) there at in
        (n', rw nodes_eq at', same)

    weight_of_with_miner :
        (i : ℕ) (n' : HeaderInfo)
        → weight changed i ≡ some n'
        → (n : HeaderInfo) × (weight t i ≡ some n) × IsSameBlock n n'
    weight_of_with_miner i n' at =
        get_elem?_of_set_elem (raw_nodes t.graph) idx i info (record info { miner = miner }) n'
          (refl, refl) there (rw nodes_eq at at)

    LinkIn-with_miner : (p c : ℕ) → LinkIn t p c → LinkIn changed p c
    LinkIn-with_miner p c (h, at, to) =
        let (h', at', (header, _)) = weight-with_miner c h at in (h', at', rw header at to)

    LinkIn-before : (p c : ℕ) → LinkIn changed p c → LinkIn t p c
    LinkIn-before p c (h', at, to) =
        let (h, at', (header, _)) = weight_of_with_miner c h' at in (h, at', rw header to)

    pub with_miner-IsWellFormed : IsWellFormed t → IsWellFormed changed
    with_miner-IsWellFormed wf = record {
      indexed = record {
        nodes_indexed = λ i h' at.
            let (h, at', (header, _)) = weight_of_with_miner i h' at in
            subst (λ x. get (bitcoin.block_hash x) t.index ≡ some i) header
              (wf.indexed.nodes_indexed i h at');
        index_sound = λ k i e.
            let (h, at, same) = wf.indexed.index_sound k i e in
            let (h', at', (header, _)) = weight-with_miner i h at in
            (h', at', ap (λ x. bitcoin.block_hash x) (sym header) ∙ same);
      };
      edges_link =
          λ p c e. LinkIn-with_miner p c (wf.edges_link p c (rw petgraph.incoming-set_weight at e));
      links_edge =
          λ p c l. rw petgraph.incoming-set_weight (wf.links_edge p c (LinkIn-before p c l));
      simple = λ p c. rw petgraph.incoming-set_weight (wf.simple p c);
    }
