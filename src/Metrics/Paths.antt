-- ===== src/Metrics/Paths.antt =====
-- The walks up the tree in src/metrics.rs: `path_to_root` ends, and what it returns.
use reorg_playground.Prelude.{
  ℕ, zero, suc, ◌<◌, ◌≡◌, refl, inl, inr, none, some, List, [], ◌∷◌, arith, Option-cases,
  List-cases,
}
use reorg_playground.External.Petgraph.{DiGraph}
use reorg_playground.Types.{HeaderInfo, TreeInfo}
use reorg_playground.HeaderTree.Edges.{Edge}
use reorg_playground.Metrics.{height_of, parent_index, walk_up, path_to_root, last}

module _ {G : Type 0} ⦃petgraph : DiGraph HeaderInfo G⦄ where
  open petgraph use {incoming}

  -- Along each edge the height rises, so there is no way round in a circle.
  abbrev pub HeightsRise : TreeInfo G → Type 0
  HeightsRise t = (p c : ℕ) → Edge t.graph p c → height_of t p < height_of t c

  pub parent_index-Edge : (t : TreeInfo G) (c p : ℕ) → parent_index t c ≡ some p → Edge t.graph p c
  unfolding parent_index
  parent_index-Edge t c p e = elim (List-cases (incoming t.graph c)) [
    | inl alone ↦ ground arith
    | inr (q, rest, ps) ↦ ground arith
  ]

  -- Each block of the list is the parent of the next one.
  abbrev pub IsChain : TreeInfo G → List ℕ → Type 0
  IsChain t [] = Unit
  IsChain t (x ∷ xs) = elim xs [ [] ↦ Unit | y ∷ _ ↦ (parent_index t y ≡ some x) × IsChain t xs ]

  -- The list leads from a block without a parent down to `tip`.
  pub record IsRootPath (t : TreeInfo G) (tip : ℕ) (path : List ℕ) : Type 0 where
    pub first : ℕ
    pub rest : List ℕ
    pub path_eq : path ≡ first ∷ rest
    pub is_root : parent_index t first ≡ none
    pub chain : IsChain t path
    pub ends : last path ≡ some tip

  walk_up-IsRootPath :
      (t : TreeInfo G) (fuel current tip : ℕ) (rest path : List ℕ)
      → IsChain t (current ∷ rest)
      → last (current ∷ rest) ≡ some tip
      → walk_up t fuel current (current ∷ rest) ≡ some path
      → IsRootPath t tip path
  unfolding walk_up last
  walk_up-IsRootPath t zero current tip rest path chain ends e = absurd (cc)
  walk_up-IsRootPath t (suc fuel) current tip rest path chain ends e =
      elim (Option-cases (parent_index t current)) [
        | inl root ↦
            let same : path ≡ current ∷ rest = ground arith in
            record {
              first = current;
              rest = rest;
              path_eq = same;
              is_root = root;
              chain = rw same chain;
              ends = rw same ends;
            }
        | inr (p, parent) ↦
            walk_up-IsRootPath t fuel p tip (current ∷ rest) path (parent, chain) ends
              (rw (parent, walk_up) at e)
      ]

  pub path_to_root-IsRootPath :
      (t : TreeInfo G) (tip : ℕ) (path : List ℕ)
      → path_to_root t tip ≡ some path
      → IsRootPath t tip path
  unfolding path_to_root last
  path_to_root-IsRootPath t tip path e =
      walk_up-IsRootPath t (suc (height_of t tip)) tip tip [] path tt refl e

  walk_up_total :
      (t : TreeInfo G) (fuel current : ℕ) (path : List ℕ)
      → HeightsRise t
      → height_of t current < fuel
      → (path' : List ℕ) × (walk_up t fuel current path ≡ some path')
  unfolding walk_up
  walk_up_total t zero current path rise h = absurd (omega arith)
  walk_up_total t (suc fuel) current path rise h = elim (Option-cases (parent_index t current)) [
    | inl root ↦ (path, rw (root, walk_up))
    | inr (p, parent) ↦
        let lower = rise p current (parent_index-Edge t current p parent) in
        let (path', e) = walk_up_total t fuel p (p ∷ path) rise (omega arith) in
        (path', rw (parent, walk_up) e)
  ]

  -- Where heights rise along the edges, `path_to_root` ends, and returns the chain of parents that
  -- leads from a block without a parent to the tip.
  pub path_to_root_lem :
      (t : TreeInfo G) (tip : ℕ)
      → HeightsRise t
      → (path : List ℕ) × (path_to_root t tip ≡ some path) × IsRootPath t tip path
  unfolding path_to_root
  path_to_root_lem t tip rise =
      let (path, e) = walk_up_total t (suc (height_of t tip)) tip (tip ∷ []) rise (omega arith) in
      (path, e, path_to_root-IsRootPath t tip path e)
