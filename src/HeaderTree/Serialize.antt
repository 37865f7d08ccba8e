-- ===== src/HeaderTree/Serialize.antt =====
-- `serialize_tree` of src/headertree.rs: the tree as the list of headers that the web client gets.
use reorg_playground.Prelude.{
  ℕ, zero, suc, ◌+◌, ◌-◌, ◌^◌, ◌≤◌, ◌<◌, ◌≡◌, refl, ap, inl, inr, some, List, [], ◌∷◌, get, length,
  arith, All, get_elem?, count, Bool-cases, is_empty, not_empty_count, sort_by_key,
  sort_by_key_sorted, IsSortedBy,
}
use reorg_playground.External.Bitcoin.{Bitcoin}
use reorg_playground.External.Petgraph.{DiGraph}
use reorg_playground.Types.{HeaderInfo, TreeInfo, HeaderInfoJson, header_info_json}
use reorg_playground.HeaderTree.{weight, node_count}
use reorg_playground.HeaderTree.Insert.{IsWellFormed}
use reorg_playground.HeaderTree.Roots.{HasParent}

-- `usize::MAX` on a 64-bit machine, which tells the client that there is no parent
abbrev pub usize_max : ℕ
usize_max = 2 ^ 64 - 1

-- The last of the parents, or no parent.
abbrev last_or : ℕ → List ℕ → ℕ
last_or p [] = p
last_or p (q ∷ ps) = last_or q ps

pub parent_id : List ℕ → ℕ
parent_id [] = usize_max
parent_id (p ∷ ps) = last_or p ps

count-last_or : (p : ℕ) (ps : List ℕ) → 0 < count (last_or p ps) (p ∷ ps)
count-last_or p [] = ground arith
count-last_or p (q ∷ ps) = ground (arith, count-last_or q ps)

count-parent_id : (ps : List ℕ) (a : ℕ) → 0 < count a ps → 0 < count (parent_id ps) ps
unfolding parent_id
count-parent_id [] a m = m
count-parent_id (p ∷ ps) a m = count-last_or p ps

module _ {G : Type 0} ⦃bitcoin : Bitcoin⦄ ⦃petgraph : DiGraph HeaderInfo G⦄ where
  open petgraph use {raw_nodes, incoming}

  -- The loop over the node indices `i`, `i + 1` and so on.
  pub headers_from : G → ℕ → List HeaderInfo → List HeaderInfoJson
  headers_from g i [] = []
  headers_from g i (n ∷ ns) =
      header_info_json n i (parent_id (incoming g i)) ∷ headers_from g (suc i) ns

  unfoldable pub serialize_tree : TreeInfo G → List HeaderInfoJson
  unfolding headers_from parent_id
  serialize_tree t = sort_by_key (λ h. h.id) (headers_from t.graph 0 (raw_nodes t.graph))

  headers_from_above :
      (g : G) (i j : ℕ) (ns : List HeaderInfo) → j ≤ i → All (λ h. j ≤ h.id) (headers_from g i ns)
  unfolding headers_from header_info_json
  headers_from_above g i j [] h = tt
  headers_from_above g i j (n ∷ ns) h = (h, headers_from_above g (suc i) j ns (omega arith))

  headers_from-IsSortedBy :
      (g : G) (i : ℕ) (ns : List HeaderInfo) → IsSortedBy (λ h. h.id) (headers_from g i ns)
  unfolding headers_from header_info_json
  headers_from-IsSortedBy g i [] = tt
  headers_from-IsSortedBy g i (n ∷ ns) =
      (headers_from_above g (suc i) i ns (omega arith), headers_from-IsSortedBy g (suc i) ns)

  serialize_tree_plain :
      (t : TreeInfo G) → serialize_tree t ≡ headers_from t.graph 0 (raw_nodes t.graph)
  unfolding serialize_tree
  serialize_tree_plain t = sort_by_key_sorted (λ h. h.id) _ (headers_from-IsSortedBy t.graph 0 _)

  length-headers_from :
      (g : G) (i : ℕ) (ns : List HeaderInfo) → length (headers_from g i ns) ≡ length ns
  unfolding headers_from
  length-headers_from g i [] = refl
  length-headers_from g i (n ∷ ns) = ap suc (length-headers_from g (suc i) ns)

  get_elem?-headers_from :
      (g : G) (i j : ℕ) (ns : List HeaderInfo) {n : HeaderInfo}
      → get_elem? ns j ≡ some n
      → get_elem? (headers_from g i ns) j
        ≡ some (header_info_json n (i + j) (parent_id (incoming g (i + j))))
  unfolding headers_from
  get_elem?-headers_from g i j [] e = absurd (cc)
  get_elem?-headers_from g i zero (m ∷ ns) e = let z : i + 0 ≡ i = omega arith in rw z (cc)
  get_elem?-headers_from g i (suc j) (m ∷ ns) e =
      let z : i + suc j ≡ suc i + j = omega arith in rw z (get_elem?-headers_from g (suc i) j ns e)

  parent_id_of_link :
      (t : TreeInfo G) (c : ℕ) (n : HeaderInfo) (p : ℕ)
      → IsWellFormed t
      → weight t c ≡ some n
      → get n.header.prev_blockhash t.index ≡ some p
      → parent_id (incoming t.graph c) ≡ p
  parent_id_of_link t c n p wf at to =
      let edge = wf.links_edge p c (n, at, to) in
      let (m, at', to') =
        wf.edges_link (parent_id (incoming t.graph c)) c
          (count-parent_id (incoming t.graph c) p edge) in
      let same : m ≡ n = cc in cc

  parent_id_of_root :
      (t : TreeInfo G) (c : ℕ) (n : HeaderInfo)
      → IsWellFormed t
      → weight t c ≡ some n
      → ¬ HasParent t n
      → parent_id (incoming t.graph c) ≡ usize_max
  unfolding parent_id
  parent_id_of_root t c n wf at orphan = elim (Bool-cases (is_empty (incoming t.graph c))) [
    | inl alone ↦ ground arith
    | inr linked ↦
        let (p, edge) = not_empty_count (incoming t.graph c) linked in
        let (m, at', to) = wf.edges_link p c edge in
        let same : m ≡ n = cc in absurd (orphan (p, rw (← same) to))
  ]

  -- The headers are those of the nodes in their order; each has its node's index as its id, and the
  -- index of its predecessor as `prev_id`, or `usize::MAX` where the tree does not have the predecessor.
  pub serialize_tree_lem :
      (t : TreeInfo G)
      → IsWellFormed t
      → (length (serialize_tree t) ≡ node_count t)
        × ((c : ℕ) (n : HeaderInfo)
            → weight t c ≡ some n
            → (prev_id : ℕ) × (get_elem? (serialize_tree t) c ≡ some (header_info_json n c prev_id))
              × ((p : ℕ) → get n.header.prev_blockhash t.index ≡ some p → prev_id ≡ p)
              × (¬ HasParent t n → prev_id ≡ usize_max))
  serialize_tree_lem t wf = rw (serialize_tree_plain t) (
    length-headers_from t.graph 0 (raw_nodes t.graph),
    λ c n at.
        let z : 0 + c ≡ c = omega arith in
        (
          parent_id (incoming t.graph c),
          rw z at (get_elem?-headers_from t.graph 0 c (raw_nodes t.graph) at),
          λ p to. parent_id_of_link t c n p wf at to,
          λ orphan. parent_id_of_root t c n wf at orphan,
        ),
  )
