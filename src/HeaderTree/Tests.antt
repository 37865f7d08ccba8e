-- ===== src/HeaderTree/Tests.antt =====
-- Runs of src/headertree.rs on a chain of three blocks with a fork, and the theorems at such inputs.
use reorg_playground.HeaderTree.Forks.{
  recent_forks, forks_below, forks_among, IsForkOf, IsNewestFirst,
}
use reorg_playground.HeaderTree.Forks.Found.{HasFork, IsSearch, recent_forks_lem}
use reorg_playground.HeaderTree.Heights.{IsHeight, sorted_interesting_heights_lem}
use reorg_playground.HeaderTree.Hotspots.{
  sorted_interesting_heights, count_heights, window_start, window_heights, hotspot_heights,
}
use reorg_playground.Prelude.{
  IsAscending, ◌≢◌, ◌++◌, sym, subst, count, List, ◌+◌, ◌≤◌, ℕ, zero, suc, ◌<◌, ◌≡◌, ◌↔◌, refl,
  some, [], ◌∷◌, Bool, true, false, arith, All, length, ◌⊎◌, Any, inl, inr, get, IsSortedBy,
  get_elem?,
}
use reorg_playground.External.ListGraph.{ListGraph, list_graph}
use reorg_playground.External.SampleHashes.{sample_hashes}
use reorg_playground.Types.{HeaderInfo, TreeInfo}
use reorg_playground.HeaderTree.{
  hash_of, insert_headers, node_count, weight, add_headers, add_header, link_headers, link_header,
  link_parent, link_children, link_all, children_from,
}
use reorg_playground.HeaderTree.Insert.{IsWellFormed, insert_headers-IsWellFormed}
use reorg_playground.HeaderTree.Result.{
  insert_headers_changed, insert_headers_keeps, insert_headers_twice,
}
use reorg_playground.HeaderTree.Roots.{
  weights, unexpected_root_count, unexpected_root_count-zero, unexpected_roots,
  unexpected_roots_lem, insert_headers_repairs, HasParent, ParentIn, is_above,
}
use reorg_playground.HeaderTree.Growth.{IsListed}
use reorg_playground.HeaderTree.Serialize.{serialize_tree, serialize_tree_lem, usize_max}
use reorg_playground.Types.{header_info_json}
use reorg_playground.HeaderTree.Samples.{
  b100, b101, b102, empty_tree, empty_tree-IsWellFormed, fork101, full_tree, full_tree-IsWellFormed,
  full_tree-HeightsRise, gap_tree, gap_tree-IsWellFormed, insert_rest,
}

insert_again : insert_headers full_tree (b101 ∷ fork101 ∷ []) ≡ some (full_tree, false)
unfolding insert_headers add_headers add_header children_from link_headers link_header link_parent
    link_children link_all
insert_again = refl

insert_headers-IsWellFormed_example :
    (t' : TreeInfo (ListGraph HeaderInfo)) × (changed : Bool) × (insert_headers empty_tree
        (b100 ∷ b102 ∷ [])
      ≡ some (t', changed))
    × IsWellFormed t'
insert_headers-IsWellFormed_example =
    insert_headers-IsWellFormed empty_tree (b100 ∷ b102 ∷ []) empty_tree-IsWellFormed (omega arith)

insert_headers_changed_example : (true ≡ true) ↔ (2 < 4)
insert_headers_changed_example =
    insert_headers_changed gap_tree full_tree true (b101 ∷ fork101 ∷ [])
      gap_tree-IsWellFormed.indexed insert_rest

insert_headers_keeps_example :
    ((i : ℕ) (n : HeaderInfo) → weight gap_tree i ≡ some n → weight full_tree i ≡ some n)
    × ((i : ℕ) (n : HeaderInfo)
        → weight full_tree i ≡ some n
        → (weight gap_tree i ≡ some n) ⊎ Any (λ h. n ≡ h) (b101 ∷ fork101 ∷ []))
    × ((k i : ℕ) → get k gap_tree.index ≡ some i → get k full_tree.index ≡ some i)
    × All (IsListed full_tree.index) (b101 ∷ fork101 ∷ [])
insert_headers_keeps_example =
    insert_headers_keeps gap_tree full_tree true (b101 ∷ fork101 ∷ []) gap_tree-IsWellFormed.indexed
      insert_rest

insert_headers_twice_example :
    (t' t'' : TreeInfo (ListGraph HeaderInfo)) × (changed : Bool) × (insert_headers gap_tree
        (b101 ∷ fork101 ∷ [])
      ≡ some (t', changed))
    × (insert_headers t' (b101 ∷ fork101 ∷ []) ≡ some (t'', false))
    × (list_graph.raw_nodes t''.graph ≡ list_graph.raw_nodes t'.graph)
    × (t''.index ≡ t'.index)
    × ((p c : ℕ)
        → count p (list_graph.incoming t''.graph c) ≡ count p (list_graph.incoming t'.graph c))
insert_headers_twice_example =
    insert_headers_twice gap_tree (b101 ∷ fork101 ∷ []) gap_tree-IsWellFormed (omega arith)

gap_roots : unexpected_root_count gap_tree 100 ≡ 1
unfolding unexpected_root_count is_above
gap_roots = refl

unexpected_root_count-zero_example : (unexpected_root_count gap_tree 100 ≡ 0) ↔ (
    (c : ℕ) (n : HeaderInfo) → weight gap_tree c ≡ some n → 100 < n.height → HasParent gap_tree n)
unexpected_root_count-zero_example = unexpected_root_count-zero gap_tree 100 gap_tree-IsWellFormed

unexpected_roots_lem_example :
    let roots = unexpected_roots gap_tree 100 in
    (length roots ≡ unexpected_root_count gap_tree 100)
    × IsSortedBy (λ n. n.height) roots
    × All (λ n. (100 < n.height) × (¬ HasParent gap_tree n)) roots
unexpected_roots_lem_example = unexpected_roots_lem gap_tree 100 gap_tree-IsWellFormed

gap_parents :
    (c : ℕ) (n : HeaderInfo)
    → weight gap_tree c ≡ some n
    → 100 < n.height
    → ParentIn gap_tree (b101 ∷ fork101 ∷ []) n
gap_parents zero n at above = absurd (ground arith)
gap_parents (suc zero) n at above = inr (inl (ground arith))
gap_parents (suc (suc c)) n at above = absurd (cc)

insert_headers_repairs_example : unexpected_root_count full_tree 100 ≡ 0
insert_headers_repairs_example =
    insert_headers_repairs gap_tree full_tree true (b101 ∷ fork101 ∷ []) 100 gap_tree-IsWellFormed
      (omega arith) gap_parents ((λ _. inl (0, refl)), ((λ _. inl (0, refl)), tt)) insert_rest

serialize_tree_lem_example :
    (length (serialize_tree full_tree) ≡ node_count full_tree)
    × ((c : ℕ) (n : HeaderInfo)
        → weight full_tree c ≡ some n
        → (prev_id : ℕ) × (get_elem? (serialize_tree full_tree) c
            ≡ some (header_info_json n c prev_id))
          × ((p : ℕ) → get n.header.prev_blockhash full_tree.index ≡ some p → prev_id ≡ p)
          × (¬ HasParent full_tree n → prev_id ≡ usize_max))
serialize_tree_lem_example = serialize_tree_lem full_tree full_tree-IsWellFormed

heights_run : sorted_interesting_heights full_tree 1 1 0 (100 ∷ []) ≡ 102 ∷ []
unfolding sorted_interesting_heights count_heights window_start window_heights hotspot_heights
heights_run = refl

sorted_interesting_heights_lem_example :
    let heights = sorted_interesting_heights full_tree 2 1 0 (100 ∷ []) in
    IsAscending heights
    × (length heights ≤ 2 + 1)
    × ((h : ℕ) → 0 < count h heights → IsHeight h (list_graph.raw_nodes full_tree.graph) × (0 ≤ h))
    × ((h : ℕ)
        → IsHeight h (list_graph.raw_nodes full_tree.graph)
        → 0 ≤ h
        → ((g : ℕ) → IsHeight g (list_graph.raw_nodes full_tree.graph) → g < h + 2)
        → 0 < count h heights)
sorted_interesting_heights_lem_example = sorted_interesting_heights_lem full_tree 2 1 0 (100 ∷ [])

-- The search, with its depth
abbrev visit_from : ℕ → ListGraph HeaderInfo → List ℕ → List ℕ
visit_from zero g nodes = []
visit_from (suc depth) g [] = []
visit_from (suc depth) g (node ∷ nodes) =
    node ∷ visit_from depth g (list_graph.outgoing g node ++ nodes)

abbrev visit : ListGraph HeaderInfo → ℕ → List ℕ
visit g root = visit_from (length g) g (root ∷ [])

forks_run :
    recent_forks visit full_tree 5 ≡ record { common = b100; children = b101 ∷ fork101 ∷ [] } ∷ []
unfolding recent_forks forks_below forks_among weights
forks_run = refl

visit_follows :
    (p c : ℕ)
    → 0 < count p (visit full_tree.graph 0)
    → 0 < count c (list_graph.outgoing full_tree.graph p)
    → 0 < count c (visit full_tree.graph 0)
visit_follows zero c seen edge = ground arith
visit_follows (suc zero) c seen edge = absurd (ground arith)
visit_follows (suc (suc zero)) c seen edge = ground arith
visit_follows (suc (suc (suc zero))) c seen edge = absurd (ground arith)
visit_follows (suc (suc (suc (suc p)))) c seen edge = absurd (ground arith)

visit-IsSearch : IsSearch visit full_tree
visit-IsSearch = record {
  starts = λ root outer. let same : root ≡ 0 = ground arith in rw same (omega arith);
  follows = λ root p c outer seen edge.
      let same : root ≡ 0 = ground arith in
      subst (λ r. 0 < count c (visit full_tree.graph r)) (sym same)
        (visit_follows p c (subst (λ r. 0 < count p (visit full_tree.graph r)) same seen) edge);
}

recent_forks_lem_example :
    let forks = recent_forks visit full_tree 5 in
    (length forks ≤ 5)
    × IsNewestFirst forks
    × All (IsForkOf full_tree) forks
    × ((i c d : ℕ) (common n m : HeaderInfo)
        → c ≢ d
        → weight full_tree i ≡ some common
        → weight full_tree c ≡ some n
        → weight full_tree d ≡ some m
        → n.header.prev_blockhash ≡ hash_of common
        → m.header.prev_blockhash ≡ hash_of common
        → Any (HasFork common n m) forks
          ⊎ ((length forks ≡ 5) × All (λ fork. common.height ≤ fork.common.height) forks))
recent_forks_lem_example =
    recent_forks_lem visit full_tree 5 full_tree-IsWellFormed full_tree-HeightsRise visit-IsSearch
