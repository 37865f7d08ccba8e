-- ===== src/HeaderTree/Result.antt =====
-- What a call of `insert_headers` (src/headertree.rs) returns, and what it leaves as it was.
use reorg_playground.Prelude.{
  zero, suc, count, All-append, All-append_left, All-append_right, All-elems, All-get_elem?,
  Any_elim, ℕ, ◌≤◌, ◌<◌, ◌≡◌, ◌↔◌, refl, sym, some_pair, ◌∙◌, ◌⊎◌, inl, inr, some, List, [], ◌∷◌,
  get, length, arith, All, Any, Bool, true, false, Option-cases, length-append, ap,
}
use reorg_playground.External.Bitcoin.{Bitcoin}
use reorg_playground.External.Petgraph.{DiGraph}
use reorg_playground.Types.{HeaderInfo, TreeInfo}
use reorg_playground.HeaderTree.{
  hash_of, weight, node_count, add_header, add_headers, insert_headers, children_from,
}
use reorg_playground.HeaderTree.Edges.{AddsEdges-link_headers}
use reorg_playground.HeaderTree.Growth.{
  LinkIn, IsListed, add_headers-Grows, add_header_new, add_header_known, IsIndexed,
}
use reorg_playground.HeaderTree.Insert.{
  grown_names, IsWellFormed, NoCollision, SamePrev, insert_headers-IsWellFormed,
}

at_most_one : (a b : ℕ) → a ≤ 1 → b ≤ 1 → (0 < a → 0 < b) → (0 < b → 0 < a) → a ≡ b
at_most_one zero zero la lb to from = refl
at_most_one zero (suc b) la lb to from = let h = from (omega arith) in omega arith
at_most_one (suc a) zero la lb to from = let h = to (omega arith) in omega arith
at_most_one (suc a) (suc b) la lb to from = omega arith

module _ {G : Type 0} ⦃bitcoin : Bitcoin⦄ ⦃petgraph : DiGraph HeaderInfo G⦄ where
  open petgraph use {raw_nodes}

  abbrev Counts : TreeInfo G × Bool → TreeInfo G × Bool → Type 0
  Counts (t, changed) (t', changed') =
      (node_count t ≤ node_count t')
      × ((changed' ≡ true) ↔ ((changed ≡ true) ⊎ (node_count t < node_count t')))

  add_header-Counts :
      (t : TreeInfo G) (changed : Bool) (h : HeaderInfo)
      → Counts (t, changed) (add_header (t, changed) h)
  add_header-Counts t changed h = elim (Option-cases (get (hash_of h) t.index)) [
    | inl fresh ↦ rw (add_header_new t changed h fresh) (
        ground (
          arith,
          ap length (petgraph.raw_nodes-add_node t.graph h),
          length-append (raw_nodes t.graph) (h ∷ []),
        ))
    | inr (i, known) ↦ rw (add_header_known t changed h i known) (ground arith)
  ]

  add_headers-Counts :
      (t : TreeInfo G) (changed : Bool) (hs : List HeaderInfo)
      → Counts (t, changed) (add_headers (t, changed) hs)
  unfolding add_headers
  add_headers-Counts t changed [] = ground arith
  add_headers-Counts t changed (h ∷ hs) =
      let first = add_header-Counts t changed h in
      let (t1, changed1) = add_header (t, changed) h in
      let rest = add_headers-Counts t1 changed1 hs in ground arith

  -- The parts of a successful call.
  pub insert_headers_parts :
      (t t' : TreeInfo G) (changed : Bool) (hs : List HeaderInfo)
      → IsIndexed t
      → insert_headers t hs ≡ some (t', changed)
      → let (t1, changed1) = add_headers (t, false) hs in
        (raw_nodes t'.graph ≡ raw_nodes t1.graph) × (t'.index ≡ t1.index) × (changed ≡ changed1)
  unfolding insert_headers
  insert_headers_parts t t' changed hs ix e =
      let (t1, changed1) = add_headers (t, false) hs in
      let grows = add_headers-Grows t false hs ix in
      let (g, linked, adds) =
        AddsEdges-link_headers t1.index (children_from 0 (raw_nodes t1.graph) []) t1.graph hs
          (grown_names t1 grows.indexed) grows.listed in
      let (tree, flag) = some_pair (rw (linked, insert_headers) at e) in
      (ap (λ x. raw_nodes x.graph) (sym tree) ∙ adds.nodes, ap (λ x. x.index) (sym tree), sym flag)

  -- The flag that `insert_headers` returns says exactly whether the tree has more blocks than before.
  pub insert_headers_changed :
      (t t' : TreeInfo G) (changed : Bool) (new_headers : List HeaderInfo)
      → IsIndexed t
      → insert_headers t new_headers ≡ some (t', changed)
      → (changed ≡ true) ↔ (node_count t < node_count t')
  insert_headers_changed t t' changed hs ix e =
      let (nodes, _, flag) = insert_headers_parts t t' changed hs ix e in
      ground (arith, add_headers-Counts t false hs, ap length nodes)

  -- After a call each block of the tree is an old one, at its old place, or one of the headers; old
  -- blocks and old entries of the index stay, and each header is found by its hash.
  pub insert_headers_keeps :
      (t t' : TreeInfo G) (changed : Bool) (new_headers : List HeaderInfo)
      → IsIndexed t
      → insert_headers t new_headers ≡ some (t', changed)
      → ((i : ℕ) (n : HeaderInfo) → weight t i ≡ some n → weight t' i ≡ some n)
        × ((i : ℕ) (n : HeaderInfo)
            → weight t' i ≡ some n
            → (weight t i ≡ some n) ⊎ Any (λ h. n ≡ h) new_headers)
        × ((k i : ℕ) → get k t.index ≡ some i → get k t'.index ≡ some i)
        × All (IsListed t'.index) new_headers
  insert_headers_keeps t t' changed hs ix e =
      let (nodes, index, flag) = insert_headers_parts t t' changed hs ix e in
      let grows = add_headers-Grows t false hs ix in
      (
        λ i n at. rw nodes (grows.nodes_kept i n at),
        λ i n at. grows.nodes_from i n (rw nodes at at),
        λ k i to. rw index (grows.index_kept k i to),
        rw index grows.listed,
      )

  add_headers_known :
      (t : TreeInfo G) (changed : Bool) (hs : List HeaderInfo)
      → All (IsListed t.index) hs
      → add_headers (t, changed) hs ≡ (t, changed)
  unfolding add_headers
  add_headers_known t changed [] all = refl
  add_headers_known t changed (h ∷ hs) all =
      rw (add_header_known t changed h all.0.0 all.0.1) (add_headers_known t changed hs all.1)

  -- Well-formed trees with the same blocks and the same index have the same edges.
  pub same_edges :
      (t t' : TreeInfo G)
      → IsWellFormed t
      → IsWellFormed t'
      → raw_nodes t.graph ≡ raw_nodes t'.graph
      → t.index ≡ t'.index
      → (p c : ℕ) → count p (petgraph.incoming t.graph c) ≡ count p (petgraph.incoming t'.graph c)
  same_edges t t' wf wf' nodes index p c =
      let to : LinkIn t p c → LinkIn t' p c = λ l. rw (← nodes, ← index) l in
      let from : LinkIn t' p c → LinkIn t p c = λ l. rw (nodes, index) l in
      at_most_one _ _ (wf.simple p c) (wf'.simple p c)
        (λ e. wf'.links_edge p c (to (wf.edges_link p c e)))
        (λ e. wf.links_edge p c (from (wf'.edges_link p c e)))

  -- Two calls with the same headers succeed on a well-formed tree, provided that no two of the headers have one hash
  -- and different predecessors. The second one reports no change and makes none: the blocks are the same in the same
  -- order, with the same index, and between any two of them there is the same edge or none.
  pub insert_headers_twice :
      (t : TreeInfo G) (new_headers : List HeaderInfo)
      → IsWellFormed t
      → NoCollision (raw_nodes t.graph) new_headers
      → (t' t'' : TreeInfo G) × (changed : Bool) × (insert_headers t new_headers
          ≡ some (t', changed))
        × (insert_headers t' new_headers ≡ some (t'', false))
        × (raw_nodes t''.graph ≡ raw_nodes t'.graph)
        × (t''.index ≡ t'.index)
        × ((p c : ℕ)
            → count p (petgraph.incoming t''.graph c) ≡ count p (petgraph.incoming t'.graph c))
  insert_headers_twice t hs wf collision =
      let (t', changed, e, wf') = insert_headers-IsWellFormed t hs wf collision in
      let (_, from, _, listed) = insert_headers_keeps t t' changed hs wf.indexed e in
      let Fits : HeaderInfo → Type 0 = λ n. All (λ h. SamePrev n h) hs in
      let old = All-append_left Fits (raw_nodes t.graph) hs collision in
      let given = All-append_right Fits (raw_nodes t.graph) hs collision in
      let collision' =
        All-append Fits (raw_nodes t'.graph) hs
          (All-elems Fits (raw_nodes t'.graph) (λ i n at. elim (from i n at) [
            | inl before ↦ All-get_elem? Fits (raw_nodes t.graph) i old before
            | inr new ↦ Any_elim Fits (λ h. n ≡ h) hs (λ h fits same. rw same fits) given new
          ]))
          given in
      let (t'', changed', e', wf'') = insert_headers-IsWellFormed t' hs wf' collision' in
      let same = add_headers_known t' false hs listed in
      let (nodes, index, flag) = insert_headers_parts t' t'' changed' hs wf'.indexed e' in
      let nodes' = rw same at nodes in
      let index' = rw same at index in
      (
        t',
        t'',
        changed,
        e,
        e' ∙ ap (λ b. some (t'', b)) (rw same at flag),
        nodes',
        index',
        same_edges t'' t' wf'' wf' nodes' index',
      )
