-- ===== src/HeaderTree/Insert.antt =====
-- What `insert_headers` (src/headertree.rs) promises: it does not panic, and the edges of the tree
-- are the links between its blocks, in whatever order the headers arrive.
use reorg_playground.Prelude.{
  ℕ, ◌+◌, ◌≤◌, ◌≡◌, sym, ap, ◌∙◌, inl, inr, some, List, [], ◌∷◌, Map, arith, count, All, Any, Bool,
  false, get_elem?, Any-map, Any_elim, All-get_elem?, All-append_left, All-append_right, ◌++◌,
  lt-length_of_get_elem?,
}
use reorg_playground.External.Bitcoin.{Bitcoin}
use reorg_playground.External.Petgraph.{DiGraph}
use reorg_playground.Types.{HeaderInfo, TreeInfo}
use reorg_playground.HeaderTree.{hash_of, add_headers, insert_headers, children_from}
use reorg_playground.HeaderTree.Index.{IsIndexOf, Link}
use reorg_playground.HeaderTree.Children.{children_from_lists, children_from_sound}
use reorg_playground.HeaderTree.Edges.{Edge, AddsEdges, AddsEdges-link_headers, DueTo, NameNodes}
use reorg_playground.HeaderTree.Growth.{IsIndexed, LinkIn, Touches, Grows, add_headers-Grows}

module _ ⦃bitcoin : Bitcoin⦄ where
  -- Two headers with one hash have one predecessor.
  abbrev pub SamePrev : HeaderInfo → HeaderInfo → Type 0
  SamePrev n h = hash_of n ≡ hash_of h → n.header.prev_blockhash ≡ h.header.prev_blockhash

  -- `h` agrees with every node.
  abbrev pub Agrees : List HeaderInfo → HeaderInfo → Type 0
  Agrees nodes h = (i : ℕ) (n : HeaderInfo) → get_elem? nodes i ≡ some n → SamePrev n h

  module _ (nodes : List HeaderInfo) (index : Map ℕ) (ix : IsIndexOf nodes index) where
    abbrev children : Map (List ℕ)
    children = children_from 0 nodes []

    -- What is due to a header is a link.
    DueTo-Link :
        (p c : ℕ) (h : HeaderInfo)
        → Agrees nodes h
        → DueTo index children p c h
        → Link nodes index p c
    DueTo-Link p c h agrees (i, e, due) = elim due [
      | inl (at_c, to) ↦
          let (n, at, same) = ix.index_sound (hash_of h) i e in
          (n, rw at_c at, rw (agrees i n at same) to)
      | inr (at_p, m) ↦ elim (children_from_sound (hash_of h) c 0 nodes [] m) [
        | inl nothing ↦ absurd (omega arith)
        | inr (j, n, at_c, at, same) ↦
            let at_j : c ≡ j = omega arith in (n, rw at_j at, rw (same, at_p) e)
      ]
    ]

    -- A link at the node of a header is due to it.
    Touches-DueTo :
        (p c : ℕ)
        → Link nodes index p c
        → (h : HeaderInfo) → Agrees nodes h
        → Touches index p c h
        → DueTo index children p c h
    Touches-DueTo p c (n, at, to) h agrees (i, e, ends) =
        let (n', at', same) = ix.index_sound (hash_of h) i e in
        let (m, at_p, hash_m) = ix.index_sound n.header.prev_blockhash p to in
        elim ends [
          | inr at_c ↦
              let named : n ≡ n' = cc in
              let prev = agrees c n at (ap hash_of named ∙ same) in
              (i, e, inl (at_c, rw (← prev) to))
          | inl p_is_i ↦
              let named : m ≡ n' = cc in
              let prev = sym hash_m ∙ ap hash_of named ∙ same in
              let child = children_from_lists (hash_of h) c 0 nodes [] at prev in
              let at_c : 0 + c ≡ c = omega arith in (i, e, inr (p_is_i, rw at_c at child))
        ]

-- No two of the headers have one hash and different predecessors.
abbrev pub NoCollision : ⦃bitcoin : Bitcoin⦄ → List HeaderInfo → List HeaderInfo → Type 0
NoCollision nodes hs = All (λ n. All (λ h. SamePrev n h) hs) (nodes ++ hs)

pub Agrees-all :
    ⦃bitcoin : Bitcoin⦄
    → (nodes hs : List HeaderInfo)
    → ((i : ℕ) (n : HeaderInfo) → get_elem? nodes i ≡ some n → All (λ h. SamePrev n h) hs)
    → All (Agrees nodes) hs
Agrees-all nodes [] agree = tt
Agrees-all nodes (h ∷ hs) agree =
    (λ i n e. (agree i n e).0, Agrees-all nodes hs (λ i n e. (agree i n e).1))

module _ {G : Type 0} ⦃bitcoin : Bitcoin⦄ ⦃petgraph : DiGraph HeaderInfo G⦄ where
  open petgraph use {raw_nodes, incoming}

  -- The index lists the nodes under their hashes, and the edges are the links, each once.
  pub record IsWellFormed (t : TreeInfo G) : Type 0 where
    pub indexed : IsIndexed t
    pub edges_link : (p c : ℕ) → Edge t.graph p c → LinkIn t p c
    pub links_edge : (p c : ℕ) → LinkIn t p c → Edge t.graph p c
    pub simple : (p c : ℕ) → count p (incoming t.graph c) ≤ 1

  grown-Agrees :
      (t t' : TreeInfo G) (hs : List HeaderInfo)
      → NoCollision (raw_nodes t.graph) hs
      → Grows t t' hs
      → All (Agrees (raw_nodes t'.graph)) hs
  grown-Agrees t t' hs collision g = Agrees-all (raw_nodes t'.graph) hs λ i n e.
      elim (g.nodes_from i n e) [
        | inl old ↦ All-get_elem? P nodes i (All-append_left P nodes hs collision) old
        | inr new ↦
            Any_elim P (λ h. n ≡ h) hs (λ h same eq. rw eq same)
              (All-append_right P nodes hs collision) new
      ]
    where
      nodes : List HeaderInfo
      nodes = raw_nodes t.graph

      P : HeaderInfo → Type 0
      P n = All (λ h. SamePrev n h) hs

  pub grown_names :
      (t : TreeInfo G)
      → IsIndexed t
      → NameNodes t.index (children_from 0 (raw_nodes t.graph) []) t.graph
  grown_names t ix = record {
    by_index = λ k i e.
        let (n, at, same) = ix.index_sound k i e in lt-length_of_get_elem? (raw_nodes t.graph) i at;
    by_children = λ k c m. elim (children_from_sound k c 0 (raw_nodes t.graph) [] m) [
      | inl nothing ↦ absurd (omega arith)
      | inr (j, n, at_c, at, same) ↦
          let lt = lt-length_of_get_elem? (raw_nodes t.graph) j at in omega arith
    ];
  }

  -- A tree that `insert_headers` grew and then linked is well-formed.
  linked-IsWellFormed :
      (t t' : TreeInfo G) (g : G) (hs : List HeaderInfo)
      → IsWellFormed t
      → Grows t t' hs
      → All (Agrees (raw_nodes t'.graph)) hs
      → AddsEdges t'.graph g
          (λ p c. Any (DueTo t'.index (children_from 0 (raw_nodes t'.graph) []) p c) hs)
      → IsWellFormed (record t' { graph = g })
  linked-IsWellFormed t t' g hs wf grows agree adds =
      let nodes' = raw_nodes t'.graph in
      record {
        indexed = rw adds.nodes grows.indexed;
        edges_link = λ p c e. rw adds.nodes (elim (adds.only p c e) [
          | inl before ↦
              grows.links_kept p c (wf.edges_link p c (rw (grows.incoming_same c) at before))
          | inr due ↦
              Any_elim (Agrees nodes') (DueTo t'.index _ p c) hs
                (λ h agrees d. DueTo-Link nodes' t'.index grows.indexed p c h agrees d) agree due
        ]);
        links_edge = λ p c l.
            let l' = rw adds.nodes at l in
            elim (grows.links_from p c l') [
              | inl old ↦ adds.kept p c (rw (grows.incoming_same c) (wf.links_edge p c old))
              | inr touched ↦ adds.added p c (
                  Any-map (Agrees nodes') (Touches t'.index p c) _ hs
                    (Touches-DueTo nodes' t'.index grows.indexed p c l') agree touched)
            ];
        simple = λ p c. adds.simple p c (rw (grows.incoming_same c) (wf.simple p c));
      }

  -- On a well-formed tree `insert_headers` does not panic and leaves a well-formed tree, provided
  -- that no two of the headers have one hash and different predecessors.
  pub insert_headers-IsWellFormed :
      (t : TreeInfo G) (new_headers : List HeaderInfo)
      → IsWellFormed t
      → NoCollision (raw_nodes t.graph) new_headers
      → (t' : TreeInfo G) × (changed : Bool) × (insert_headers t new_headers ≡ some (t', changed))
        × IsWellFormed t'
  unfolding insert_headers
  insert_headers-IsWellFormed t hs wf collision =
      let (t1, changed) = add_headers (t, false) hs in
      let grows = add_headers-Grows t false hs wf.indexed in
      let (g, linked, adds) =
        AddsEdges-link_headers t1.index (children_from 0 (raw_nodes t1.graph) []) t1.graph hs
          (grown_names t1 grows.indexed) grows.listed in
      (
        record t1 { graph = g },
        changed,
        rw (linked, insert_headers),
        linked-IsWellFormed t t1 g hs wf grows (grown-Agrees t t1 hs collision grows) adds,
      )
