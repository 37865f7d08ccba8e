-- ===== src/Db/Tree.antt =====
-- The tree that `load_treeinfos` (src/db.rs) builds.
use reorg_playground.Prelude.{
  ℕ, ◌≡◌, refl, sym, ap, ◌∙◌, inl, inr, none, some, Option, List, [], ◌∷◌, ◌++◌, arith, All, Any,
  Any_elim, Any-get_elem?, get, count, false, Bool, All-get_elem?, lt-length_of_get_elem?,
}
use reorg_playground.External.Bitcoin.{Bitcoin}
use reorg_playground.External.Petgraph.{DiGraph}
use reorg_playground.Types.{HeaderInfo, TreeInfo}
use reorg_playground.HeaderTree.{hash_of, add_headers, insert_headers}
use reorg_playground.HeaderTree.Edges.{Edge}
use reorg_playground.HeaderTree.Growth.{LinkIn, Grows, add_headers-Grows}
use reorg_playground.HeaderTree.Insert.{
  Agrees, Agrees-all, IsWellFormed, insert_headers-IsWellFormed,
}
use reorg_playground.HeaderTree.Result.{insert_headers_parts, same_edges}
use reorg_playground.Db.{add_loaded, build_tree}
use reorg_playground.Db.Links.{
  HaveDistinctHashes, LinksUp, distinct-SamePrev, add_loaded-add_headers, raw_nodes-add_loaded,
  AddsEdges-link_loaded,
}

module _ (G : Type 0) ⦃bitcoin : Bitcoin⦄ ⦃petgraph : DiGraph HeaderInfo G⦄ where
  open petgraph use {empty, raw_nodes, incoming}

  abbrev pub empty_info : TreeInfo G
  empty_info = record { graph = empty; index = [] }

  no_incoming : (c : ℕ) → incoming empty c ≡ []
  no_incoming c = petgraph.incoming_fresh empty c (rw petgraph.raw_nodes-empty (omega arith))

  no_edge : (p c : ℕ) → Edge empty p c → ⊥
  no_edge p c e = let n = ap (count p) (no_incoming c) in omega arith

  empty_info-IsWellFormed : IsWellFormed empty_info
  empty_info-IsWellFormed = record {
    indexed =
        rw petgraph.raw_nodes-empty
          (record { nodes_indexed = λ i h e. absurd (cc); index_sound = λ k i e. absurd (cc) });
    edges_link = λ p c e. absurd (no_edge p c e);
    links_edge = λ p c (h, at, to). absurd (cc);
    simple = λ p c. rw (no_incoming c) (omega arith);
  }

  module _ (hs : List HeaderInfo) (distinct : HaveDistinctHashes hs) where
    abbrev loaded : TreeInfo G
    loaded = add_loaded empty_info hs

    loaded-add_headers : loaded ≡ (add_headers (empty_info, false) hs).0
    loaded-add_headers = add_loaded-add_headers empty_info false hs (all_new hs) distinct
      where
        all_new :
            (xs : List HeaderInfo) → All (λ h. ◌≡◌ {A = Option ℕ} (get (hash_of h) []) none) xs
        all_new [] = tt
        all_new (x ∷ xs) = (refl, all_new xs)

    loaded-Grows : Grows empty_info loaded hs
    loaded-Grows =
        rw loaded-add_headers
          (add_headers-Grows empty_info false hs empty_info-IsWellFormed.indexed)

    raw_nodes-loaded : raw_nodes loaded.graph ≡ hs
    raw_nodes-loaded =
        raw_nodes-add_loaded empty_info hs ∙ ap (λ l. l ++ hs) petgraph.raw_nodes-empty

    agreeing : All (Agrees hs) hs
    agreeing = Agrees-all hs hs λ i n e. All-get_elem? _ hs i (distinct-SamePrev hs distinct) e

    LinksUp-LinkIn : (p c : ℕ) → Any (LinksUp loaded.index p c) hs → LinkIn loaded p c
    LinksUp-LinkIn p c links =
        Any_elim (Agrees hs) (LinksUp loaded.index p c) hs
          (λ h agrees (at_c, to).
            let (n, at, same) = loaded-Grows.indexed.index_sound (hash_of h) c at_c in
            (n, at, rw (agrees c n (rw raw_nodes-loaded at at) same) to))
          agreeing links

    LinkIn-LinksUp : (p c : ℕ) → LinkIn loaded p c → Any (LinksUp loaded.index p c) hs
    LinkIn-LinksUp p c (n, at, to) =
        Any-get_elem? (LinksUp loaded.index p c) hs c n (rw raw_nodes-loaded at at)
          (loaded-Grows.indexed.nodes_indexed c n at, to)

    -- Headers with distinct hashes give a well-formed tree.
    build_tree-IsWellFormed :
        (t : TreeInfo G) × (build_tree hs ≡ some t)
        × IsWellFormed t
        × (raw_nodes t.graph ≡ hs)
        × (t.index ≡ loaded.index)
    unfolding build_tree
    build_tree-IsWellFormed =
        let ix = loaded-Grows.indexed in
        let (g, linked, adds) =
          AddsEdges-link_loaded loaded.index loaded.graph hs
            (λ k i e.
              let (n, at, same) = ix.index_sound k i e in
              lt-length_of_get_elem? (raw_nodes loaded.graph) i at)
            loaded-Grows.listed in
        (
          record loaded { graph = g },
          rw (linked, build_tree) refl,
          record {
            indexed = rw adds.nodes ix;
            edges_link = λ p c e. rw adds.nodes (elim (adds.only p c e) [
              | inl before ↦ absurd (no_edge p c (rw (loaded-Grows.incoming_same c) at before))
              | inr up ↦ LinksUp-LinkIn p c up
            ]);
            links_edge = λ p c l. adds.added p c (LinkIn-LinksUp p c (rw adds.nodes at l));
            simple = λ p c. adds.simple p c (
                let n = ap (count p) (loaded-Grows.incoming_same c ∙ no_incoming c) in omega arith);
          },
          adds.nodes ∙ raw_nodes-loaded,
          refl,
        )

    -- `build_tree` and `insert_headers` make the same of headers with distinct hashes: the nodes are the headers in
    -- their order, with one index, and between any two nodes both have the same edge or none. The tree is well formed.
    pub build_tree-insert_headers :
        (t t' : TreeInfo G) × (changed : Bool) × (build_tree hs ≡ some t)
        × (insert_headers empty_info hs ≡ some (t', changed))
        × IsWellFormed t
        × (raw_nodes t.graph ≡ hs)
        × (raw_nodes t'.graph ≡ hs)
        × (t.index ≡ t'.index)
        × ((p c : ℕ) → count p (incoming t.graph c) ≡ count p (incoming t'.graph c))
    build_tree-insert_headers =
        let (t, built, wf, nodes, index) = build_tree-IsWellFormed in
        let (t', changed, inserted, wf') =
          insert_headers-IsWellFormed empty_info hs empty_info-IsWellFormed
            (rw petgraph.raw_nodes-empty (distinct-SamePrev hs distinct)) in
        let (nodes', index', _) =
          insert_headers_parts empty_info t' changed hs empty_info-IsWellFormed.indexed inserted in
        let same_nodes : raw_nodes t'.graph ≡ hs =
          nodes'
          ∙ ap (λ (x : TreeInfo G). raw_nodes x.graph) (sym loaded-add_headers)
          ∙ raw_nodes-loaded in
        let same_index : t.index ≡ t'.index =
          index ∙ ap (λ (x : TreeInfo G). x.index) loaded-add_headers ∙ sym index' in
        (
          t,
          t',
          changed,
          built,
          inserted,
          wf,
          nodes,
          same_nodes,
          same_index,
          same_edges t t' wf wf' (nodes ∙ sym same_nodes) same_index,
        )
