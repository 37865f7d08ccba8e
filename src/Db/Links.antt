-- ===== src/Db/Links.antt =====
-- The two loops of `load_treeinfos` (src/db.rs), beside those of `insert_headers`.
use reorg_playground.Prelude.{
  ℕ, ◌<◌, ◌≡◌, ◌≢◌, refl, sym, ap, append-nil, append_assoc, ◌∙◌, inl, inr, some_eq, none, some,
  List, [], ◌∷◌, ◌++◌, arith, All, Any, Map, get, get-insert, length, Option-cases, Bool-cases,
  ◌==◌, ==_iff, true, Bool, All-map,
}
use reorg_playground.External.Bitcoin.{Bitcoin}
use reorg_playground.External.Petgraph.{DiGraph}
use reorg_playground.Types.{HeaderInfo, TreeInfo}
use reorg_playground.HeaderTree.{hash_of, add_headers}
use reorg_playground.HeaderTree.Edges.{
  AddsEdges, AddsEdges-refl, AddsEdges-trans, AddsEdges-iff, AddsEdges-update,
}
use reorg_playground.HeaderTree.Growth.{IsListed, add_header_new, with_node}
use reorg_playground.HeaderTree.Insert.{SamePrev}
use reorg_playground.Db.{add_loaded, link_loaded}

module _ ⦃bitcoin : Bitcoin⦄ where
  -- No two of the headers have one hash.
  abbrev pub HaveDistinctHashes : List HeaderInfo → Type 0
  HaveDistinctHashes [] = Unit
  HaveDistinctHashes (h ∷ hs) = All (λ x. hash_of h ≢ hash_of x) hs × HaveDistinctHashes hs

  -- The edge to the predecessor
  abbrev pub LinksUp : Map ℕ → ℕ → ℕ → HeaderInfo → Type 0
  LinksUp index p c h =
      (get (hash_of h) index ≡ some c) × (get h.header.prev_blockhash index ≡ some p)

  pub distinct-SamePrev :
      (hs : List HeaderInfo) → HaveDistinctHashes hs → All (λ n. All (λ h. SamePrev n h) hs) hs
  distinct-SamePrev [] d = tt
  distinct-SamePrev (x ∷ hs) (apart, d) = (
    (λ _. refl, All-map _ _ hs (λ h ne same. absurd (ne same)) apart),
    join hs (distinct-SamePrev hs d) apart,
  )
    where
      join :
          (ns : List HeaderInfo)
          → All (λ n. All (λ h. SamePrev n h) hs) ns
          → All (λ n. hash_of x ≢ hash_of n) ns
          → All (λ n. All (λ h. SamePrev n h) (x ∷ hs)) ns
      join [] all apart = tt
      join (n ∷ ns) all apart =
          ((λ same. absurd (apart.0 (sym same)), all.0), join ns all.1 apart.1)

module _ {G : Type 0} ⦃bitcoin : Bitcoin⦄ ⦃petgraph : DiGraph HeaderInfo G⦄ where
  open petgraph use {empty, raw_nodes, add_node, update_edge, incoming}

  -- The first loop is that of `insert_headers`, where no header is known.
  pub add_loaded-add_headers :
      (t : TreeInfo G) (changed : Bool) (hs : List HeaderInfo)
      → All (λ h. get (hash_of h) t.index ≡ none) hs
      → HaveDistinctHashes hs
      → add_loaded t hs ≡ (add_headers (t, changed) hs).0
  unfolding add_loaded add_headers
  add_loaded-add_headers t changed [] fresh d = refl
  add_loaded-add_headers t changed (h ∷ hs) (new, fresh) (apart, d) =
      rw (add_header_new t changed h new, add_headers)
        (add_loaded-add_headers (with_node t h) true hs (still hs fresh apart) d)
    where
      still :
          (xs : List HeaderInfo)
          → All (λ x. get (hash_of x) t.index ≡ none) xs
          → All (λ x. hash_of h ≢ hash_of x) xs
          → All (λ x. get (hash_of x) (with_node t h).index ≡ none) xs
      still [] fresh apart = tt
      still (x ∷ xs) (new, fresh) (ne, apart) = (
        elim (Bool-cases (hash_of h == hash_of x)) [
          | inl same ↦ absurd (ne ((==_iff _ _).0 same))
          | inr other ↦
              rw (get-insert (hash_of h) (hash_of x) (length (raw_nodes t.graph)) t.index, other)
                new
        ],
        still xs fresh apart,
      )

  pub raw_nodes-add_loaded :
      (t : TreeInfo G) (hs : List HeaderInfo)
      → raw_nodes (add_loaded t hs).graph ≡ raw_nodes t.graph ++ hs
  unfolding add_loaded
  raw_nodes-add_loaded t [] = sym (append-nil (raw_nodes t.graph))
  raw_nodes-add_loaded t (h ∷ hs) =
      raw_nodes-add_loaded (with_node t h) hs
      ∙ ap (λ l. l ++ hs) (petgraph.raw_nodes-add_node t.graph h)
      ∙ append_assoc (raw_nodes t.graph) (h ∷ []) hs

  pub AddsEdges-link_loaded :
      (index : Map ℕ) (g : G) (hs : List HeaderInfo)
      → ((k i : ℕ) → get k index ≡ some i → i < length (raw_nodes g))
      → All (IsListed index) hs
      → (g' : G) × (link_loaded index g hs ≡ some g')
        × AddsEdges g g' (λ p c. Any (LinksUp index p c) hs)
  unfolding link_loaded
  AddsEdges-link_loaded index g [] named listed = (g, refl, AddsEdges-refl g)
  AddsEdges-link_loaded index g (h ∷ hs) named ((i, e), listed) =
      elim (Option-cases (get h.header.prev_blockhash index)) [
        | inl root ↦
            let (g', done, adds) = AddsEdges-link_loaded index g hs named listed in
            (
              g',
              rw (e, root, link_loaded) done,
              AddsEdges-iff g g' _ _ (λ p c a. inr a)
                  (λ p c a. elim a [ inl (_, to) ↦ absurd (cc) | inr later ↦ later ]) adds,
            )
        | inr (p, parent) ↦
            let first = AddsEdges-update g p i (named _ p parent) (named _ i e) in
            let n = ap length first.nodes in
            let (g', done, adds) =
              AddsEdges-link_loaded index (update_edge g p i) hs
                (λ k j at. let lt = named k j at in omega (arith, n)) listed in
            (
              g',
              rw (e, parent, link_loaded) done,
              AddsEdges-iff g g' _ _
                  (λ q c a. elim a [
                    | inl (at_p, at_i) ↦ inl (rw at_i e, rw at_p parent)
                    | inr later ↦ inr later
                  ])
                  (λ q c a. elim a [
                    | inl (to_c, to_q) ↦ inl (some_eq (sym to_q ∙ parent), some_eq (sym to_c ∙ e))
                    | inr later ↦ inr later
                  ])
                  (AddsEdges-trans g _ g' _ _ first adds),
            )
      ]
