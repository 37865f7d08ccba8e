-- ===== src/HeaderTree/Growth.antt =====
-- The first loop of `insert_headers` (src/headertree.rs): which nodes, index entries and links
-- between blocks it adds.
use reorg_playground.Prelude.{
  ℕ, ◌≡◌, refl, ◌∙◌, ◌⊎◌, inl, inr, none, some, List, [], ◌∷◌, Map, get, insert, length, arith, All,
  Any, Option-cases, Bool, true, concat-cases, get_elem?-concat_lt, lt-length_of_get_elem?,
}
use reorg_playground.External.Bitcoin.{Bitcoin}
use reorg_playground.External.Petgraph.{DiGraph}
use reorg_playground.Types.{HeaderInfo, TreeInfo}
use reorg_playground.HeaderTree.{hash_of, weight, add_header, add_headers}
use reorg_playground.HeaderTree.Index.{
  IsIndexOf, IsIndexOf-add, Link, Link-add, Link-cases, get-insert_old, get-insert_self,
}

module _ ⦃bitcoin : Bitcoin⦄ where
  -- The node of `h` is one end of a link.
  abbrev pub Touches : Map ℕ → ℕ → ℕ → HeaderInfo → Type 0
  Touches index p c h = (i : ℕ) × (get (hash_of h) index ≡ some i) × ((p ≡ i) ⊎ (c ≡ i))

  abbrev pub IsListed : Map ℕ → HeaderInfo → Type 0
  IsListed index h = (i : ℕ) × (get (hash_of h) index ≡ some i)

module _ {G : Type 0} ⦃bitcoin : Bitcoin⦄ ⦃petgraph : DiGraph HeaderInfo G⦄ where
  open petgraph use {raw_nodes, add_node, incoming}

  abbrev pub IsIndexed : TreeInfo G → Type 0
  IsIndexed t = IsIndexOf (raw_nodes t.graph) t.index

  -- The tree has both blocks, and `c` names `p` as its predecessor.
  abbrev pub LinkIn : TreeInfo G → ℕ → ℕ → Type 0
  LinkIn t = Link (raw_nodes t.graph) t.index

  pub record Grows (t t' : TreeInfo G) (hs : List HeaderInfo) : Type 0 where
    pub indexed : IsIndexed t'
    pub incoming_same : (c : ℕ) → incoming t'.graph c ≡ incoming t.graph c
    pub index_kept : (k i : ℕ) → get k t.index ≡ some i → get k t'.index ≡ some i
    pub nodes_kept : (i : ℕ) (n : HeaderInfo) → weight t i ≡ some n → weight t' i ≡ some n
    pub nodes_from :
        (i : ℕ) (n : HeaderInfo)
        → weight t' i ≡ some n
        → (weight t i ≡ some n) ⊎ Any (λ h. n ≡ h) hs
    pub links_kept : (p c : ℕ) → LinkIn t p c → LinkIn t' p c
    pub links_from : (p c : ℕ) → LinkIn t' p c → LinkIn t p c ⊎ Any (Touches t'.index p c) hs
    pub listed : All (IsListed t'.index) hs

  Grows-refl : (t : TreeInfo G) → IsIndexed t → Grows t t []
  Grows-refl t ix = record {
    indexed = ix;
    incoming_same = λ c. refl;
    index_kept = λ k i e. e;
    nodes_kept = λ i n e. e;
    nodes_from = λ i n e. inl e;
    links_kept = λ p c l. l;
    links_from = λ p c l. inl l;
    listed = tt;
  }

  -- A header that the tree has already.
  Grows-known :
      (t : TreeInfo G) (h : HeaderInfo) → IsIndexed t → IsListed t.index h → Grows t t (h ∷ [])
  Grows-known t h ix known = record {
    indexed = ix;
    incoming_same = λ c. refl;
    index_kept = λ k i e. e;
    nodes_kept = λ i n e. e;
    nodes_from = λ i n e. inl e;
    links_kept = λ p c l. l;
    links_from = λ p c l. inl l;
    listed = (known, tt);
  }

  abbrev pub with_node : TreeInfo G → HeaderInfo → TreeInfo G
  with_node t h = record {
    graph = add_node t.graph h;
    index = insert (hash_of h) (length (raw_nodes t.graph)) t.index;
  }

  Grows-new :
      (t : TreeInfo G) (h : HeaderInfo)
      → IsIndexed t
      → get (hash_of h) t.index ≡ none
      → Grows t (with_node t h) (h ∷ [])
  Grows-new t h ix fresh =
      let nodes = raw_nodes t.graph in
      let n = length nodes in
      let self = get-insert_self (hash_of h) n t.index in
      let grown = petgraph.raw_nodes-add_node t.graph h in
      record {
        indexed = rw grown (IsIndexOf-add nodes t.index h ix fresh);
        incoming_same = λ c. petgraph.incoming-add_node t.graph h c;
        index_kept = λ k i e. get-insert_old (hash_of h) k n i t.index fresh e;
        nodes_kept = λ i x e.
            rw grown (get_elem?-concat_lt nodes h i (lt-length_of_get_elem? nodes i e) ∙ e);
        nodes_from = λ i x e. elim (concat-cases nodes h x i (rw grown at e)) [
          | inl old ↦ inl old
          | inr (_, same) ↦ inr (inl same)
        ];
        links_kept = λ p c l. rw grown (Link-add nodes t.index h p c fresh l);
        links_from = λ p c l. elim (Link-cases nodes t.index h p c (rw grown at l)) [
          | inl old ↦ inl old
          | inr ends ↦ inr (inl (n, self, ends))
        ];
        listed = ((n, self), tt);
      }

  -- Both branches of `add_header`.
  pub add_header_new :
      (t : TreeInfo G) (changed : Bool) (h : HeaderInfo)
      → get (hash_of h) t.index ≡ none
      → add_header (t, changed) h ≡ (with_node t h, true)
  unfolding add_header
  add_header_new t changed h fresh = ground arith

  pub add_header_known :
      (t : TreeInfo G) (changed : Bool) (h : HeaderInfo) (i : ℕ)
      → get (hash_of h) t.index ≡ some i
      → add_header (t, changed) h ≡ (t, changed)
  unfolding add_header
  add_header_known t changed h i known = ground arith

  add_header-Grows :
      (t : TreeInfo G) (changed : Bool) (h : HeaderInfo)
      → IsIndexed t
      → Grows t (add_header (t, changed) h).0 (h ∷ [])
  add_header-Grows t changed h ix = elim (Option-cases (get (hash_of h) t.index)) [
    | inl fresh ↦ rw (add_header_new t changed h fresh) (Grows-new t h ix fresh)
    | inr (i, known) ↦ rw (add_header_known t changed h i known) (Grows-known t h ix (i, known))
  ]

  Grows-trans :
      (t t' t'' : TreeInfo G) (h : HeaderInfo) (hs : List HeaderInfo)
      → Grows t t' (h ∷ [])
      → Grows t' t'' hs
      → Grows t t'' (h ∷ hs)
  Grows-trans t t' t'' h hs first second = record {
    indexed = second.indexed;
    incoming_same = λ c. second.incoming_same c ∙ first.incoming_same c;
    index_kept = λ k i e. second.index_kept k i (first.index_kept k i e);
    nodes_kept = λ i n e. second.nodes_kept i n (first.nodes_kept i n e);
    nodes_from = λ i n e. elim (second.nodes_from i n e) [
      | inr later ↦ inr (inr later)
      | inl e' ↦ elim (first.nodes_from i n e') [
        | inl old ↦ inl old
        | inr now ↦ elim now [ inl same ↦ inr (inl same) | inr none_left ↦ absurd none_left ]
      ]
    ];
    links_kept = λ p c l. second.links_kept p c (first.links_kept p c l);
    links_from = λ p c l. elim (second.links_from p c l) [
      | inr later ↦ inr (inr later)
      | inl l' ↦ elim (first.links_from p c l') [
        | inl old ↦ inl old
        | inr now ↦ elim now [
          | inl (i, e, ends) ↦ inr (inl (i, second.index_kept _ i e, ends))
          | inr none_left ↦ absurd none_left
        ]
      ]
    ];
    listed = ((first.listed.0.0, second.index_kept _ _ first.listed.0.1), second.listed);
  }

  pub add_headers-Grows :
      (t : TreeInfo G) (changed : Bool) (hs : List HeaderInfo)
      → IsIndexed t
      → Grows t (add_headers (t, changed) hs).0 hs
  unfolding add_headers
  add_headers-Grows t changed [] ix = Grows-refl t ix
  add_headers-Grows t changed (h ∷ hs) ix =
      let first = add_header-Grows t changed h ix in
      let (t', changed') = add_header (t, changed) h in
      Grows-trans t t' _ h hs first (add_headers-Grows t' changed' hs first.indexed)
