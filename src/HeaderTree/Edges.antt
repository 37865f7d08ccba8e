-- ===== src/HeaderTree/Edges.antt =====
-- The edges that the second loop of `insert_headers` (src/headertree.rs) adds to the graph.
use reorg_playground.Prelude.{
  ℕ, ◌≤◌, ◌<◌, ◌≡◌, refl, ap, ◌∙◌, ◌⊎◌, inl, inr, none, some, Option, List, [], ◌∷◌, Map, get,
  length, arith, count, All, Any,
}
use reorg_playground.External.Bitcoin.{Bitcoin}
use reorg_playground.External.Petgraph.{DiGraph}
use reorg_playground.Types.{HeaderInfo}
use reorg_playground.HeaderTree.{
  hash_of, link_parent, link_all, link_children, link_header, link_headers,
}
use reorg_playground.HeaderTree.Children.{listed, children_of}

module _ {G : Type 0} ⦃petgraph : DiGraph HeaderInfo G⦄ where
  open petgraph use {raw_nodes, update_edge, incoming}

  abbrev pub Edge : G → ℕ → ℕ → Type 0
  Edge g p c = 0 < count p (incoming g c)

  -- From `g` to `g'` exactly the edges of `New` were added, and no edge was doubled.
  pub record AddsEdges (g g' : G) (New : ℕ → ℕ → Type 0) : Type 0 where
    pub nodes : raw_nodes g' ≡ raw_nodes g
    pub kept : (p c : ℕ) → Edge g p c → Edge g' p c
    pub added : (p c : ℕ) → New p c → Edge g' p c
    pub only : (p c : ℕ) → Edge g' p c → Edge g p c ⊎ New p c
    pub simple : (p c : ℕ) → count p (incoming g c) ≤ 1 → count p (incoming g' c) ≤ 1

  pub AddsEdges-refl : (g : G) → AddsEdges g g (λ p c. ⊥)
  AddsEdges-refl g = record {
    nodes = refl;
    kept = λ p c e. e;
    added = λ p c n. absurd n;
    only = λ p c e. inl e;
    simple = λ p c s. s;
  }

  pub AddsEdges-update :
      (g : G) (a b : ℕ)
      → a < length (raw_nodes g)
      → b < length (raw_nodes g)
      → AddsEdges g (update_edge g a b) (λ p c. (p ≡ a) × (c ≡ b))
  AddsEdges-update g a b ha hb = record {
    nodes = petgraph.raw_nodes-update_edge g a b ha hb;
    kept = λ p c e. ground (arith, petgraph.incoming-update_edge g a b p c ha hb);
    added = λ p c n. ground (arith, petgraph.incoming-update_edge g a b p c ha hb);
    only = λ p c e. ground (arith, petgraph.incoming-update_edge g a b p c ha hb);
    simple = λ p c s. ground (arith, petgraph.incoming-update_edge g a b p c ha hb);
  }

  pub AddsEdges-trans :
      (g g' g'' : G) (New More : ℕ → ℕ → Type 0)
      → AddsEdges g g' New
      → AddsEdges g' g'' More
      → AddsEdges g g'' (λ p c. New p c ⊎ More p c)
  AddsEdges-trans g g' g'' New More first second = record {
    nodes = second.nodes ∙ first.nodes;
    kept = λ p c e. second.kept p c (first.kept p c e);
    added = λ p c n. elim n [
      | inl new ↦ second.kept p c (first.added p c new)
      | inr more ↦ second.added p c more
    ];
    only = λ p c e. elim (second.only p c e) [
      | inr more ↦ inr (inr more)
      | inl e' ↦ elim (first.only p c e') [ inl old ↦ inl old | inr new ↦ inr (inl new) ]
    ];
    simple = λ p c s. second.simple p c (first.simple p c s);
  }

  pub AddsEdges-iff :
      (g g' : G) (New New' : ℕ → ℕ → Type 0)
      → ((p c : ℕ) → New p c → New' p c)
      → ((p c : ℕ) → New' p c → New p c)
      → AddsEdges g g' New
      → AddsEdges g g' New'
  AddsEdges-iff g g' New New' to from h = record {
    nodes = h.nodes;
    kept = h.kept;
    added = λ p c n. h.added p c (from p c n);
    only = λ p c e. elim (h.only p c e) [ inl old ↦ inl old | inr new ↦ inr (to p c new) ];
    simple = h.simple;
  }

  -- The numbers of a list are indices of nodes.
  abbrev pub AreNodes : G → List ℕ → Type 0
  AreNodes g cs = (c : ℕ) → 0 < count c cs → c < length (raw_nodes g)

  AddsEdges-link_parent :
      (g : G) (prev : Option ℕ) (i : ℕ)
      → i < length (raw_nodes g)
      → ((p : ℕ) → prev ≡ some p → p < length (raw_nodes g))
      → AddsEdges g (link_parent g prev i) (λ p c. (c ≡ i) × (prev ≡ some p))
  unfolding link_parent
  AddsEdges-link_parent g none i hi hp =
      AddsEdges-iff g g (λ p c. ⊥) _ (λ p c n. absurd n) (λ p c (_, e). cc) (AddsEdges-refl g)
  AddsEdges-link_parent g (some q) i hi hp =
      AddsEdges-iff g _ _ _ (λ p c (e, f). (f, cc)) (λ p c (f, e). (cc, f))
        (AddsEdges-update g q i (hp q refl) hi)

  AddsEdges-link_all :
      (g : G) (i : ℕ) (cs : List ℕ)
      → i < length (raw_nodes g)
      → AreNodes g cs
      → AddsEdges g (link_all g i cs) (λ p c. (p ≡ i) × (0 < count c cs))
  unfolding link_all
  AddsEdges-link_all g i [] hi hc =
      AddsEdges-iff g g (λ p c. ⊥) _ (λ p c n. absurd n) (λ p c (_, m). absurd (omega arith))
        (AddsEdges-refl g)
  AddsEdges-link_all g i (x ∷ cs) hi hc =
      let first = AddsEdges-update g i x hi (hc x (ground arith)) in
      let n = ap length first.nodes in
      AddsEdges-iff g _ _ _ (λ p c m. ground arith) (λ p c m. ground arith)
        (AddsEdges-trans g _ _ _ _ first (
          AddsEdges-link_all (update_edge g i x) i cs (omega (arith, n))
            (λ c m. let lt = hc c (ground arith) in omega (arith, n))))

  AddsEdges-link_children :
      (g : G) (i : ℕ) (children : Option (List ℕ))
      → i < length (raw_nodes g)
      → AreNodes g (listed children)
      → AddsEdges g (link_children g i children) (λ p c. (p ≡ i) × (0 < count c (listed children)))
  unfolding link_children link_all
  AddsEdges-link_children g i none hi hc = AddsEdges-link_all g i [] hi hc
  AddsEdges-link_children g i (some cs) hi hc = AddsEdges-link_all g i cs hi hc

module _ ⦃bitcoin : Bitcoin⦄ (index : Map ℕ) (children : Map (List ℕ)) where
  -- The edges that are due to one header: to its parent, and to its children.
  abbrev pub DueTo : ℕ → ℕ → HeaderInfo → Type 0
  DueTo p c h =
      (i : ℕ) × (get (hash_of h) index ≡ some i)
      × (((c ≡ i) × (get h.header.prev_blockhash index ≡ some p))
          ⊎ ((p ≡ i) × (0 < count c (children_of (hash_of h) children))))

module _ {G : Type 0} ⦃bitcoin : Bitcoin⦄ ⦃petgraph : DiGraph HeaderInfo G⦄ (index : Map ℕ)
    (children : Map (List ℕ)) where
  open petgraph use {raw_nodes}

  -- The maps name nodes of the graph only.
  pub record NameNodes (g : G) : Type 0 where
    pub by_index : (k i : ℕ) → get k index ≡ some i → i < length (raw_nodes g)
    pub by_children : (k : ℕ) → AreNodes g (children_of k children)

  AddsEdges-link_header :
      (g : G) (h : HeaderInfo) (i : ℕ)
      → NameNodes g
      → get (hash_of h) index ≡ some i
      → (g' : G) × (link_header index children g h ≡ some g')
        × AddsEdges g g' (λ p c. DueTo index children p c h)
  unfolding link_header
  AddsEdges-link_header g h i named e =
      let hi = named.by_index (hash_of h) i e in
      let prev = get h.header.prev_blockhash index in
      let first = AddsEdges-link_parent g prev i hi (λ p q. named.by_index _ p q) in
      let n = ap length first.nodes in
      let second =
        AddsEdges-link_children (link_parent g prev i) i (get (hash_of h) children)
          (omega (arith, n))
          (λ c m. let lt = named.by_children (hash_of h) c m in omega (arith, n)) in
      (
        link_children (link_parent g prev i) i (get (hash_of h) children),
        rw (e, link_header),
        AddsEdges-iff _ _ _ _ (λ p c m. (i, e, m)) (λ p c (j, e', m). ground arith)
            (AddsEdges-trans _ _ _ _ _ first second),
      )

  -- The second loop does not panic, and adds exactly the edges that are due to its headers.
  pub AddsEdges-link_headers :
      (g : G) (hs : List HeaderInfo)
      → NameNodes g
      → All (λ h. (i : ℕ) × (get (hash_of h) index ≡ some i)) hs
      → (g' : G) × (link_headers index children g hs ≡ some g')
        × AddsEdges g g' (λ p c. Any (DueTo index children p c) hs)
  unfolding link_headers
  AddsEdges-link_headers g [] named listed = (g, refl, AddsEdges-refl g)
  AddsEdges-link_headers g (h ∷ hs) named ((i, e), all_listed) =
      let (g', done, first) = AddsEdges-link_header g h i named e in
      let n = ap length first.nodes in
      let (g'', rest, second) =
        AddsEdges-link_headers g' hs
          (record {
            by_index = λ k j e'. let lt = named.by_index k j e' in omega (arith, n);
            by_children = λ k c m. let lt = named.by_children k c m in omega (arith, n);
          })
          all_listed in
      (g'', rw (done, link_headers) rest, AddsEdges-trans _ _ _ _ _ first second)
