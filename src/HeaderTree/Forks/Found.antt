-- ===== src/HeaderTree/Forks/Found.antt =====
-- Which forks `recent_forks` of src/headertree.rs reports.
use reorg_playground.Prelude.{
  ℕ, zero, suc, ◌≤◌, ◌<◌, ◌≡◌, ◌≢◌, refl, sym, ap, ◌∙◌, ◌⊎◌, inl, inr, some, List, [], ◌∷◌, ◌==◌,
  arith, true, subst, get, length, take, All, Any, Any-concat, Any-imp, Any-sort_by_key, Any_elim,
  All-sort_by_key, count, sort_by_key-IsSortedBy, sort_by_key, Option-cases, Bool-cases, ltb,
  get_elem?_of_lt, lt-length_of_get_elem?, ==_iff,
}
use reorg_playground.External.Bitcoin.{Bitcoin}
use reorg_playground.External.Petgraph.{DiGraph}
use reorg_playground.Types.{HeaderInfo, TreeInfo, Fork}
use reorg_playground.HeaderTree.{hash_of, weight, node_count}
use reorg_playground.HeaderTree.Insert.{IsWellFormed}
use reorg_playground.HeaderTree.Roots.{weights, root_or_parent}
use reorg_playground.HeaderTree.Forks.{
  reverse_forks, forks_among, forks_below, recent_forks, forks_below_lem, IsForkOf, IsNewestFirst,
  reverse_forks-IsNewestFirst, All-reverse_forks, All-take, take-IsNewestFirst, length-take_forks,
  nothing_below,
}
use reorg_playground.Metrics.{height_of}
use reorg_playground.Metrics.Paths.{HeightsRise}

two_counted : (c d : ℕ) (xs : List ℕ) → c ≢ d → 0 < count c xs → 0 < count d xs → 1 < length xs
two_counted c d [] differ has_c has_d = absurd (omega arith)
two_counted c d (x ∷ []) differ has_c has_d =
    let is_c : c ≡ x = ground arith in
    let is_d : d ≡ x = ground arith in absurd (differ (is_c ∙ sym is_d))
two_counted c d (x ∷ y ∷ xs) differ has_c has_d = omega arith

Any-reverse_forks :
    (P : Fork → Type 0) (xs ys : List Fork) → Any P xs ⊎ Any P ys → Any P (reverse_forks xs ys)
Any-reverse_forks P [] ys (inl none) = absurd none
Any-reverse_forks P [] ys (inr h) = h
Any-reverse_forks P (x ∷ xs) ys (inl (inl here)) = Any-reverse_forks P xs (x ∷ ys) (inr (inl here))
Any-reverse_forks P (x ∷ xs) ys (inl (inr later)) = Any-reverse_forks P xs (x ∷ ys) (inl later)
Any-reverse_forks P (x ∷ xs) ys (inr h) = Any-reverse_forks P xs (x ∷ ys) (inr (inr h))

-- A fork at this height is among the first ones, or these are all as high.
take_or_full :
    (P : Fork → Type 0) (height n : ℕ) (xs : List Fork)
    → ((f : Fork) → P f → f.common.height ≡ height)
    → IsNewestFirst xs
    → Any P xs
    → Any P (take n xs)
      ⊎ ((length (take n xs) ≡ n) × All (λ f. height ≤ f.common.height) (take n xs))
take_or_full P height zero xs at newest some_f = inr (refl, tt)
take_or_full P height (suc n) [] at newest some_f = absurd some_f
take_or_full P height (suc n) (x ∷ xs) at newest (inl here) = inl (inl here)
take_or_full P height (suc n) (x ∷ xs) at (below, newest) (inr later) =
    elim (take_or_full P height n xs at newest later) [
      | inl found ↦ inl (inr found)
      | inr (full, all) ↦
          let low =
            Any_elim (λ g. g.common.height ≤ x.common.height) P xs
              (λ f le p. let same = at f p in omega (arith, le, same)) below later in
          inr (ap suc full, (low, all))
    ]

-- The fork at a block, with two of the blocks that are built on it
abbrev pub HasFork : HeaderInfo → HeaderInfo → HeaderInfo → Fork → Type 0
HasFork common n m fork =
    (fork.common ≡ common)
    × (Any (λ child. child ≡ n) fork.children × Any (λ child. child ≡ m) fork.children)

module _ {G : Type 0} ⦃bitcoin : Bitcoin⦄ ⦃petgraph : DiGraph HeaderInfo G⦄ where
  open petgraph use {raw_nodes, outgoing, externals}

  -- The search from a root visits the root, and with a node all nodes that its edges go to.
  pub record IsSearch (dfs : G → ℕ → List ℕ) (t : TreeInfo G) : Type 0 where
    pub starts : (root : ℕ) → 0 < count root (externals t.graph) → 0 < count root (dfs t.graph root)
    pub follows :
        (root p c : ℕ)
        → 0 < count root (externals t.graph)
        → 0 < count p (dfs t.graph root)
        → 0 < count c (outgoing t.graph p)
        → 0 < count c (dfs t.graph root)

  -- Each block of the tree is visited from a root.
  visited :
      (dfs : G → ℕ → List ℕ) (t : TreeInfo G) (n i : ℕ)
      → IsSearch dfs t
      → IsWellFormed t
      → HeightsRise t
      → i < node_count t
      → height_of t i < n
      → (root : ℕ) × (0 < count root (externals t.graph)) × (0 < count i (dfs t.graph root))
  visited dfs t zero i visits wf rise inside low = absurd (omega arith)
  visited dfs t (suc n) i visits wf rise inside low =
      let (m, at) = get_elem?_of_lt (raw_nodes t.graph) i inside in
      elim (root_or_parent t i m wf at) [
        | inl root ↦ (i, root, visits.starts i root)
        | inr (p, to) ↦
            let edge = wf.links_edge p i (m, at, to) in
            let lower = rise p i edge in
            let (parent, at', _) = wf.indexed.index_sound m.header.prev_blockhash p to in
            let (root, outer, seen) =
              visited dfs t n p visits wf rise (lt-length_of_get_elem? (raw_nodes t.graph) p at')
                (omega arith) in
            (
              root,
              outer,
              visits.follows root p i outer seen
                  (omega (arith, edge, petgraph.outgoing-incoming t.graph p i)),
            )
      ]

  weights_lem :
      (t : TreeInfo G) (c : ℕ) (n : HeaderInfo) (cs : List ℕ)
      → weight t c ≡ some n
      → 0 < count c cs
      → Any (λ x. x ≡ n) (weights t cs)
  unfolding weights
  weights_lem t c n [] at has = absurd (omega arith)
  weights_lem t c n (x ∷ cs) at has = elim (Bool-cases (x == c)) [
    | inl same ↦
        let is_c : x ≡ c = (==_iff _ _).0 same in
        let here : weight t x ≡ some n = ap (λ i. weight t i) is_c ∙ at in
        rw (here, weights) (inl refl)
    | inr other ↦
        let later = weights_lem t c n cs at (ground arith) in
        elim (Option-cases (weight t x)) [
          | inl gone ↦ rw (gone, weights) later
          | inr (m, there) ↦ rw (there, weights) (inr later)
        ]
  ]

  -- One more node that is visited leaves the forks that there are.
  later_among :
      (P : Fork → Type 0) (t : TreeInfo G) (x : ℕ) (xs : List ℕ)
      → Any P (forks_among t xs)
      → Any P (forks_among t (x ∷ xs))
  unfolding forks_among
  later_among P t x xs later = elim (Option-cases (weight t x)) [
    | inl gone ↦ rw (gone, forks_among) later
    | inr (m, there) ↦ elim (Bool-cases (ltb 1 (length (outgoing t.graph x)))) [
      | inl split ↦ rw (there, split, forks_among) (inr later)
      | inr straight ↦ rw (there, straight, forks_among) later
    ]
  ]

  abbrev fork_at : TreeInfo G → ℕ → HeaderInfo → Fork
  fork_at t i common = record { common = common; children = weights t (outgoing t.graph i) }

  among_lem :
      (t : TreeInfo G) (i : ℕ) (common : HeaderInfo) (xs : List ℕ)
      → weight t i ≡ some common
      → 1 < length (outgoing t.graph i)
      → 0 < count i xs
      → Any (λ f. f ≡ fork_at t i common) (forks_among t xs)
  unfolding forks_among
  among_lem t i common [] at split has = absurd (omega arith)
  among_lem t i common (x ∷ xs) at split has = elim (Bool-cases (x == i)) [
    | inl same ↦
        let is_i : i ≡ x = sym ((==_iff _ _).0 same) in
        let two : ltb 1 (length (outgoing t.graph i)) ≡ true = ground arith in
        subst (λ k. Any (λ f. f ≡ fork_at t i common) (forks_among t (k ∷ xs))) is_i
          (rw (at, two, forks_among) (inl refl))
    | inr other ↦ later_among _ t x xs (among_lem t i common xs at split (ground arith))
  ]

  below_lem :
      (P : Fork → Type 0) (dfs : G → ℕ → List ℕ) (t : TreeInfo G) (root : ℕ) (roots : List ℕ)
      → Any P (forks_among t (dfs t.graph root))
      → 0 < count root roots
      → Any P (forks_below dfs t roots)
  unfolding forks_below
  below_lem P dfs t root [] found has = absurd (omega arith)
  below_lem P dfs t root (r ∷ roots) found has =
      let (_, to) = Any-concat P (forks_among t (dfs t.graph r)) (forks_below dfs t roots) in
      elim (Bool-cases (r == root)) [
        | inl same ↦
            let is_root : root ≡ r = sym ((==_iff _ _).0 same) in
            to (inl (subst (λ k. Any P (forks_among t (dfs t.graph k))) is_root found))
        | inr other ↦ to (inr (below_lem P dfs t root roots found (ground arith)))
      ]

  found_lem :
      (dfs : G → ℕ → List ℕ) (t : TreeInfo G) (i c d : ℕ) (common n m : HeaderInfo)
      → IsSearch dfs t
      → IsWellFormed t
      → HeightsRise t
      → c ≢ d
      → weight t i ≡ some common
      → weight t c ≡ some n
      → weight t d ≡ some m
      → n.header.prev_blockhash ≡ hash_of common
      → m.header.prev_blockhash ≡ hash_of common
      → Any (HasFork common n m) (forks_below dfs t (externals t.graph))
  found_lem dfs t i c d common n m visits wf rise differ at at_c at_d on_c on_d =
      let listed = wf.indexed.nodes_indexed i common at in
      let to_c : 0 < count c (outgoing t.graph i) = omega (
        arith,
        wf.links_edge i c (n, at_c, ap (λ h. get h t.index) on_c ∙ listed),
        petgraph.outgoing-incoming t.graph i c,
      ) in
      let to_d : 0 < count d (outgoing t.graph i) = omega (
        arith,
        wf.links_edge i d (m, at_d, ap (λ h. get h t.index) on_d ∙ listed),
        petgraph.outgoing-incoming t.graph i d,
      ) in
      let (root, outer, seen) =
        visited dfs t (suc (height_of t i)) i visits wf rise
          (lt-length_of_get_elem? (raw_nodes t.graph) i at) (omega arith) in
      let found =
        among_lem t i common (dfs t.graph root) at (two_counted c d _ differ to_c to_d) seen in
      below_lem (HasFork common n m) dfs t root (externals t.graph)
        (Any-imp _ _ _
          (λ f same. rw same (refl, (weights_lem t c n _ at_c to_c, weights_lem t d m _ at_d to_d)))
          found)
        outer

  -- There are at most `how_many` forks, the highest first, and each is at a block of the tree and has at least two
  -- children, which are built on that block. In a well-formed tree whose heights rise along its edges, provided that
  -- the search visits the root it starts from and all nodes that edges lead to from a node it visits, no fork is left
  -- out but for lower ones: if two blocks of the tree are built on a third, a fork at the third with both of them is
  -- among the forks, or there are `how_many` forks and none of them is lower than the third block.
  pub recent_forks_lem :
      (dfs : G → ℕ → List ℕ) (t : TreeInfo G) (how_many : ℕ)
      → IsWellFormed t
      → HeightsRise t
      → IsSearch dfs t
      → let forks = recent_forks dfs t how_many in
        (length forks ≤ how_many)
        × IsNewestFirst forks
        × All (IsForkOf t) forks
        × ((i c d : ℕ) (common n m : HeaderInfo)
            → c ≢ d
            → weight t i ≡ some common
            → weight t c ≡ some n
            → weight t d ≡ some m
            → n.header.prev_blockhash ≡ hash_of common
            → m.header.prev_blockhash ≡ hash_of common
            → Any (HasFork common n m) forks
              ⊎ ((length forks ≡ how_many)
                  × All (λ fork. common.height ≤ fork.common.height) forks))
  unfolding recent_forks
  recent_forks_lem dfs t how_many wf rise visits =
      let found = forks_below dfs t (externals t.graph) in
      let sorted = sort_by_key (λ f. f.common.height) found in
      let newest =
        reverse_forks-IsNewestFirst sorted [] (sort_by_key-IsSortedBy (λ f. f.common.height) found)
          tt (nothing_below sorted) in
      (
        length-take_forks how_many (reverse_forks sorted []),
        take-IsNewestFirst how_many (reverse_forks sorted []) newest,
        All-take (IsForkOf t) how_many (reverse_forks sorted []) (
            All-reverse_forks (IsForkOf t) sorted []
              (All-sort_by_key (λ f. f.common.height) (IsForkOf t) found
                (forks_below_lem dfs t (externals t.graph) wf))
              tt),
        λ i c d common n m differ at at_c at_d on_c on_d.
            let is_found =
              found_lem dfs t i c d common n m visits wf rise differ at at_c at_d on_c on_d in
            take_or_full (HasFork common n m) common.height how_many (reverse_forks sorted [])
              (λ f (same, _). ap (λ h. h.height) same) newest
              (Any-reverse_forks (HasFork common n m) sorted [] (
                inl (
                  (Any-sort_by_key (λ f. f.common.height) (HasFork common n m) found).1 is_found))),
      )
