-- ===== src/HeaderTree/Roots.antt =====
-- `unexpected_root_count` and `unexpected_roots` of src/headertree.rs: blocks above the tracked
-- lower bound whose predecessor is missing.
use reorg_playground.Prelude.{
  ℕ, suc, subst, some_pair, Any, Any_elim, count-filter_by, get_elem?_of_lt, ◌<◌, ◌≡◌, ◌↔◌, refl,
  sym, ap, ◌∙◌, ◌⊎◌, inl, inr, none, some, List, [], ◌∷◌, get, length, arith, All, Bool, true,
  false, is_empty, is_empty_count, not_empty_count, filter_none, filter_none_of, filter_by, ltb,
  count, Bool-cases, Option-cases, sort_by_key, sort_by_key-IsSortedBy, IsSortedBy, All-sort_by_key,
  length-sort_by_key, lt-length_of_get_elem?,
}
use reorg_playground.External.Bitcoin.{Bitcoin}
use reorg_playground.External.Petgraph.{DiGraph}
use reorg_playground.Types.{HeaderInfo, TreeInfo}
use reorg_playground.HeaderTree.{hash_of, weight, insert_headers, node_count}
use reorg_playground.HeaderTree.Insert.{IsWellFormed, NoCollision, insert_headers-IsWellFormed}
use reorg_playground.HeaderTree.Growth.{IsListed}
use reorg_playground.HeaderTree.Result.{insert_headers_keeps}

module _ {G : Type 0} ⦃petgraph : DiGraph HeaderInfo G⦄ where
  open petgraph use {raw_nodes, incoming, externals}

  -- The test of both filters. `externals` lists nodes only, so the case of no node is never taken.
  unfoldable pub is_above : TreeInfo G → ℕ → ℕ → Bool
  is_above t first_tracked_height idx = elim (weight t idx) [
    | none ↦ false
    | some n ↦ ltb first_tracked_height n.height
  ]

  unfoldable pub unexpected_root_count : TreeInfo G → ℕ → ℕ
  unexpected_root_count t first_tracked_height =
      length (filter_by (is_above t first_tracked_height) (externals t.graph))

  -- `.map(|idx| graph[idx].clone())`
  unfoldable pub weights : TreeInfo G → List ℕ → List HeaderInfo
  weights t [] = []
  weights t (i ∷ is) = elim (weight t i) [ none ↦ weights t is | some n ↦ n ∷ weights t is ]

  unfoldable pub unexpected_roots : TreeInfo G → ℕ → List HeaderInfo
  unexpected_roots t first_tracked_height =
      sort_by_key (λ n. n.height)
        (weights t (filter_by (is_above t first_tracked_height) (externals t.graph)))

module _ {G : Type 0} ⦃bitcoin : Bitcoin⦄ ⦃petgraph : DiGraph HeaderInfo G⦄ where
  open petgraph use {raw_nodes, incoming, externals}

  -- The tree has the block that `n` is built on.
  abbrev pub HasParent : TreeInfo G → HeaderInfo → Type 0
  HasParent t n = (p : ℕ) × (get n.header.prev_blockhash t.index ≡ some p)

  -- A node is a root exactly when its predecessor is not in the tree.
  pub root_or_parent :
      (t : TreeInfo G) (c : ℕ) (n : HeaderInfo)
      → IsWellFormed t
      → weight t c ≡ some n
      → (0 < count c (externals t.graph)) ⊎ HasParent t n
  root_or_parent t c n wf at = elim (Bool-cases (is_empty (incoming t.graph c))) [
    | inl alone ↦
        let lt = lt-length_of_get_elem? (raw_nodes t.graph) c at in
        inl (ground (arith, petgraph.count-externals t.graph c))
    | inr linked ↦
        let (p, e) = not_empty_count (incoming t.graph c) linked in
        let (m, at', to) = wf.edges_link p c e in let same : m ≡ n = cc in inr (p, rw (← same) to)
  ]

  pub root_no_parent :
      (t : TreeInfo G) (c : ℕ) (n : HeaderInfo)
      → IsWellFormed t
      → weight t c ≡ some n
      → 0 < count c (externals t.graph)
      → ¬ HasParent t n
  root_no_parent t c n wf at root (p, to) =
      let edge = wf.links_edge p c (n, at, to) in
      let alone : is_empty (incoming t.graph c) ≡ true =
        ground (arith, petgraph.count-externals t.graph c) in
      absurd (omega (arith, is_empty_count p (incoming t.graph c) alone))

  -- In a well-formed tree there are no unexpected roots exactly when the tree has the predecessor of
  -- each of its blocks that is higher than the first tracked height.
  pub unexpected_root_count-zero :
      (t : TreeInfo G) (first_tracked_height : ℕ)
      → IsWellFormed t
      → (unexpected_root_count t first_tracked_height ≡ 0) ↔ (
          (c : ℕ) (n : HeaderInfo)
          → weight t c ≡ some n
          → first_tracked_height < n.height
          → HasParent t n)
  unfolding unexpected_root_count is_above
  unexpected_root_count-zero t first wf = (
    λ zero_roots c n at above. elim (root_or_parent t c n wf at) [
      | inr parent ↦ parent
      | inl root ↦
          let off = filter_none (is_above t first) (externals t.graph) zero_roots c root in
          absurd (ground arith)
    ],
    λ complete.
        filter_none_of (is_above t first) (externals t.graph) (λ c root. roots_low complete c root),
  )
    where
      roots_low :
          ((c : ℕ) (n : HeaderInfo) → weight t c ≡ some n → first < n.height → HasParent t n)
          → (c : ℕ) → 0 < count c (externals t.graph)
          → is_above t first c ≡ false
      roots_low complete c root = elim (Option-cases (weight t c)) [
        | inl gone ↦ ground arith
        | inr (n, at) ↦ elim (Bool-cases (ltb first n.height)) [
          | inr low ↦ ground arith
          | inl high ↦ absurd (root_no_parent t c n wf at root (complete c n at (ground arith)))
        ]
      ]

  filtered :
      (t : TreeInfo G) (first i : ℕ) (n : HeaderInfo)
      → 0 < count i (filter_by (is_above t first) (externals t.graph))
      → weight t i ≡ some n
      → (first < n.height) × (0 < count i (externals t.graph))
  unfolding is_above
  filtered t first i n m at =
      let (root, above) = count-filter_by (is_above t first) i (externals t.graph) m in
      (ground arith, root)

  weights-All :
      (t : TreeInfo G) (P : HeaderInfo → Type 0) (is : List ℕ)
      → ((i : ℕ) (n : HeaderInfo) → 0 < count i is → weight t i ≡ some n → P n)
      → All P (weights t is)
  unfolding weights
  weights-All t P [] h = tt
  weights-All t P (i ∷ is) h =
      let rest = weights-All t P is (λ j n m at. h j n (ground arith) at) in
      elim (Option-cases (weight t i)) [
        | inl gone ↦ rw (gone, weights) rest
        | inr (n, at) ↦ rw (at, weights) (h i n (ground arith) at, rest)
      ]

  length-weights :
      (t : TreeInfo G) (is : List ℕ)
      → ((i : ℕ) → 0 < count i is → i < node_count t)
      → length (weights t is) ≡ length is
  unfolding weights
  length-weights t [] h = refl
  length-weights t (i ∷ is) h =
      let (n, at) = get_elem?_of_lt (raw_nodes t.graph) i (h i (ground arith)) in
      rw (at, weights) (ap suc (length-weights t is (λ j m. h j (ground arith))))

  -- `unexpected_roots` lists as many blocks as `unexpected_root_count` counts, by ascending height,
  -- and of a well-formed tree only blocks above the first tracked height whose predecessor is missing.
  pub unexpected_roots_lem :
      (t : TreeInfo G) (first_tracked_height : ℕ)
      → IsWellFormed t
      → let roots = unexpected_roots t first_tracked_height in
        (length roots ≡ unexpected_root_count t first_tracked_height)
        × IsSortedBy (λ n. n.height) roots
        × All (λ n. (first_tracked_height < n.height) × (¬ HasParent t n)) roots
  unfolding unexpected_roots unexpected_root_count
  unexpected_roots_lem t first wf =
      let is = filter_by (is_above t first) (externals t.graph) in
      (
        length-sort_by_key (λ n. n.height) (weights t is)
            ∙ length-weights t is (λ i m.
              let (root, _) = count-filter_by (is_above t first) i (externals t.graph) m in
              ground (arith, petgraph.count-externals t.graph i)),
        sort_by_key-IsSortedBy (λ n. n.height) (weights t is),
        All-sort_by_key (λ n. n.height) _ (weights t is)
            (weights-All t _ is (λ i n m at.
              let (above, root) = filtered t first i n m at in
              (above, root_no_parent t i n wf at root))),
      )

  -- `n` has its predecessor in the tree or among the headers.
  abbrev pub ParentIn : TreeInfo G → List HeaderInfo → HeaderInfo → Type 0
  ParentIn t hs n = HasParent t n ⊎ Any (λ h. hash_of h ≡ n.header.prev_blockhash) hs

  -- Headers that close all gaps leave no unexpected root: if each block above the first tracked
  -- height, in the tree or among the headers, has its predecessor in one of the two, then after
  -- `insert_headers` there are no unexpected roots.
  pub insert_headers_repairs :
      (t t' : TreeInfo G) (changed : Bool) (new_headers : List HeaderInfo)
      (first_tracked_height : ℕ)
      → IsWellFormed t
      → NoCollision (raw_nodes t.graph) new_headers
      → ((c : ℕ) (n : HeaderInfo)
          → weight t c ≡ some n
          → first_tracked_height < n.height
          → ParentIn t new_headers n)
      → All (λ h. first_tracked_height < h.height → ParentIn t new_headers h) new_headers
      → insert_headers t new_headers ≡ some (t', changed)
      → unexpected_root_count t' first_tracked_height ≡ 0
  insert_headers_repairs t t' changed hs first wf collision old new e =
      let (t'', changed'', e'', wf'') = insert_headers-IsWellFormed t hs wf collision in
      let (same, _) = some_pair (sym e'' ∙ e) in
      let (_, from, kept, listed) = insert_headers_keeps t t' changed hs wf.indexed e in
      let parent = λ (n : HeaderInfo) (p : ParentIn t hs n). found t t' hs kept listed n p in
      (unexpected_root_count-zero t' first (subst IsWellFormed same wf'')).1 (λ c n at above.
        elim (from c n at) [
          | inl before ↦ parent n (old c n before above)
          | inr inserted ↦ parent n (
              Any_elim (λ h. first < h.height → ParentIn t hs h) (λ h. n ≡ h) hs
                (λ h p eq. rw eq (p (rw (← eq) above))) new inserted)
        ])
    where
      found :
          (t t' : TreeInfo G) (hs : List HeaderInfo)
          → ((k i : ℕ) → get k t.index ≡ some i → get k t'.index ≡ some i)
          → All (IsListed t'.index) hs
          → (n : HeaderInfo) → ParentIn t hs n
          → HasParent t' n
      found t t' hs kept listed n (inl (p, to)) = (p, kept _ p to)
      found t t' hs kept listed n (inr some_h) =
          Any_elim (IsListed t'.index) _ hs (λ h (i, at) same. (i, rw (← same) at)) listed some_h
