-- ===== src/HeaderTree/Forks.antt =====
-- `recent_forks` of src/headertree.rs. petgraph's depth-first search is an argument: it gives the nodes that
-- `Dfs::new(graph, root)` visits, in its order.
pub mod Found
use reorg_playground.Prelude.{
  some_eq, zero, ℕ, suc, ◌≤◌, ◌<◌, ◌≡◌, refl, sym, ap, ◌∙◌, inl, inr, ltb, ltb→lt, none, some, List,
  [], ◌∷◌, ◌++◌, arith, length, take, All, All-sort_by_key, count, IsSortedBy,
  sort_by_key-IsSortedBy, sort_by_key, Option-cases, Bool-cases, if◌then◌else◌,
}
use reorg_playground.External.Bitcoin.{Bitcoin}
use reorg_playground.External.Petgraph.{DiGraph}
use reorg_playground.Types.{HeaderInfo, TreeInfo, Fork}
use reorg_playground.HeaderTree.{hash_of, weight}
use reorg_playground.HeaderTree.Insert.{IsWellFormed}
use reorg_playground.HeaderTree.Roots.{weights}

abbrev pub reverse_forks : List Fork → List Fork → List Fork
reverse_forks [] ys = ys
reverse_forks (x ∷ xs) ys = reverse_forks xs (x ∷ ys)

module _ {G : Type 0} ⦃petgraph : DiGraph HeaderInfo G⦄ where
  open petgraph use {outgoing, externals}

  -- The loop over the nodes that the search visits
  unfoldable pub forks_among : TreeInfo G → List ℕ → List Fork
  unfolding weights
  forks_among t [] = []
  forks_among t (idx ∷ idxs) = elim (weight t idx) [
    | none ↦ forks_among t idxs
    | some common ↦
        if ltb 1 (length (outgoing t.graph idx))
        then record { common = common; children = weights t (outgoing t.graph idx) }
          ∷ forks_among t idxs
        else forks_among t idxs
  ]

  -- The loop over the roots
  unfoldable pub forks_below : (G → ℕ → List ℕ) → TreeInfo G → List ℕ → List Fork
  forks_below dfs t [] = []
  forks_below dfs t (root ∷ roots) = forks_among t (dfs t.graph root) ++ forks_below dfs t roots

  unfoldable pub recent_forks : (G → ℕ → List ℕ) → TreeInfo G → ℕ → List Fork
  recent_forks dfs t how_many = take how_many (
      reverse_forks (sort_by_key (λ f. f.common.height) (forks_below dfs t (externals t.graph))) [])

abbrev pub IsNewestFirst : List Fork → Type 0
IsNewestFirst [] = Unit
IsNewestFirst (f ∷ fs) = All (λ g. g.common.height ≤ f.common.height) fs × IsNewestFirst fs

pub reverse_forks-IsNewestFirst :
    (xs ys : List Fork)
    → IsSortedBy (λ f. f.common.height) xs
    → IsNewestFirst ys
    → All (λ x. All (λ y. y.common.height ≤ x.common.height) ys) xs
    → IsNewestFirst (reverse_forks xs ys)
reverse_forks-IsNewestFirst [] ys s n below = n
reverse_forks-IsNewestFirst (x ∷ xs) ys s n below =
    reverse_forks-IsNewestFirst xs (x ∷ ys) s.1 (below.0, n) (both xs s.0 below.1)
  where
    both :
        (zs : List Fork)
        → All (λ z. x.common.height ≤ z.common.height) zs
        → All (λ z. All (λ y. y.common.height ≤ z.common.height) ys) zs
        → All (λ z. All (λ y. y.common.height ≤ z.common.height) (x ∷ ys)) zs
    both [] a b = tt
    both (z ∷ zs) a b = ((a.0, b.0), both zs a.1 b.1)

pub All-reverse_forks :
    (P : Fork → Type 0) (xs ys : List Fork) → All P xs → All P ys → All P (reverse_forks xs ys)
All-reverse_forks P [] ys a b = b
All-reverse_forks P (x ∷ xs) ys a b = All-reverse_forks P xs (x ∷ ys) a.1 (a.0, b)

pub All-take : (P : Fork → Type 0) (n : ℕ) (xs : List Fork) → All P xs → All P (take n xs)
All-take P zero xs a = tt
All-take P (suc n) [] a = tt
All-take P (suc n) (x ∷ xs) a = (a.0, All-take P n xs a.1)

pub take-IsNewestFirst : (n : ℕ) (xs : List Fork) → IsNewestFirst xs → IsNewestFirst (take n xs)
take-IsNewestFirst zero xs s = tt
take-IsNewestFirst (suc n) [] s = tt
take-IsNewestFirst (suc n) (x ∷ xs) s = (All-take _ n xs s.0, take-IsNewestFirst n xs s.1)

pub length-take_forks : (n : ℕ) (xs : List Fork) → length (take n xs) ≤ n
length-take_forks zero xs = omega arith
length-take_forks (suc n) [] = omega arith
length-take_forks (suc n) (x ∷ xs) = omega (arith, length-take_forks n xs)

pub nothing_below :
    (xs : List Fork)
    → All (λ (x : Fork). All (λ (y : Fork). y.common.height ≤ x.common.height) []) xs
nothing_below [] = tt
nothing_below (x ∷ xs) = (tt, nothing_below xs)

All-append_forks : (P : Fork → Type 0) (xs ys : List Fork) → All P xs → All P ys → All P (xs ++ ys)
All-append_forks P [] ys a b = b
All-append_forks P (x ∷ xs) ys a b = (a.0, All-append_forks P xs ys a.1 b)

module _ ⦃bitcoin : Bitcoin⦄ where
  -- A block with more than one block built on it
  abbrev pub IsFork : Fork → Type 0
  IsFork fork =
      (1 < length fork.children)
      × All (λ child. child.header.prev_blockhash ≡ hash_of fork.common) fork.children

module _ {G : Type 0} ⦃bitcoin : Bitcoin⦄ ⦃petgraph : DiGraph HeaderInfo G⦄ where
  open petgraph use {outgoing, externals}

  children_lem :
      (t : TreeInfo G) (p : ℕ) (common : HeaderInfo) (cs : List ℕ)
      → IsWellFormed t
      → weight t p ≡ some common
      → ((c : ℕ) → 0 < count c cs → 0 < count c (outgoing t.graph p))
      → (length (weights t cs) ≡ length cs)
        × All (λ child. child.header.prev_blockhash ≡ hash_of common) (weights t cs)
  unfolding weights
  children_lem t p common [] wf at some_of = (refl, tt)
  children_lem t p common (c ∷ cs) wf at some_of =
      let edge = some_of c (ground arith) in
      let same = petgraph.outgoing-incoming t.graph p c in
      let (n, child, to) = wf.edges_link p c (omega arith) in
      let (m, parent, hash) = wf.indexed.index_sound n.header.prev_blockhash p to in
      let (len, rest) = children_lem t p common cs wf at (λ d h. some_of d (ground arith)) in
      let here : weight t c ≡ some n = child in
      let same_parent : m ≡ common = some_eq (sym parent ∙ at) in
      rw (here, weights) (ap suc len, (sym hash ∙ ap hash_of same_parent, rest))

  -- A fork at a block of the tree
  abbrev pub IsForkOf : TreeInfo G → Fork → Type 0
  IsForkOf t fork = IsFork fork × ((i : ℕ) × (weight t i ≡ some fork.common))

  forks_among_lem :
      (t : TreeInfo G) (idxs : List ℕ) → IsWellFormed t → All (IsForkOf t) (forks_among t idxs)
  unfolding forks_among
  forks_among_lem t [] wf = tt
  forks_among_lem t (idx ∷ idxs) wf = elim (Option-cases (weight t idx)) [
    | inl nowhere ↦ rw (nowhere, forks_among) (forks_among_lem t idxs wf)
    | inr (common, at) ↦ elim (Bool-cases (ltb 1 (length (outgoing t.graph idx)))) [
      | inr straight ↦ rw (at, straight, forks_among) (forks_among_lem t idxs wf)
      | inl split ↦
          let (len, children) = children_lem t idx common (outgoing t.graph idx) wf at (λ c h. h) in
          rw (at, split, forks_among)
            (((omega (arith, ltb→lt 1 _ split), children), (idx, at)), forks_among_lem t idxs wf)
    ]
  ]

  pub forks_below_lem :
      (dfs : G → ℕ → List ℕ) (t : TreeInfo G) (roots : List ℕ)
      → IsWellFormed t
      → All (IsForkOf t) (forks_below dfs t roots)
  unfolding forks_below
  forks_below_lem dfs t [] wf = tt
  forks_below_lem dfs t (root ∷ roots) wf =
      All-append_forks (IsForkOf t) (forks_among t (dfs t.graph root)) _
        (forks_among_lem t (dfs t.graph root) wf) (forks_below_lem dfs t roots wf)
