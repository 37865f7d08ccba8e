-- ===== src/Metrics/Counting.antt =====
-- Counting the headers in a range of heights (src/metrics.rs): a chain of blocks whose heights rise
-- has no more blocks than the tree has headers in its range.
use reorg_playground.Prelude.{
  ℕ, zero, suc, ◌≤◌, ◌<◌, ◌≡◌, some, List, [], ◌∷◌, arith, get_elem?, length, filter_by, leb, ◌&&◌,
  get_elem?_of_lt, Bool, false, ◌+◌, ◌↔◌, refl, ap, subst, some_eq, count, if◌then◌else◌,
}
use reorg_playground.External.Petgraph.{DiGraph}
use reorg_playground.Types.{HeaderInfo, TreeInfo}
use reorg_playground.HeaderTree.{node_count, weight}
use reorg_playground.Metrics.{height_of, count_headers_in_height_range}

abbrev in_range : ℕ → ℕ → HeaderInfo → Bool
in_range lo hi node = leb lo node.height && leb node.height hi

abbrev count_range : ℕ → ℕ → List HeaderInfo → ℕ
count_range lo hi nodes = length (filter_by (in_range lo hi) nodes)

count_range_mono :
    (lo lo' hi hi' : ℕ) (nodes : List HeaderInfo)
    → lo' ≤ lo
    → hi ≤ hi'
    → count_range lo hi nodes ≤ count_range lo' hi' nodes
count_range_mono lo lo' hi hi' [] h k = omega arith
count_range_mono lo lo' hi hi' (n ∷ nodes) h k =
    ground (arith, count_range_mono lo lo' hi hi' nodes h k)

-- A wider range that has one more block counts at least one more header.
count_range_more :
    (lo lo' hi hi' i : ℕ) (nodes : List HeaderInfo) {n : HeaderInfo}
    → get_elem? nodes i ≡ some n
    → lo' ≤ lo
    → hi ≤ hi'
    → lo' ≤ n.height
    → n.height ≤ hi'
    → in_range lo hi n ≡ false
    → count_range lo hi nodes < count_range lo' hi' nodes
count_range_more lo lo' hi hi' i [] at h k above below out = absurd (cc)
count_range_more lo lo' hi hi' zero (m ∷ nodes) at h k above below out =
    ground (arith, count_range_mono lo lo' hi hi' nodes h k)
count_range_more lo lo' hi hi' (suc i) (m ∷ nodes) at h k above below out =
    ground (arith, count_range_more lo lo' hi hi' i nodes at h k above below out)

count_range_hit :
    (lo hi i : ℕ) (nodes : List HeaderInfo) {n : HeaderInfo}
    → get_elem? nodes i ≡ some n
    → lo ≤ n.height
    → n.height ≤ hi
    → 0 < count_range lo hi nodes
count_range_hit lo hi i [] at above below = absurd (cc)
count_range_hit lo hi zero (m ∷ nodes) at above below = ground arith
count_range_hit lo hi (suc i) (m ∷ nodes) at above below =
    ground (arith, count_range_hit lo hi i nodes at above below)

-- The places of the headers in the range
abbrev places : ℕ → ℕ → ℕ → List HeaderInfo → List ℕ
places lo hi i [] = []
places lo hi i (n ∷ nodes) =
    let rest = places lo hi (suc i) nodes in if in_range lo hi n then i ∷ rest else rest

length-places :
    (lo hi i : ℕ) (nodes : List HeaderInfo)
    → length (places lo hi i nodes) ≡ count_range lo hi nodes
length-places lo hi i [] = refl
length-places lo hi i (n ∷ nodes) = ground (arith, length-places lo hi (suc i) nodes)

places_below :
    (lo hi i : ℕ) (nodes : List HeaderInfo) (c : ℕ) → c < i → count c (places lo hi i nodes) ≡ 0
places_below lo hi i [] c h = refl
places_below lo hi i (n ∷ nodes) c h = ground (arith, places_below lo hi (suc i) nodes c)

-- Each place of a header in the range is there once, and no other.
abbrev IsPlace : ℕ → ℕ → ℕ → List HeaderInfo → ℕ → Type 0
IsPlace lo hi i nodes c =
    (count (i + c) (places lo hi i nodes) ≤ 1)
    × ((0 < count (i + c) (places lo hi i nodes))
        ↔ ((n : HeaderInfo) × (get_elem? nodes c ≡ some n) × (lo ≤ n.height) × (n.height ≤ hi)))

places_lem : (lo hi i : ℕ) (nodes : List HeaderInfo) (c : ℕ) → IsPlace lo hi i nodes c
places_lem lo hi i [] c =
    (omega arith, (λ h. absurd (omega arith), λ (n, at, low, high). absurd (cc)))
places_lem lo hi i (n ∷ nodes) zero =
    let fresh = places_below lo hi (suc i) nodes (i + 0) (omega arith) in
    (
      ground (arith, fresh),
      (
        λ h. (n, refl, ground (arith, fresh), ground (arith, fresh)),
        λ (m, at, low, high).
            let same : n ≡ m = some_eq at in ground (arith, ap (λ x. x.height) same),
      ),
    )
places_lem lo hi i (n ∷ nodes) (suc c) =
    let e : i + suc c ≡ suc i + c = omega arith in
    let (once, (from, to)) = places_lem lo hi (suc i) nodes c in
    let same : count (i + suc c) (places lo hi i (n ∷ nodes))
        ≡ count (suc i + c) (places lo hi (suc i) nodes) =
      ground (arith, ap (λ k. count k (places lo hi (suc i) nodes)) e) in
    rw same (once, (from, to))

module _ {G : Type 0} ⦃petgraph : DiGraph HeaderInfo G⦄ where
  open petgraph use {raw_nodes}

  -- The blocks of the tree between two heights, each once
  abbrev pub AreBlocksBetween : TreeInfo G → ℕ → ℕ → List ℕ → Type 0
  AreBlocksBetween t lo hi blocks =
      (i : ℕ)
      → (count i blocks ≤ 1)
        × ((0 < count i blocks)
            ↔ ((n : HeaderInfo) × (weight t i ≡ some n) × (lo ≤ n.height) × (n.height ≤ hi)))

  -- The headers that are counted are the blocks of the tree between the heights.
  pub count_headers_in_height_range_lem :
      (t : TreeInfo G) (lo hi : ℕ)
      → (blocks : List ℕ) × AreBlocksBetween t lo hi blocks
        × (length blocks ≡ count_headers_in_height_range t lo hi)
  unfolding count_headers_in_height_range
  count_headers_in_height_range_lem t lo hi = (
    places lo hi 0 (raw_nodes t.graph),
    λ i.
        let e : 0 + i ≡ i = omega arith in
        subst
          (λ k.
            (count k (places lo hi 0 (raw_nodes t.graph)) ≤ 1)
            × ((0 < count k (places lo hi 0 (raw_nodes t.graph)))
                ↔ ((n : HeaderInfo) × (weight t i ≡ some n) × (lo ≤ n.height) × (n.height ≤ hi))))
          e (places_lem lo hi 0 (raw_nodes t.graph) i),
    length-places lo hi 0 (raw_nodes t.graph),
  )

  -- One more block at the upper end.
  pub count_above :
      (t : TreeInfo G) (start p c : ℕ)
      → c < node_count t
      → start ≤ height_of t p
      → height_of t p < height_of t c
      → count_headers_in_height_range t start (height_of t p)
        < count_headers_in_height_range t start (height_of t c)
  unfolding count_headers_in_height_range height_of
  count_above t start p c inside low rise =
      let (n, at) = get_elem?_of_lt (raw_nodes t.graph) c inside in
      let hc : height_of t c ≡ n.height = ground arith in
      count_range_more start start (height_of t p) (height_of t c) c (raw_nodes t.graph) at
        (omega arith) (omega arith) (omega arith) (omega arith) (ground arith)

  -- One more block at the lower end.
  pub count_below :
      (t : TreeInfo G) (p c end : ℕ)
      → p < node_count t
      → height_of t p < height_of t c
      → height_of t c ≤ end
      → count_headers_in_height_range t (height_of t c) end
        < count_headers_in_height_range t (height_of t p) end
  unfolding count_headers_in_height_range height_of
  count_below t p c end inside rise high =
      let (n, at) = get_elem?_of_lt (raw_nodes t.graph) p inside in
      let hp : height_of t p ≡ n.height = ground arith in
      count_range_more (height_of t c) (height_of t p) end end p (raw_nodes t.graph) at
        (omega arith) (omega arith) (omega arith) (omega arith) (ground arith)

  -- A block counts itself.
  pub count_self :
      (t : TreeInfo G) (c : ℕ)
      → c < node_count t
      → 0 < count_headers_in_height_range t (height_of t c) (height_of t c)
  unfolding count_headers_in_height_range height_of
  count_self t c inside =
      let (n, at) = get_elem?_of_lt (raw_nodes t.graph) c inside in
      let hc : height_of t c ≡ n.height = ground arith in
      count_range_hit (height_of t c) (height_of t c) c (raw_nodes t.graph) at (omega arith)
        (omega arith)
