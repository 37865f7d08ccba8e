-- ===== src/HeaderTree/Heights.antt =====
-- Statements on `sorted_interesting_heights` of src/headertree.rs.
use reorg_playground.Prelude.{
  count-take, length-take, length-filter_by, length-range, count-range, filter_by-count, ℕ, ◌+◌,
  ◌-◌, ◌≤◌, ◌<◌, max, ◌≡◌, ◌↔◌, ◌⊎◌, inl, inr, true, ◌==◌, leb, List, [], ◌∷◌, map, arith, length,
  take, filter_by, count, range, Map, contains_key, sort_by_key, insert_number, insert_numbers,
  count_entry, IsAscending, count-insert_numbers, length-insert_numbers, insert_numbers-IsAscending,
  contains_key-count_entry, Bool-cases, List-cases, ==_iff, leb→le, count-sort, count-filter_by,
}
use reorg_playground.External.Petgraph.{DiGraph}
use reorg_playground.Types.{HeaderInfo, TreeInfo}
use reorg_playground.HeaderTree.Hotspots.{
  count_heights, max_key, fork_heights, reverse_onto, window_start, window_heights, hotspot_heights,
  sorted_interesting_heights,
}

-- The tree has a block at the height.
abbrev pub IsHeight : ℕ → List HeaderInfo → Type 0
IsHeight h nodes = 0 < count h (map (λ n. n.height) nodes)

contains_key-count_heights :
    (h : ℕ) (nodes : List HeaderInfo) (entries : Map ℕ)
    → contains_key h (count_heights nodes entries) ≡ true
    → IsHeight h nodes ⊎ (contains_key h entries ≡ true)
unfolding count_heights
contains_key-count_heights h [] entries e = inr e
contains_key-count_heights h (node ∷ nodes) entries e =
    let step = contains_key-count_entry h node.height entries in
    elim (contains_key-count_heights h nodes (count_entry node.height entries) e) [
      | inl later ↦ inl (ground arith)
      | inr now ↦ ground arith
    ]

contains_key-of_height :
    (h : ℕ) (nodes : List HeaderInfo) (entries : Map ℕ)
    → IsHeight h nodes ⊎ (contains_key h entries ≡ true)
    → contains_key h (count_heights nodes entries) ≡ true
unfolding count_heights
contains_key-of_height h [] entries (inl none) = absurd (omega arith)
contains_key-of_height h [] entries (inr e) = e
contains_key-of_height h (node ∷ nodes) entries has =
    let step = contains_key-count_entry h node.height entries in
    contains_key-of_height h nodes (count_entry node.height entries) (ground arith)

count-reverse_onto :
    (a : ℕ) (xs ys : List ℕ) → count a (reverse_onto xs ys) ≡ count a xs + count a ys
count-reverse_onto a [] ys = omega arith
count-reverse_onto a (x ∷ xs) ys = ground (arith, count-reverse_onto a xs (x ∷ ys))

le-max_key : (h : ℕ) (entries : Map ℕ) → contains_key h entries ≡ true → h ≤ max_key entries
le-max_key h [] e = absurd (cc)
le-max_key h ((k, n) ∷ entries) e = ground (arith, le-max_key h entries)

contains_key-max :
    (k n m : ℕ) (entries : Map ℕ)
    → contains_key m entries ≡ true
    → contains_key (max k m) ((k, n) ∷ entries) ≡ true
contains_key-max k n m entries e = elim (Bool-cases (leb m k)) [
  | inl le ↦
      let below = leb→le m k le in let top : max k m ≡ k = omega arith in rw top (ground arith)
  | inr gt ↦
      let above : k < m = ground arith in
      let top : max k m ≡ m = omega arith in rw top (ground arith)
]

contains_key-max_key :
    (h : ℕ) (entries : Map ℕ)
    → contains_key h entries ≡ true
    → contains_key (max_key entries) entries ≡ true
contains_key-max_key h [] e = e
contains_key-max_key h ((k, n) ∷ []) e = ground arith
contains_key-max_key h ((k, n) ∷ (j, m) ∷ entries) e =
    contains_key-max k n (max_key ((j, m) ∷ entries)) ((j, m) ∷ entries)
      (contains_key-max_key j ((j, m) ∷ entries) (ground arith))

-- What is selected from the counted heights
abbrev selected : Map ℕ → ℕ → ℕ → ℕ → List ℕ → List ℕ
selected entries visible extra first tip_heights =
    let top = max_key entries in
    insert_numbers (take extra (hotspot_heights entries top tip_heights first))
      (insert_numbers (window_heights entries (window_start top visible first) top) [])

count-hotspot_heights :
    (h : ℕ) (entries : Map ℕ) (top : ℕ) (tips : List ℕ) (first : ℕ)
    → 0 < count h (hotspot_heights entries top tips first)
    → (contains_key h entries ≡ true) × (first ≤ h)
unfolding hotspot_heights
count-hotspot_heights h entries top tips first m =
    let candidates =
      insert_number top (insert_numbers tips (insert_numbers (fork_heights entries) [])) in
    let low = filter_by (λ h. leb first h) candidates in
    let here = filter_by (λ h. contains_key h entries) low in
    let turned = count-reverse_onto h (sort_by_key (λ n. n) here) [] in
    let sorted = count-sort h here in
    let (m', known) = count-filter_by (λ h. contains_key h entries) h low (ground arith) in
    let (_, from) = count-filter_by (λ h. leb first h) h candidates m' in
    (known, leb→le first h from)

count-window_heights :
    (h : ℕ) (entries : Map ℕ) (start top : ℕ)
    → (0 < count h (window_heights entries start top))
      ↔ ((contains_key h entries ≡ true) × (start ≤ h) × (h ≤ top))
unfolding window_heights
count-window_heights h entries start top =
    let within = count-range h start (top + 1 - start) in
    (
      λ m.
          let (m', known) =
            count-filter_by (λ h. contains_key h entries) h (range start (top + 1 - start)) m in
          let (low, high) = within.0 m' in (known, low, omega arith),
      λ (known, low, high).
          filter_by-count (λ h. contains_key h entries) h (range start (top + 1 - start))
            (within.1 (low, omega arith)) known,
    )

selected_lem :
    (entries : Map ℕ) (visible extra first : ℕ) (tips : List ℕ)
    → 0 < visible
    → IsAscending (selected entries visible extra first tips)
      × (length (selected entries visible extra first tips) ≤ visible + extra)
      × ((h : ℕ)
          → 0 < count h (selected entries visible extra first tips)
          → (contains_key h entries ≡ true) × (first ≤ h))
      × ((h : ℕ)
          → contains_key h entries ≡ true
          → first ≤ h
          → max_key entries < h + visible
          → 0 < count h (selected entries visible extra first tips))
unfolding window_start window_heights
selected_lem entries visible extra first tips some_visible =
    let top = max_key entries in
    let start = window_start top visible first in
    let hot = hotspot_heights entries top tips first in
    let window = insert_numbers (window_heights entries start top) [] in
    let long = length-insert_numbers (take extra hot) window in
    let wide = length-insert_numbers (window_heights entries start top) [] in
    let ranged = length-range start (top + 1 - start) in
    let filtered = length-filter_by (λ h. contains_key h entries) (range start (top + 1 - start)) in
    let few = length-take extra hot in
    (
      insert_numbers-IsAscending (take extra hot) window
          (insert_numbers-IsAscending (window_heights entries start top) [] tt),
      omega arith,
      λ h m. elim ((count-insert_numbers h (take extra hot) window).0 m) [
        | inl spot ↦ count-hotspot_heights h entries top tips first (count-take h extra hot spot)
        | inr windowed ↦
            elim ((count-insert_numbers h (window_heights entries start top) []).0 windowed) [
              | inr nowhere ↦ absurd (omega arith)
              | inl inside ↦
                  let (known, low, high) = (count-window_heights h entries start top).0 inside in
                  (known, omega arith)
            ]
      ],
      λ h known low near.
          let high = le-max_key h entries known in
          (count-insert_numbers h (take extra hot) window).1 (
            inr (
              (count-insert_numbers h (window_heights entries start top) []).1
                (inl ((count-window_heights h entries start top).1 (known, omega arith, high))))),
    )

module _ {G : Type 0} ⦃petgraph : DiGraph HeaderInfo G⦄ where
  open petgraph use {raw_nodes}

  -- The heights are ascending and not more than `visible_heights_from_tip` and `extra_hotspot_heights`
  -- together. The tree has a block at each of them, and none is below the first tracked height. Each height of
  -- the tree from that one on, from which no block of the tree is `visible_heights_from_tip` or more higher, is
  -- among them.
  pub sorted_interesting_heights_lem :
      (t : TreeInfo G) (visible extra first : ℕ) (tip_heights : List ℕ)
      → let heights = sorted_interesting_heights t visible extra first tip_heights in
        IsAscending heights
        × (length heights ≤ visible + extra)
        × ((h : ℕ) → 0 < count h heights → IsHeight h (raw_nodes t.graph) × (first ≤ h))
        × ((h : ℕ)
            → IsHeight h (raw_nodes t.graph)
            → first ≤ h
            → ((g : ℕ) → IsHeight g (raw_nodes t.graph) → g < h + visible)
            → 0 < count h heights)
  unfolding sorted_interesting_heights
  sorted_interesting_heights_lem t visible extra first tips =
      let nodes = raw_nodes t.graph in
      elim (List-cases nodes) [
        | inl nothing ↦
            rw (nothing, sorted_interesting_heights)
              (tt, omega arith, λ h m. absurd (omega arith), λ h m low top. m)
        | inr (node, rest, some_node) ↦ elim (Bool-cases (visible == 0)) [
          | inl closed ↦
              let none_visible : visible ≡ 0 = (==_iff visible 0).0 closed in
              rw (some_node, closed, sorted_interesting_heights)
                (
                  tt,
                  omega arith,
                  λ h m. absurd (omega arith),
                  λ h m low near. let less = near h m in absurd (omega arith),
                )
          | inr open_window ↦
              let entries = count_heights (node ∷ rest) [] in
              let (ascending, short, sound, complete) =
                selected_lem entries visible extra first tips (ground arith) in
              let known =
                contains_key-of_height node.height (node ∷ rest) [] (inl (ground arith)) in
              let top =
                counted (max_key entries) (node ∷ rest)
                  (contains_key-max_key node.height entries known) in
              rw (some_node, open_window, sorted_interesting_heights)
                (
                  ascending,
                  short,
                  λ h m. let (here, low) = sound h m in (counted h (node ∷ rest) here, low),
                  λ h m low near.
                      complete h (contains_key-of_height h (node ∷ rest) [] (inl m)) low
                        (near (max_key entries) top),
                )
        ]
      ]
    where
      counted :
          (h : ℕ) (nodes : List HeaderInfo)
          → contains_key h (count_heights nodes []) ≡ true
          → IsHeight h nodes
      counted h nodes e = elim (contains_key-count_heights h nodes [] e) [
        | inl here ↦ here
        | inr nowhere ↦ absurd (cc)
      ]
