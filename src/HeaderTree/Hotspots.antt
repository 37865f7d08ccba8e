-- ===== src/HeaderTree/Hotspots.antt =====
-- `sorted_interesting_heights` of src/headertree.rs: the heights that are shown.
use reorg_playground.Prelude.{
  ℕ, ◌+◌, ◌-◌, max, ◌==◌, leb, ltb, List, [], ◌∷◌, take, filter_by, range, Map, contains_key,
  sort_by_key, insert_number, insert_numbers, count_entry, if◌then◌else◌, is_empty,
}
use reorg_playground.External.Petgraph.{DiGraph}
use reorg_playground.Types.{HeaderInfo, TreeInfo}

-- The first loop: how many blocks there are at each height
unfoldable pub count_heights : List HeaderInfo → Map ℕ → Map ℕ
count_heights [] entries = entries
count_heights (node ∷ nodes) entries = count_heights nodes (count_entry node.height entries)

-- `keys().max()`, with 0 on no keys, where the code panics; there is a block.
abbrev pub max_key : Map ℕ → ℕ
max_key [] = 0
max_key ((h, n) ∷ entries) = max h (max_key entries)

-- The keys of the entries with more than one block
abbrev pub fork_heights : Map ℕ → List ℕ
fork_heights [] = []
fork_heights ((h, n) ∷ entries) = if ltb 1 n then h ∷ fork_heights entries else fork_heights entries

abbrev pub reverse_onto : List ℕ → List ℕ → List ℕ
reverse_onto [] ys = ys
reverse_onto (x ∷ xs) ys = reverse_onto xs (x ∷ ys)

-- `sort_unstable_by(|a, b| b.cmp(a))`
abbrev sort_descending : List ℕ → List ℕ
sort_descending xs = reverse_onto (sort_by_key (λ n. n) xs) []

unfoldable pub window_start : ℕ → ℕ → ℕ → ℕ
window_start max_height visible_heights_from_tip first_tracked_height =
    max (max_height - (visible_heights_from_tip - 1)) first_tracked_height

-- The heights of the window that the tree has
unfoldable pub window_heights : Map ℕ → ℕ → ℕ → List ℕ
window_heights entries start max_height =
    filter_by (λ h. contains_key h entries) (range start (max_height + 1 - start))

-- The hotspots, the highest first
unfoldable pub hotspot_heights : Map ℕ → ℕ → List ℕ → ℕ → List ℕ
hotspot_heights entries max_height tip_heights first_tracked_height =
    let candidates =
      insert_number max_height
        (insert_numbers tip_heights (insert_numbers (fork_heights entries) [])) in
    sort_descending (
      filter_by (λ h. contains_key h entries)
        (filter_by (λ h. leb first_tracked_height h) candidates))

module _ {G : Type 0} ⦃petgraph : DiGraph HeaderInfo G⦄ where
  open petgraph use {raw_nodes}

  unfoldable pub sorted_interesting_heights : TreeInfo G → ℕ → ℕ → ℕ → List ℕ → List ℕ
  sorted_interesting_heights t visible_heights_from_tip extra_hotspot_heights first_tracked_height
        tip_heights =
      if is_empty (raw_nodes t.graph)
      then []
      else if visible_heights_from_tip == 0
      then []
      else let entries = count_heights (raw_nodes t.graph) [] in
        let max_height = max_key entries in
        let start = window_start max_height visible_heights_from_tip first_tracked_height in
        let window = insert_numbers (window_heights entries start max_height) [] in
        insert_numbers
          (take extra_hotspot_heights
            (hotspot_heights entries max_height tip_heights first_tracked_height))
          window
