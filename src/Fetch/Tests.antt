-- ===== src/Fetch/Tests.antt =====
-- Fetches of src/node/shared_fetch.rs from a node with a chain of the blocks 100 to 102, into a tree that has
-- block 100. The state is the tree alone.
use reorg_playground.Prelude.{
  ℕ, Any, ◌↔◌, suc, ◌+◌, ◌-◌, ◌≤◌, ◌≡◌, ◌⊎◌, refl, true, ◌==◌, some, List, [], ◌∷◌, All, IsSortedBy,
  count, range, sort_by_key, Result, ok, err, if◌then◌else◌,
}
use reorg_playground.External.Bitcoin.{Header}
use reorg_playground.External.ListGraph.{ListGraph, list_graph}
use reorg_playground.External.SampleHashes.{sample_hashes}
use reorg_playground.Types.{HeaderInfo, TreeInfo}
use reorg_playground.Types.Tips.{ChainTip, active, valid_fork}
use reorg_playground.Node.{HeaderLocator, Action}
use reorg_playground.Node.Errors.{FetchError, data_error}
use reorg_playground.HeaderTree.Samples.{b100, b101, b102, gap_tree}
use reorg_playground.HeaderTree.Roots.{unexpected_roots, weights, is_above}
use reorg_playground.Fetch.{
  nonactive_tip_reaches_tracked_range, find_active_tip, is_active_status, by_height_loop,
  get_new_active_headers_by_height, get_new_active_headers_as_batch, Fetched, hashes_of,
  make_header_info,
}
use reorg_playground.Fetch.ByHeight.{IsNewAt, IsKnownAt, get_new_active_headers_by_height_lem}
use reorg_playground.Fetch.Ranges.{heights, concat}
use reorg_playground.Fetch.Asks.{Ask, AreAsked, IsNewOf}
use reorg_playground.Fetch.Batches.{get_new_active_headers_as_batch_lem}
use reorg_playground.Fetch.Branches.{
  branch_loop, nonactive_loop, nonactive_tips, get_new_nonactive_headers_by_hash,
}
use reorg_playground.Fetch.Branches.Links.{AreBranches, get_new_nonactive_headers_by_hash_lem}
use reorg_playground.Fetch.Repair.{
  fetch_missing_headers_for_unexpected_roots, repair_roots, ancestors_of, active_ancestors,
  branch_ancestors,
}
use reorg_playground.Fetch.Repair.Distinct.{fetch_missing_headers_for_unexpected_roots_lem}

abbrev World : Type 0
World = TreeInfo (ListGraph HeaderInfo)

abbrev start_tree : World
start_tree = record { graph = (b100, []) ∷ []; index = (1, 0) ∷ [] }

abbrev tree_of : World → World
tree_of w = w

abbrev chain_header : ℕ → Result FetchError Header
chain_header n =
    if n == 100
    then ok b100.header
    else if n == 101
    then ok b101.header
    else if n == 102
    then ok b102.header
    else err (data_error "no block")

abbrev block_header : HeaderLocator → Action World Header
block_header (HeaderLocator.height n) w = (chain_header n, w)
block_header (HeaderLocator.hash h) w = (chain_header (h + 99), w)

abbrev tip : ChainTip
tip = record { height = 102; hash = "xxx"; branchlen = 0; status = active }

tip_found : find_active_tip (tip ∷ []) ≡ ok tip
unfolding find_active_tip is_active_status
tip_found = refl

by_height_run :
    (get_new_active_headers_by_height tree_of block_header (tip ∷ []) 50 true start_tree).0
    ≡ ok (make_header_info 101 b101.header ∷ make_header_info 102 b102.header ∷ [])
unfolding get_new_active_headers_by_height find_active_tip is_active_status by_height_loop
by_height_run = refl

get_new_active_headers_by_height_lem_example :
    let headers = make_header_info 101 b101.header ∷ make_header_info 102 b102.header ∷ [] in
    let (_, after, sent) =
      get_new_active_headers_by_height tree_of block_header (tip ∷ []) 50 true start_tree in
    (k : ℕ) × (heights headers ≡ range (50 + k) (102 + 1 - 50 - k))
    × All (IsNewAt tree_of block_header) headers
    × ((k ≡ 0) ⊎ ((j : ℕ) × (k ≡ suc j) × IsKnownAt tree_of block_header (50 + j) after))
    × (true ≡ true → sort_by_key (λ h. h.height) (concat sent) ≡ headers)
get_new_active_headers_by_height_lem_example =
    get_new_active_headers_by_height_lem tree_of block_header (tip ∷ []) 50 true start_tree tip
      (make_header_info 101 b101.header ∷ make_header_info 102 b102.header ∷ []) tip_found
      by_height_run

abbrev batch : ℕ → ℕ → Action World (List Header)
batch from n w = (ok (b100.header ∷ b101.header ∷ b102.header ∷ []), w)

get_new_active_headers_as_batch_lem_example :
    (r : Fetched World (List HeaderInfo)) × (get_new_active_headers_as_batch tree_of batch
        (tip ∷ [])
        100
        true
        start_tree
      ≡ some r)
    × ((headers : List HeaderInfo)
        → r.0 ≡ ok headers
        → ((top : ChainTip) × (asks : List (Ask tree_of)) × (find_active_tip (tip ∷ []) ≡ ok top)
            × AreAsked tree_of batch 100 (top.height + 1) start_tree asks r.1
            × ((h : HeaderInfo) → Any (λ x. x ≡ h) headers ↔ Any (IsNewOf tree_of h) asks))
          × IsSortedBy (λ h. h.height) headers
          × All (λ h. 100 ≤ h.height) headers
          × (true ≡ true → sort_by_key (λ h. h.height) (concat r.2) ≡ headers))
get_new_active_headers_as_batch_lem_example =
    get_new_active_headers_as_batch_lem tree_of batch (tip ∷ []) 100 true start_tree

-- The branch ends at block 100, which the tree has.
abbrev fork_tip : ChainTip
fork_tip = record { height = 102; hash = "xxx"; branchlen = 5; status = valid_fork }

branch_run :
    (get_new_nonactive_headers_by_hash tree_of block_header
      (tip ∷ fork_tip ∷ [])
      50
      true
      start_tree).0
    ≡ ok (make_header_info 102 b102.header ∷ make_header_info 101 b101.header ∷ [])
unfolding get_new_nonactive_headers_by_hash nonactive_loop branch_loop
    nonactive_tip_reaches_tracked_range is_active_status
branch_run = refl

get_new_nonactive_headers_by_hash_lem_example :
    let headers = make_header_info 102 b102.header ∷ make_header_info 101 b101.header ∷ [] in
    let (_, _, sent) =
      get_new_nonactive_headers_by_hash tree_of block_header
        (tip ∷ fork_tip ∷ [])
        50
        true
        start_tree in
    ((branches : List (List HeaderInfo)) × (concat branches ≡ headers)
      × AreBranches tree_of block_header 50
          (nonactive_tips tree_of (tip ∷ fork_tip ∷ []) 50)
          branches)
    × (true ≡ true → concat sent ≡ headers)
get_new_nonactive_headers_by_hash_lem_example =
    get_new_nonactive_headers_by_hash_lem tree_of block_header 50 (tip ∷ fork_tip ∷ []) true
      start_tree (make_header_info 102 b102.header ∷ make_header_info 101 b101.header ∷ [])
      branch_run

-- Block 101 is missing below block 102.
repair_run :
    (fetch_missing_headers_for_unexpected_roots tree_of block_header 100 true gap_tree).0
    ≡ ok (make_header_info 101 b101.header ∷ [])
unfolding fetch_missing_headers_for_unexpected_roots repair_roots ancestors_of active_ancestors
    branch_ancestors unexpected_roots weights is_above
repair_run = refl

fetch_missing_headers_for_unexpected_roots_lem_example :
    let headers = make_header_info 101 b101.header ∷ [] in
    IsSortedBy (λ h. h.height) headers
    × ((hash : ℕ) → count hash (hashes_of headers) ≤ 1)
    × (true ≡ true
        → sort_by_key
            (λ h. h.height)
            (concat
              (fetch_missing_headers_for_unexpected_roots tree_of block_header 100 true gap_tree).2)
          ≡ headers)
fetch_missing_headers_for_unexpected_roots_lem_example =
    fetch_missing_headers_for_unexpected_roots_lem tree_of block_header 100 true gap_tree
      (make_header_info 101 b101.header ∷ []) repair_run
