-- ===== src/Fetch/Repair.antt =====
-- `fetch_missing_headers_for_unexpected_roots` of src/node/shared_fetch.rs: the headers that are missing below
-- the roots of subtrees. `loaded` is the set `loaded_hashes`.
pub mod Distinct
pub mod Hashes
pub mod Sound
use Prim.Native.String.{String, ◌++◌ as text_append}
use text.Mathlib.Text.{◌==◌ as str_eq}
use reorg_playground.Prelude.{
  ℕ, zero, suc, ◌+◌, ◌-◌, ◌==◌, leb, ltb, max, Bool, true, false, not, ◌&&◌, ◌||◌, Option, none,
  some, List, [], ◌∷◌, ◌++◌, map, length, contains_key, any_by, filter_by, is_empty, sort_by_key,
  Result, ok, err, ok_or, if◌then◌else◌,
}
use reorg_playground.External.Bitcoin.{Header, Bitcoin}
use reorg_playground.Types.{HeaderInfo, TreeInfo}
use reorg_playground.Types.Tips.{
  ChainTip, ChainTipStatus, active, invalid, valid_fork, headers_only, valid_headers, unknown,
}
use reorg_playground.Node.{Action, HeaderLocator}
use reorg_playground.Node.Errors.{FetchError, data_error, not_supported}
use reorg_playground.External.Petgraph.{DiGraph}
use reorg_playground.HeaderTree.Roots.{unexpected_roots}
use reorg_playground.Fetch.{make_header_info, send_progress_batch, Fetched, tree_contains_hash}

-- `loaded_hashes.contains(hash)`
abbrev pub is_loaded : ℕ → List ℕ → Bool
is_loaded hash loaded = any_by (λ h. h == hash) loaded

-- What a repair of one root gives: the headers, the state and the loaded hashes.
abbrev Ancestors : Type 0 → Type 0
Ancestors W = Result FetchError (List HeaderInfo) × W × List ℕ

module _ {W G : Type 0} ⦃bitcoin : Bitcoin⦄ (tree : W → TreeInfo G) where
  -- The loop of `fetch_missing_active_ancestors`, `n` heights above the first tracked one being left
  unfoldable pub active_ancestors :
      (HeaderLocator → Action W Header) → ℕ → ℕ → List ℕ → W → Ancestors W
  active_ancestors block_header first_tracked_height zero loaded w = (ok [], w, loaded)
  active_ancestors block_header first_tracked_height (suc n) loaded w =
      let height = first_tracked_height + n in
      let (result, w') = block_header (HeaderLocator.height height) w in
      elim result [
        | err e ↦ (err e, w', loaded)
        | ok header ↦
            let header_hash = bitcoin.block_hash header in
            elim (tree_contains_hash tree w' header_hash || is_loaded header_hash loaded) [
              | true ↦ (ok [], w', loaded)
              | false ↦
                  let (rest, w'', loaded') =
                    active_ancestors block_header first_tracked_height n (header_hash ∷ loaded)
                      w' in
                  elim rest [
                    | err e ↦ (err e, w'', loaded')
                    | ok headers ↦ (ok (make_header_info height header ∷ headers), w'', loaded')
                  ]
            ]
      ]

  -- The loop of `fetch_missing_branch_ancestors_by_hash`
  unfoldable pub branch_ancestors :
      (HeaderLocator → Action W Header) → ℕ → ℕ → ℕ → List ℕ → W → Ancestors W
  branch_ancestors block_header first_tracked_height zero next_hash loaded w = (ok [], w, loaded)
  branch_ancestors block_header first_tracked_height (suc n) next_hash loaded w =
      let height = first_tracked_height + n in
      elim (tree_contains_hash tree w next_hash || is_loaded next_hash loaded) [
        | true ↦ (ok [], w, loaded)
        | false ↦
            let (result, w') = block_header (HeaderLocator.hash next_hash) w in
            elim result [
              | err e ↦ (err e, w', loaded)
              | ok header ↦
                  let header_hash = bitcoin.block_hash header in
                  elim (is_loaded header_hash loaded) [
                    | true ↦ (ok [], w', loaded)
                    | false ↦
                        let (rest, w'', loaded') =
                          branch_ancestors block_header first_tracked_height n header.prev_blockhash
                            (header_hash ∷ loaded) w' in
                        elim rest [
                          | err e ↦ (err e, w'', loaded')
                          | ok headers ↦
                              (ok (make_header_info height header ∷ headers), w'', loaded')
                        ]
                  ]
            ]
      ]

  -- The error that is taken for no headers: the backend cannot look a header up by its hash.
  abbrev is_hash_unsupported : FetchError → Bool
  is_hash_unsupported (not_supported node operation) = str_eq operation "block_header(hash)"
  is_hash_unsupported _ = false

  abbrev unless_unsupported : Ancestors W → Ancestors W
  unless_unsupported (ok headers, w, loaded) = (ok headers, w, loaded)
  unless_unsupported (err e, w, loaded) =
      if is_hash_unsupported e then (ok [], w, loaded) else (err e, w, loaded)

  -- The headers for one root
  unfoldable pub ancestors_of :
      (HeaderLocator → Action W Header) → ℕ → HeaderInfo → List ℕ → W → Ancestors W
  ancestors_of block_header first_tracked_height unexpected_root loaded w =
      let (result, w') = block_header (HeaderLocator.height unexpected_root.height) w in
      elim result [
        | err e ↦ (err e, w', loaded)
        | ok active_header ↦
            elim (bitcoin.block_hash active_header == bitcoin.block_hash unexpected_root.header) [
              | true ↦
                  active_ancestors block_header first_tracked_height
                    (unexpected_root.height - first_tracked_height) loaded w'
              | false ↦ unless_unsupported (
                  branch_ancestors block_header first_tracked_height
                    (unexpected_root.height - first_tracked_height)
                    unexpected_root.header.prev_blockhash loaded w')
            ]
      ]

  unfoldable pub repair_roots :
      (HeaderLocator → Action W Header)
      → ℕ
      → Bool
      → List HeaderInfo
      → List ℕ
      → W
      → Fetched W (List HeaderInfo)
  repair_roots block_header first_tracked_height listening [] loaded w = (ok [], w, [])
  repair_roots block_header first_tracked_height listening (root ∷ roots) loaded w =
      let (result, w', loaded') = ancestors_of block_header first_tracked_height root loaded w in
      elim result [
        | err e ↦ (err e, w', [])
        | ok found ↦
            let headers_for_root = sort_by_key (λ h. h.height) found in
            let sent = send_progress_batch listening headers_for_root in
            let (rest, w'', more) =
              repair_roots block_header first_tracked_height listening roots loaded' w' in
            elim rest [
              | err e ↦ (err e, w'', sent ++ more)
              | ok headers ↦ (ok (headers_for_root ++ headers), w'', sent ++ more)
            ]
      ]

module _ {W G : Type 0} ⦃bitcoin : Bitcoin⦄ ⦃petgraph : DiGraph HeaderInfo G⦄
    (tree : W → TreeInfo G) where
  unfoldable pub fetch_missing_headers_for_unexpected_roots :
      (HeaderLocator → Action W Header) → ℕ → Bool → W → Fetched W (List HeaderInfo)
  fetch_missing_headers_for_unexpected_roots block_header first_tracked_height listening w =
      let (result, w', sent) =
        repair_roots tree block_header first_tracked_height listening
          (unexpected_roots (tree w) first_tracked_height) [] w in
      elim result [
        | err e ↦ (err e, w', sent)
        | ok new_headers ↦ (ok (sort_by_key (λ h. h.height) new_headers), w', sent)
      ]
