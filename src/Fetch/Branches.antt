-- ===== src/Fetch/Branches.antt =====
-- `get_new_nonactive_headers_by_hash` of src/node/shared_fetch.rs. The error for a hash that cannot be read ends
-- here before the text of the library's error.
pub mod Links
use Prim.Native.String.{◌++◌ as text_append}
use reorg_playground.Prelude.{
  ℕ, zero, suc, ◌+◌, ◌-◌, ltb, Bool, true, false, not, none, some, List, [], ◌∷◌, ◌++◌, filter_by,
  Result, ok, err,
}
use reorg_playground.External.Bitcoin.{Header, Bitcoin}
use reorg_playground.Types.{HeaderInfo, TreeInfo}
use reorg_playground.Types.Tips.{ChainTip}
use reorg_playground.Node.{Action, HeaderLocator}
use reorg_playground.Node.Errors.{FetchError, data_error}
use reorg_playground.Fetch.{
  make_header_info, nonactive_tip_reaches_tracked_range, is_active_status, send_progress_batch,
  Fetched, tree_contains_hash,
}

module _ {W G : Type 0} ⦃bitcoin : Bitcoin⦄ (tree : W → TreeInfo G) where
  -- The loop over a branch in `get_new_nonactive_headers_by_hash`, from index `i` on, `n` indices being left
  unfoldable pub branch_loop :
      (HeaderLocator → Action W Header)
      → ℕ
      → ℕ
      → ℕ
      → ℕ
      → ℕ
      → W
      → Result FetchError (List HeaderInfo) × W
  branch_loop block_header first_tracked_height tip_height i zero next_hash w = (ok [], w)
  branch_loop block_header first_tracked_height tip_height i (suc n) next_hash w =
      let height = tip_height - i in
      elim (ltb height first_tracked_height) [
        | true ↦ (ok [], w)
        | false ↦ elim (tree_contains_hash tree w next_hash) [
          | true ↦ (ok [], w)
          | false ↦
              let (result, w') = block_header (HeaderLocator.hash next_hash) w in
              elim result [
                | err e ↦ (err e, w')
                | ok header ↦
                    let (rest, w'') =
                      branch_loop block_header first_tracked_height tip_height (i + 1) n
                        header.prev_blockhash w' in
                    elim rest [
                      | err e ↦ (err e, w'')
                      | ok headers ↦ (ok (make_header_info height header ∷ headers), w'')
                    ]
              ]
        ]
      ]

  -- The tips that the loop of `get_new_nonactive_headers_by_hash` runs over
  abbrev pub nonactive_tips : List ChainTip → ℕ → List ChainTip
  unfolding nonactive_tip_reaches_tracked_range is_active_status
  nonactive_tips tips first_tracked_height =
      filter_by (λ tip. not (is_active_status tip.status))
        (filter_by (λ tip. nonactive_tip_reaches_tracked_range tip first_tracked_height) tips)

  unfoldable pub nonactive_loop :
      (HeaderLocator → Action W Header) → ℕ → Bool → List ChainTip → W → Fetched W (List HeaderInfo)
  nonactive_loop block_header first_tracked_height listening [] w = (ok [], w, [])
  nonactive_loop block_header first_tracked_height listening (inactive_tip ∷ inactive_tips) w =
      elim (bitcoin.from_str inactive_tip.hash) [
        | none ↦ (err (data_error (text_append "Invalid block hash '" inactive_tip.hash)), w, [])
        | some tip_hash ↦
            let (result, w') =
              branch_loop block_header first_tracked_height inactive_tip.height 0
                (inactive_tip.branchlen + 1) tip_hash w in
            elim result [
              | err e ↦ (err e, w', [])
              | ok headers_for_tip ↦
                  let (rest, w'', more) =
                    nonactive_loop block_header first_tracked_height listening inactive_tips w' in
                  let sent = send_progress_batch listening headers_for_tip in
                  elim rest [
                    | err e ↦ (err e, w'', sent ++ more)
                    | ok headers ↦ (ok (headers_for_tip ++ headers), w'', sent ++ more)
                  ]
            ]
      ]

  unfoldable pub get_new_nonactive_headers_by_hash :
      (HeaderLocator → Action W Header) → List ChainTip → ℕ → Bool → W → Fetched W (List HeaderInfo)
  get_new_nonactive_headers_by_hash block_header tips first_tracked_height listening w =
      nonactive_loop block_header first_tracked_height listening
        (nonactive_tips tips first_tracked_height) w
