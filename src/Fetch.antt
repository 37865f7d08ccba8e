-- ===== src/Fetch.antt =====
-- src/node/shared_fetch.rs up to line 359: which headers a backend loads. A fetch runs on a state `W` that
-- holds the bitcoin node and the tree, which others may change between two calls; `tree` reads the tree from
-- it. The last part of a result is what is sent into the channel `progress_tx`, and `listening` tells
-- whether there is one. Heights are below 2^63, so that `as i64` keeps them; `query_height` is kept as
-- the number `query_height + 1`, where 0 stands for all that are negative.
pub mod ByHeight
pub mod Ranges
pub mod Asks
pub mod Batches
pub mod Branches
pub mod Repair
mod Tests
use Prim.Native.String.{String, ◌++◌ as text_append}
use text.Mathlib.Text.{◌==◌ as str_eq}
use reorg_playground.Prelude.{
  ℕ, zero, suc, ◌+◌, ◌-◌, ◌==◌, leb, ltb, max, Bool, true, false, not, ◌&&◌, Option, none, some,
  List, [], ◌∷◌, ◌++◌, map, length, contains_key, any_by, filter_by, is_empty, sort_by_key, Result,
  ok, err, ok_or, if◌then◌else◌,
}
use reorg_playground.External.Bitcoin.{Header, Bitcoin}
use reorg_playground.Types.{HeaderInfo, TreeInfo}
use reorg_playground.Types.Tips.{
  ChainTip, ChainTipStatus, active, invalid, valid_fork, headers_only, valid_headers, unknown,
}
use reorg_playground.Node.{Action, HeaderLocator}
use reorg_playground.Node.Errors.{FetchError, data_error, not_supported}

abbrev pub active_batch_step : ℕ
active_batch_step = 2000

abbrev active_miner_lookup_limit : ℕ
active_miner_lookup_limit = 20

abbrev rpc_progress_batch_size : ℕ
rpc_progress_batch_size = 10

-- `status == ChainTipStatus::Active`
pub is_active_status : ChainTipStatus → Bool
is_active_status active = true
is_active_status invalid = false
is_active_status valid_fork = false
is_active_status headers_only = false
is_active_status valid_headers = false
is_active_status unknown = false

abbrev pub make_header_info : ℕ → Header → HeaderInfo
make_header_info height header = record { height = height; header = header; miner = "" }

-- `rfind`: the last one that passes
abbrev find_last : {A : Type 0} → (A → Bool) → List A → Option A
find_last p [] = none
find_last p (x ∷ xs) = elim (find_last p xs) [
  | some y ↦ some y
  | none ↦ if p x then some x else none
]

pub find_active_tip : List ChainTip → Result FetchError ChainTip
find_active_tip tips =
    ok_or (find_last (λ tip. is_active_status tip.status) tips)
      (data_error "No 'active' chain tip returned")

-- `checked_sub` is `none` for a branch longer than the height.
pub nonactive_tip_reaches_tracked_range : ChainTip → ℕ → Bool
nonactive_tip_reaches_tracked_range tip first_tracked_height =
    leb first_tracked_height tip.height && leb tip.branchlen tip.height

abbrev pub send_progress_batch : Bool → List HeaderInfo → List (List HeaderInfo)
send_progress_batch listening batch = if not (is_empty batch) && listening then batch ∷ [] else []

module _ ⦃bitcoin : Bitcoin⦄ where
  abbrev hashes_of : List HeaderInfo → List ℕ
  hashes_of headers = map (λ h. bitcoin.block_hash h.header) headers

  pub miner_hashes_for_new_headers : List HeaderInfo → List HeaderInfo → List ℕ
  miner_hashes_for_new_headers active_new_headers nonactive_new_headers =
      (if leb (length active_new_headers) active_miner_lookup_limit
        then hashes_of active_new_headers
        else [])
      ++ hashes_of nonactive_new_headers

-- What a fetch gives: its result, the state after it, and the batches sent.
abbrev pub Fetched : Type 0 → Type 0 → Type 0
Fetched W A = Result FetchError A × W × List (List HeaderInfo)

-- A fetch goes on with what came so far, `sent` first.
abbrev after_sending : {W A : Type 0} → List (List HeaderInfo) → Fetched W A → Fetched W A
after_sending sent (r, w, more) = (r, w, sent ++ more)

module _ {W G : Type 0} ⦃bitcoin : Bitcoin⦄ (tree : W → TreeInfo G) where
  abbrev pub tree_contains_hash : W → ℕ → Bool
  tree_contains_hash w hash = contains_key hash (tree w).index

  -- The loop of `get_new_active_headers_by_height`: the heights down to `first_tracked_height`, `n` of them
  -- being left. With the new headers it gives the progress batch at the end.
  pub by_height_loop :
      (HeaderLocator → Action W Header)
      → Bool
      → ℕ
      → ℕ
      → List HeaderInfo
      → List HeaderInfo
      → W
      → Fetched W (List HeaderInfo × List HeaderInfo)
  by_height_loop block_header listening first_tracked_height zero new_headers progress_batch w =
      (ok (new_headers, progress_batch), w, [])
  by_height_loop block_header listening first_tracked_height (suc n) new_headers progress_batch w =
      let height = first_tracked_height + n in
      let (result, w') = block_header (HeaderLocator.height height) w in
      elim result [
        | err e ↦ (err e, w', [])
        | ok header ↦ elim (tree_contains_hash w' (bitcoin.block_hash header)) [
          | true ↦ (ok (new_headers, progress_batch), w', [])
          | false ↦
              let header_info = make_header_info height header in
              let batch = progress_batch ++ header_info ∷ [] in
              let headers = new_headers ++ header_info ∷ [] in
              elim (leb rpc_progress_batch_size (length batch) && listening) [
                | true ↦
                    after_sending (batch ∷ [])
                      (by_height_loop block_header listening first_tracked_height n headers [] w')
                | false ↦
                    by_height_loop block_header listening first_tracked_height n headers batch w'
              ]
        ]
      ]

  pub get_new_active_headers_by_height :
      (HeaderLocator → Action W Header) → List ChainTip → ℕ → Bool → W → Fetched W (List HeaderInfo)
  get_new_active_headers_by_height block_header tips first_tracked_height listening w =
      elim (find_active_tip tips) [
        | err e ↦ (err e, w, [])
        | ok active_tip ↦
            let (result, w', sent) =
              by_height_loop block_header listening first_tracked_height
                (active_tip.height + 1 - first_tracked_height) [] [] w in
            elim result [
              | err e ↦ (err e, w', sent)
              | ok (new_headers, progress_batch) ↦ (
                ok (sort_by_key (λ h. h.height) new_headers),
                w',
                sent ++ send_progress_batch listening progress_batch,
              )
            ]
      ]

  -- The headers of a batch that the tree does not have, and whether it has one of them
  pub collect_unknown_active_batch_headers : W → ℕ → List Header → List HeaderInfo × Bool
  collect_unknown_active_batch_headers w start_height [] = ([], false)
  collect_unknown_active_batch_headers w start_height (header ∷ headers) =
      let (batch_new, encountered) =
        collect_unknown_active_batch_headers w (start_height + 1) headers in
      if tree_contains_hash w (bitcoin.block_hash header)
      then (batch_new, true)
      else (make_header_info start_height header ∷ batch_new, encountered)

  -- The loop of `get_new_active_headers_as_batch`, with the steps left; `next_height` is `query_height + 1`.
  -- `none` means that the steps did not do.
  pub batch_loop :
      (ℕ → ℕ → Action W (List Header)) → Bool → ℕ → ℕ → ℕ → W → Option (Fetched W (List HeaderInfo))
  batch_loop batch_active_headers listening first_tracked_height zero next_height w = none
  batch_loop batch_active_headers listening first_tracked_height (suc fuel) next_height w =
      elim (leb next_height first_tracked_height) [
        | true ↦ some (ok [], w, [])
        | false ↦
            let start_height = max first_tracked_height (next_height - active_batch_step) in
            let (result, w') = batch_active_headers start_height active_batch_step w in
            elim result [
              | err e ↦ some (err e, w', [])
              | ok headers ↦ elim (is_empty headers) [
                | true ↦ some (ok [], w', [])
                | false ↦
                    let (batch_new, encountered_known_header) =
                      collect_unknown_active_batch_headers w' start_height headers in
                    let sent = send_progress_batch listening batch_new in
                    elim encountered_known_header [
                      | true ↦ some (ok batch_new, w', sent)
                      | false ↦
                          elim (batch_loop batch_active_headers listening first_tracked_height fuel
                            (next_height - active_batch_step) w') [
                              | none ↦ none
                              | some (err e, w'', more) ↦ some (err e, w'', sent ++ more)
                              | some (ok rest, w'', more) ↦
                                  some (ok (batch_new ++ rest), w'', sent ++ more)
                            ]
                    ]
              ]
            ]
      ]

  pub get_new_active_headers_as_batch :
      (ℕ → ℕ → Action W (List Header))
      → List ChainTip
      → ℕ
      → Bool
      → W
      → Option (Fetched W (List HeaderInfo))
  get_new_active_headers_as_batch batch_active_headers tips first_tracked_height listening w =
      elim (find_active_tip tips) [
        | err e ↦ some (err e, w, [])
        | ok active_tip ↦
            elim (batch_loop batch_active_headers listening first_tracked_height
              (active_tip.height + 2) (active_tip.height + 1) w) [
                | none ↦ none
                | some (err e, w', sent) ↦ some (err e, w', sent)
                | some (ok new_headers, w', sent) ↦
                    some (ok (sort_by_key (λ h. h.height) new_headers), w', sent)
              ]
      ]
