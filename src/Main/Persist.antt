-- ===== src/Main/Persist.antt =====
-- How src/main.rs stores headers, beside the steps of the tasks.
use reorg_playground.Prelude.{
  ℕ, ◌+◌, ◌≡◌, refl, inl, inr, some, Bool, Bool-cases, Option, List, [], ◌∷◌, ◌++◌, length, All,
  All-map, ok, err,
}
use reorg_playground.External.Bitcoin.{Header, Bitcoin}
use reorg_playground.External.Petgraph.{DiGraph}
use reorg_playground.External.Sqlite.{Sqlite, Encoding}
use reorg_playground.State.{Network}
use reorg_playground.Types.{HeaderInfo}
use reorg_playground.Types.Blocks.{AreBlocks, IsSound}
use reorg_playground.Types.Metrics.{Float}
use reorg_playground.HeaderTree.Growth.{IsListed}
use reorg_playground.HeaderTree.Insert.{insert_headers-IsWellFormed}
use reorg_playground.HeaderTree.Result.{insert_headers_keeps}
use reorg_playground.HeaderTree.Serialize.{serialize_tree}
use reorg_playground.HeaderTree.Forks.{recent_forks}
use reorg_playground.Cache.{CacheUpdate, header_tree}
use reorg_playground.Cache.Updates.{update_cache_parts}
use reorg_playground.Cache.{store_metrics}
use reorg_playground.Db.{DbError, write_to_db}
use reorg_playground.Main.Shared.{Server}
use reorg_playground.Main.{
  update_network_cache, refresh_network_tree_cache, store_headers, persist_headers,
  process_header_progress_updates, max_forks_in_cache,
}
use reorg_playground.Main.Steps.{
  Step, Reach, here, next, Reach-join, insert_step, write_step, cache_step, metrics_step,
  notify_step, IsValid,
}
use reorg_playground.Main.Invariant.{sound-NoCollision, Reach-IsValid, IsValid-HeightsRise}

module _ {B D G F : Type 0} ⦃bitcoin : Bitcoin⦄ ⦃petgraph : DiGraph HeaderInfo G⦄ ⦃float : Float F⦄
    ⦃encoding : Encoding DbError⦄ ⦃sqlite : Sqlite DbError D⦄ (dfs : G → ℕ → List ℕ)
    (network : Network (Server B D G F)) (IsBlock : Header → Type 0) (block_height : Header → ℕ)
    (blocks : AreBlocks IsBlock block_height) where
  abbrev pub IsGood : Server B D G F → Type 0
  IsGood s = IsValid network IsBlock block_height s

  abbrev pub Reaches : Server B D G F → Server B D G F → Type 0
  Reaches s s' = Reach network IsBlock block_height s s'

  -- It does not panic, and what it does are steps.
  abbrev pub RunsTo : Server B D G F → Option (Server B D G F) → Type 0
  RunsTo s o = (s' : Server B D G F) × (o ≡ some s') × Reaches s s'

  -- The tree has the blocks.
  abbrev pub Has : Server B D G F → List HeaderInfo → Type 0
  Has s headers = All (IsListed s.tree.index) headers

  pub IsGood-Reaches : (s s' : Server B D G F) → IsGood s → Reaches s s' → IsGood s'
  IsGood-Reaches s s' good r = (Reach-IsValid network IsBlock block_height blocks s s' good r).0

  pub Has-Reaches :
      (s s' : Server B D G F) (headers : List HeaderInfo)
      → IsGood s
      → Reaches s s'
      → Has s headers
      → Has s' headers
  Has-Reaches s s' headers good r has =
      let kept = (Reach-IsValid network IsBlock block_height blocks s s' good r).2 in
      All-map _ _ headers (λ h (i, at). (i, kept.1 _ i at)) has

  pub update_network_cache_runs :
      (update : CacheUpdate) (s : Server B D G F)
      → IsGood s
      → RunsTo s (update_network_cache dfs network update s)
  unfolding update_network_cache
  update_network_cache_runs update s good =
      let (old, cached, _) = good.cached in
      let (updated, refresh, locked, run) =
        update_cache_parts s.now s.caches s.tree network.stale_rate_ranges network.id update old
          (IsValid-HeightsRise network IsBlock block_height blocks s good) cached in
      let t : Server B D G F = record s { caches = updated } in
      let first : Reaches s t = next here (cache_step update updated refresh locked refl) in
      elim run [
        | inl quiet ↦ (
          record t { sent_changes = s.sent_changes ++ network.id ∷ [] },
          rw (quiet, update_network_cache) refl,
          next first (notify_step network.id refl),
        )
        | inr (metrics, loud) ↦
            let u : Server B D G F = record t {
              caches = store_metrics network.id metrics updated;
            } in
            let second : Reaches s u = next first (metrics_step metrics refl) in
            (
              record u { sent_changes = s.sent_changes ++ network.id ∷ [] },
              rw (loud, update_network_cache) refl,
              next second (notify_step network.id refl),
            )
      ]

  store_headers_runs :
      (headers : List HeaderInfo) (s : Server B D G F)
      → IsGood s
      → All (IsSound IsBlock block_height) headers
      → (changed : Bool) × (n : ℕ) × (s' : Server B D G F) × (store_headers dfs network headers s
          ≡ some (changed, n, s'))
        × Reaches s s'
        × Has s' headers
  unfolding store_headers
  store_headers_runs headers s good at =
      let (tree, changed, inserted, _) =
        insert_headers-IsWellFormed s.tree headers good.well_formed
          (sound-NoCollision network IsBlock block_height blocks _ headers good.sound at) in
      let listed =
        (insert_headers_keeps s.tree tree changed headers good.well_formed.indexed inserted).3 in
      let grown : Server B D G F = record s { tree = tree } in
      let step : Step network IsBlock block_height s grown =
        insert_step headers tree changed at inserted refl in
      (
        changed,
        elim (write_to_db headers s.db network.id).0 [ ok _ ↦ length headers | err _ ↦ 0 ],
        record s { tree = tree; db = (write_to_db headers s.db network.id).1 },
        rw (inserted, store_headers) refl,
        next (next here step) (write_step headers at listed refl),
        listed,
      )

  pub persist_headers_runs :
      (headers : List HeaderInfo) (s : Server B D G F)
      → IsGood s
      → All (IsSound IsBlock block_height) headers
      → (n : ℕ) × (s' : Server B D G F) × (persist_headers dfs network headers s ≡ some (n, s'))
        × Reaches s s'
        × Has s' headers
  unfolding persist_headers refresh_network_tree_cache
  persist_headers_runs [] s good at = (0, s, refl, here, tt)
  persist_headers_runs (h ∷ hs) s good at =
      let (changed, n, s', stored, r, has) = store_headers_runs (h ∷ hs) s good at in
      elim (Bool-cases changed) [
        | inr same ↦ (n, s', rw (stored, same, persist_headers) refl, r, has)
        | inl grown ↦
            let good' = IsGood-Reaches s s' good r in
            let (s'', updated, r') =
              update_network_cache_runs
                (header_tree (serialize_tree s'.tree) (recent_forks dfs s'.tree max_forks_in_cache))
                s' good' in
            (
              n,
              s'',
              rw (stored, grown, updated, persist_headers, refresh_network_tree_cache) refl,
              Reach-join network IsBlock block_height r r',
              Has-Reaches s' s'' (h ∷ hs) good' r' has,
            )
      ]

  pub process_header_progress_updates_runs :
      (batches : List (List HeaderInfo)) (s : Server B D G F)
      → IsGood s
      → All (All (IsSound IsBlock block_height)) batches
      → (n : ℕ) × (s' : Server B D G F) × (process_header_progress_updates dfs network batches s
          ≡ some (n, s'))
        × Reaches s s'
        × All (Has s') batches
  unfolding process_header_progress_updates
  process_header_progress_updates_runs [] s good at = (0, s, refl, here, tt)
  process_header_progress_updates_runs (batch ∷ batches) s good (at, later) =
      let (n, s', persisted, r, has) = persist_headers_runs batch s good at in
      let good' = IsGood-Reaches s s' good r in
      let (m, s'', rest, r', all) = process_header_progress_updates_runs batches s' good' later in
      (
        n + m,
        s'',
        rw (persisted, rest, process_header_progress_updates) refl,
        Reach-join network IsBlock block_height r r',
        (Has-Reaches s' s'' batch good' r' has, all),
      )
