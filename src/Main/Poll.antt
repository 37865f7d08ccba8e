-- ===== src/Main/Poll.antt =====
-- A round of the loop that polls a node (src/main.rs), beside the steps of the tasks.
use reorg_playground.Prelude.{
  ℕ, ◌≡◌, refl, sym, ap, ◌∙◌, ◌⊎◌, inl, inr, none, some, some_eq, Bool, true, false, Bool-cases,
  Option, Option-cases, List, All, All-map, Any, Result-cases, ok,
}
use reorg_playground.External.Bitcoin.{Header, Bitcoin}
use reorg_playground.External.Petgraph.{DiGraph}
use reorg_playground.External.Sqlite.{Sqlite, Encoding}
use reorg_playground.Node.{Node, info_of}
use reorg_playground.State.{Network}
use reorg_playground.Types.{HeaderInfo}
use reorg_playground.Types.Blocks.{AreBlocks, IsSound}
use reorg_playground.Types.Metrics.{Float}
use reorg_playground.Types.Tips.{ChainTip}
use reorg_playground.Fetch.{Fetched}
use reorg_playground.Fetch.Repair.Sound.{IsHonest}
use reorg_playground.Cache.{node_tips}
use reorg_playground.Db.{DbError}
use reorg_playground.Main.Shared.{Server, ◌>>=◌}
use reorg_playground.Main.TipOrder.{tips_eq, sort_tips}
use reorg_playground.Main.{
  queue_miner_identification_requests, load_sorted_tips, update_node_tips_cache,
  fetch_incremental_headers, follow_tips, poll_node,
}
use reorg_playground.Main.Steps.{Reach, here, Reach-join, IsValid}
use reorg_playground.Main.Persist.{
  Has, IsGood-Reaches, Has-Reaches, update_network_cache_runs, process_header_progress_updates_runs,
}
use reorg_playground.Main.Repair.{queue_runs, set_node_reachable_runs, repair_runs}

module _ {B D G F : Type 0} ⦃bitcoin : Bitcoin⦄ ⦃petgraph : DiGraph HeaderInfo G⦄ ⦃float : Float F⦄
    ⦃encoding : Encoding DbError⦄ ⦃sqlite : Sqlite DbError D⦄ (dfs : G → ℕ → List ℕ)
    (network : Network (Server B D G F)) (IsBlock : Header → Type 0) (block_height : Header → ℕ)
    (blocks : AreBlocks IsBlock block_height) where
  abbrev Good : Server B D G F → Type 0
  Good s = IsValid network IsBlock block_height s

  abbrev Steps : Server B D G F → Server B D G F → Type 0
  Steps s s' = Reach network IsBlock block_height s s'

  abbrev Holds : Server B D G F → List HeaderInfo → Type 0
  Holds s headers = Has dfs network IsBlock block_height blocks s headers

  module _
      (get_new_headers : Node (Server B D G F)
        → List ChainTip
        → ℕ
        → Server B D G F
        → Fetched (Server B D G F) (List HeaderInfo × List ℕ)) where
    -- The node is one of the network, other tasks take only their steps while it is asked, it answers with blocks
    -- at their heights, and the batches that a fetch sends have such blocks.
    pub record IsFaithful (node : Node (Server B D G F)) : Type 0 where
      pub member : Any (λ n. n ≡ node) network.nodes
      pub tips_steps : (s : Server B D G F) → Steps s (node.required.tips s).1
      pub honest : IsHonest IsBlock block_height Steps node.required.block_header
      pub fetch_steps :
          (tips : List ChainTip) (s : Server B D G F)
          → Steps s (get_new_headers node tips network.first_tracked_height s).1
      pub fetch_sound :
          (tips : List ChainTip) (s : Server B D G F)
          → All
              (All (IsSound IsBlock block_height))
              (get_new_headers node tips network.first_tracked_height s).2

    -- The tips are those that the node reports, sorted.
    abbrev pub AreTipsOf : Node (Server B D G F) → Server B D G F → List ChainTip → Type 0
    AreTipsOf node s tips =
        (reported : List ChainTip) × ((node.required.tips s).0 ≡ ok reported)
        × (tips ≡ sort_tips reported)

    -- After `s` a fetch for the tips succeeded, and in `s'` the tree has each header of the batches that it sent.
    abbrev pub Followed :
        Node (Server B D G F) → List ChainTip → Server B D G F → Server B D G F → Type 0
    Followed node tips s s' =
        (u : Server B D G F) × (found : List HeaderInfo × List ℕ) × Steps s u
        × ((get_new_headers node tips network.first_tracked_height u).0 ≡ ok found)
        × All (Holds s') (get_new_headers node tips network.first_tracked_height u).2

    module _ (node : Node (Server B D G F)) (faithful : IsFaithful node) where
      load_sorted_tips_runs :
          (s : Server B D G F)
          → Good s
          → (loaded : Option (List ChainTip)) × (s' : Server B D G F) × (load_sorted_tips dfs
                network node s
              ≡ some (loaded, s'))
            × Steps s s'
            × ((tips : List ChainTip) → loaded ≡ some tips → AreTipsOf node s tips)
      unfolding load_sorted_tips
      load_sorted_tips_runs s good =
          let asked = (node.required.tips s).1 in
          let r = faithful.tips_steps s in
          let good' = IsGood-Reaches dfs network IsBlock block_height blocks s asked good r in
          elim (Result-cases (node.required.tips s).0) [
            | inl (x, failed) ↦
                let (s', set, r') =
                  set_node_reachable_runs dfs network IsBlock block_height blocks node false asked
                    good' faithful.member in
                (
                  none,
                  s',
                  rw (failed, set, load_sorted_tips) refl,
                  Reach-join network IsBlock block_height r r',
                  λ tips e. absurd (cc),
                )
            | inr (reported, given) ↦
                let (s', set, r') =
                  set_node_reachable_runs dfs network IsBlock block_height blocks node true asked
                    good' faithful.member in
                (
                  some (sort_tips reported),
                  s',
                  rw (given, set, load_sorted_tips) refl,
                  Reach-join network IsBlock block_height r r',
                  λ tips e. (reported, given, sym (some_eq e)),
                )
          ]

      fetch_incremental_headers_runs :
          (tips : List ChainTip) (s : Server B D G F)
          → Good s
          → (fetched : Bool) × (s' : Server B D G F) × (fetch_incremental_headers dfs network
                get_new_headers node tips s
              ≡ some (fetched, s'))
            × Steps s s'
            × (fetched ≡ true → Followed node tips s s')
      unfolding fetch_incremental_headers queue_miner_identification_requests
      fetch_incremental_headers_runs tips s good =
          let run = get_new_headers node tips network.first_tracked_height s in
          let r = faithful.fetch_steps tips s in
          let good' = IsGood-Reaches dfs network IsBlock block_height blocks s run.1 good r in
          let (n, s', processed, r', has) =
            process_header_progress_updates_runs dfs network IsBlock block_height blocks run.2 run.1
              good' (faithful.fetch_sound tips s) in
          let all = Reach-join network IsBlock block_height r r' in
          elim (Result-cases run.0) [
            | inl (x, failed) ↦ (
              false,
              s',
              rw (processed, failed, fetch_incremental_headers) refl,
              all,
              λ e. absurd (cc),
            )
            | inr (found, done) ↦ (
              true,
              queue_miner_identification_requests found.1 s',
              rw (processed, done, fetch_incremental_headers) refl,
              Reach-join network IsBlock block_height all
                  (queue_runs dfs network IsBlock block_height blocks s' found.1),
              λ _. (s, found, here, done, has),
            )
          ]

      -- What one round leaves for the next one
      abbrev Polled :
          List ChainTip → List ChainTip → List ChainTip → Server B D G F → Server B D G F → Type 0
      Polled last_tips tips last_tips' s s' =
          (last_tips' ≡ last_tips) ⊎ ((last_tips' ≡ tips) × Followed node tips s s')

      Followed-Steps :
          (tips : List ChainTip) (before s s' : Server B D G F)
          → Good s
          → Steps s s'
          → Followed node tips before s
          → Followed node tips before s'
      Followed-Steps tips before s s' good r (u, found, earlier, done, has) = (
        u,
        found,
        earlier,
        done,
        All-map _ _ (get_new_headers node tips network.first_tracked_height u).2
            (λ batch. Has-Reaches dfs network IsBlock block_height blocks s s' batch good r) has,
      )

      follow_tips_runs :
          (last_tips tips : List ChainTip) (s : Server B D G F)
          → Good s
          → (last_tips' : List ChainTip) × (s' : Server B D G F) × (follow_tips dfs network
                get_new_headers node last_tips tips s
              ≡ some (last_tips', s'))
            × Steps s s'
            × Polled last_tips tips last_tips' s s'
      unfolding follow_tips update_node_tips_cache
      follow_tips_runs last_tips tips s good =
          let (fetched, s1, ran, r1, followed) = fetch_incremental_headers_runs tips s good in
          let good1 = IsGood-Reaches dfs network IsBlock block_height blocks s s1 good r1 in
          elim (Bool-cases fetched) [
            | inr failed ↦ (last_tips, s1, rw (ran, failed, follow_tips) refl, r1, inl refl)
            | inl done ↦
                let (s2, updated, r2) =
                  update_network_cache_runs dfs network IsBlock block_height blocks
                    (node_tips (info_of node).id tips) s1 good1 in
                let good2 = IsGood-Reaches dfs network IsBlock block_height blocks s1 s2 good1 r2 in
                let (s3, repaired, r3) =
                  repair_runs dfs network IsBlock block_height blocks node s2 good2
                    faithful.honest in
                let later = Reach-join network IsBlock block_height r2 r3 in
                (
                  tips,
                  s3,
                  rw (ran, done, updated, repaired, follow_tips, update_node_tips_cache) refl,
                  Reach-join network IsBlock block_height r1 later,
                  inr (refl, Followed-Steps tips s s1 s3 good1 later (followed done)),
                )
          ]

      -- For a node of the network that answers with blocks at their heights, one round of polling from a valid state
      -- does not panic, it is a sequence of steps, those of other tasks among them, and the state after it is valid.
      -- The tips taken as seen are those of before, or those that the node reports, sorted; and these only after a
      -- fetch for them after the start of the round, which succeeded, with each header that it sent in the tree.
      pub poll_node_lem :
          (last_tips : List ChainTip) (s : Server B D G F)
          → Good s
          → (last_tips' : List ChainTip) × (s' : Server B D G F) × (poll_node dfs network
                get_new_headers node last_tips s
              ≡ some (last_tips', s'))
            × Steps s s'
            × Good s'
            × ((last_tips' ≡ last_tips)
                ⊎ (AreTipsOf node s last_tips' × Followed node last_tips' s s'))
      unfolding poll_node
      poll_node_lem last_tips s good =
          let (loaded, s1, ran, r1, reported) = load_sorted_tips_runs s good in
          let good1 = IsGood-Reaches dfs network IsBlock block_height blocks s s1 good r1 in
          elim (Option-cases loaded) [
            | inl unreachable ↦
                (last_tips, s1, rw (ran, unreachable, poll_node) refl, r1, good1, inl refl)
            | inr (tips, given) ↦
                let asked : load_sorted_tips dfs network node s ≡ some (some tips, s1) =
                  ran ∙ ap (λ l. some (l, s1)) given in
                elim (Bool-cases (tips_eq last_tips tips)) [
                  | inl same ↦
                      let (s2, repaired, r2) =
                        repair_runs dfs network IsBlock block_height blocks node s1 good1
                          faithful.honest in
                      (
                        last_tips,
                        s2,
                        rw (asked, ◌>>=◌, same, repaired, poll_node) refl,
                        Reach-join network IsBlock block_height r1 r2,
                        IsGood-Reaches dfs network IsBlock block_height blocks s1 s2 good1 r2,
                        inl refl,
                      )
                  | inr differ ↦
                      let (last_tips', s2, followed, r2, polled) =
                        follow_tips_runs last_tips tips s1 good1 in
                      (
                        last_tips',
                        s2,
                        rw (asked, ◌>>=◌, differ, poll_node) followed,
                        Reach-join network IsBlock block_height r1 r2,
                        IsGood-Reaches dfs network IsBlock block_height blocks s1 s2 good1 r2,
                        elim polled [
                          | inl old ↦ inl old
                          | inr (new, (u, found, earlier, done, has)) ↦
                              let before = Reach-join network IsBlock block_height r1 earlier in
                              inr (rw new (reported tips given, (u, found, before, done, has)))
                        ],
                      )
                ]
          ]
