-- ===== src/Main/Miners/Identify.antt =====
-- The search for the miner of a block (src/main.rs), beside the steps of the tasks.
use Prim.Native.String.{String}
use text.Mathlib.Text.{◌==◌ as str_eq}
use text.Mathlib.TextEquality.{eq_iff}
use reorg_playground.Prelude.{
  ℕ, ◌≡◌, refl, sym, ap, ◌∙◌, ◌⊎◌, inl, inr, none, some, some_eq, true, false, Bool-cases, Option,
  Option-cases, List, [], ◌∷◌, get, All, All-map, Any, subst, not_both,
}
use reorg_playground.External.Bitcoin.{Header, BlockHash, Bitcoin}
use reorg_playground.External.Petgraph.{DiGraph}
use reorg_playground.External.Sqlite.{Sqlite, Encoding}
use reorg_playground.Node.{Node}
use reorg_playground.State.{Network}
use reorg_playground.Types.{HeaderInfo}
use reorg_playground.Types.Blocks.{AreBlocks}
use reorg_playground.Types.Metrics.{Float}
use reorg_playground.HeaderTree.{hash_of, weight}
use reorg_playground.HeaderTree.Weights.{IsSameBlock, with_miner, weight-with_miner_self}
use reorg_playground.Db.{DbError, update_miner}
use reorg_playground.Cache.{CacheUpdate, header_miner, update_cache}
use reorg_playground.Main.Shared.{Server}
use reorg_playground.Main.{update_network_cache}
use reorg_playground.Main.Steps.{
  Step, Reach, here, next, Reach-join, miner_step, write_miner_step, IsValid,
}
use reorg_playground.Main.Invariant.{Reach-IsValid}
use reorg_playground.Main.Persist.{IsGood-Reaches, update_network_cache_runs}
use reorg_playground.Main.Miners.{
  answer_or, miner_unknown, has_no_miner, update_header_miner, find_miner, ask_miner, store_miner,
  identify_miner,
}

same_with_miner :
    (info info' : HeaderInfo) (miner : String)
    → IsSameBlock info info'
    → update_header_miner miner info' ≡ update_header_miner miner info
same_with_miner info info' miner (header, height) = rw (header, height) refl

module _ {W : Type 0} (After : W → W → Type 0) (stay : (w : W) → After w w)
    (join : (u v w : W) → After u v → After v w → After u w)
    (ask : Node W → W → Option String × W) where
  -- One of the nodes gave the answer.
  abbrev pub IsAnswer : String → List (Node W) → Type 0
  IsAnswer pool_name nodes = Any (λ node. (w : W) × ((ask node w).0 ≡ some pool_name)) nodes

  pub find_miner_lem :
      (nodes : List (Node W)) (miner : String) (w : W)
      → miner ≡ miner_unknown
      → All (λ node. (w : W) → After w (ask node w).1) nodes
      → let (found, w') = find_miner ask nodes miner w in
        After w w' × ((found ≡ miner_unknown) ⊎ IsAnswer found nodes)
  unfolding find_miner
  find_miner_lem [] miner w start all = (stay w, inl start)
  find_miner_lem (node ∷ nodes) miner w start (first, all) =
      let w' = (ask node w).1 in
      let found = answer_or miner (ask node w).0 in
      elim (Bool-cases (str_eq found miner_unknown)) [
        | inl same ↦
            let (r, later) =
              find_miner_lem nodes found w' ((eq_iff found miner_unknown).0 same) all in
            let goes_on : find_miner ask (node ∷ nodes) miner w ≡ find_miner ask nodes found w' =
              rw (same, find_miner) refl in
            subst (λ p. After w p.1 × ((p.0 ≡ miner_unknown) ⊎ IsAnswer p.0 (node ∷ nodes)))
              (sym goes_on)
              (
                join w w' _ (first w) r,
                elim later [ inl still ↦ inl still | inr by ↦ inr (inr by) ],
              )
        | inr known ↦
            let ends : find_miner ask (node ∷ nodes) miner w ≡ (found, w') =
              rw (known, find_miner) refl in
            subst (λ p. After w p.1 × ((p.0 ≡ miner_unknown) ⊎ IsAnswer p.0 (node ∷ nodes)))
              (sym ends) (first w, inr (inl (w, answered (ask node w).0 known)))
      ]
    where
      answered :
          (answer : Option String)
          → str_eq (answer_or miner answer) miner_unknown ≡ false
          → answer ≡ some (answer_or miner answer)
      answered none known = absurd (not_both ((eq_iff miner miner_unknown).1 start) known)
      answered (some pool_name) known = refl

module _ {B D G F : Type 0} ⦃bitcoin : Bitcoin⦄ ⦃petgraph : DiGraph HeaderInfo G⦄ ⦃float : Float F⦄
    ⦃encoding : Encoding DbError⦄ ⦃sqlite : Sqlite DbError D⦄ (dfs : G → ℕ → List ℕ)
    (network : Network (Server B D G F)) (IsBlock : Header → Type 0) (block_height : Header → ℕ)
    (blocks : AreBlocks IsBlock block_height) where
  abbrev Good : Server B D G F → Type 0
  Good s = IsValid network IsBlock block_height s

  abbrev Steps : Server B D G F → Server B D G F → Type 0
  Steps s s' = Reach network IsBlock block_height s s'

  update_network_cache-tree :
      (update : CacheUpdate) (s s' : Server B D G F)
      → update_network_cache dfs network update s ≡ some s'
      → s'.tree ≡ s.tree
  unfolding update_network_cache
  update_network_cache-tree update s s' e =
      elim (Option-cases (
        update_cache s.now (λ caches. caches) s.caches s.tree network.stale_rate_ranges network.id
          update)) [
            | inl panic ↦ absurd (cc (rw (panic, update_network_cache) at e))
            | inr (done, updated) ↦
                ap (λ (t : Server B D G F). t.tree)
                  (sym (some_eq (rw (updated, update_network_cache) at e)))
          ]

  store_miner_runs :
      (idx : ℕ) (info : HeaderInfo) (miner : String) (s : Server B D G F)
      → Good s
      → weight s.tree idx ≡ some info
      → (s' : Server B D G F) × (store_miner dfs network idx (update_header_miner miner info) s
          ≡ some s')
        × Steps s s'
        × (weight s'.tree idx ≡ some (update_header_miner miner info))
  unfolding store_miner
  store_miner_runs idx info miner s good at =
      let t1 : Server B D G F = record s { tree = with_miner s.tree idx info miner } in
      let t2 : Server B D G F = record t1 { db = (update_miner s.db (hash_of info) miner).1 } in
      let step1 : Step network IsBlock block_height s t1 = miner_step idx info miner at refl in
      let step2 : Step network IsBlock block_height t1 t2 =
        write_miner_step (hash_of info) miner refl in
      let r = next (next here step1) step2 in
      let good2 = IsGood-Reaches dfs network IsBlock block_height blocks s t2 good r in
      let update = header_miner (update_header_miner miner info) in
      let (s', updated, r') =
        update_network_cache_runs dfs network IsBlock block_height blocks update t2 good2 in
      (
        s',
        rw (at, store_miner) updated,
        Reach-join network IsBlock block_height r r',
        subst (λ t. weight t idx ≡ some (update_header_miner miner info))
            (sym (update_network_cache-tree update t2 s' updated))
            (weight-with_miner_self s.tree idx info miner at),
      )

  -- Other tasks take only their steps while a node of the network is asked for a miner.
  abbrev pub AskInSteps : Type 0
  AskInSteps =
      All
        (λ node.
          (info : HeaderInfo) (s : Server B D G F) → Steps s (ask_miner dfs network info node s).1)
        network.nodes

  -- The block under the hash had no miner, and has one now: one that a node of the network answered, or "Unknown".
  abbrev pub Identified : BlockHash → Server B D G F → Server B D G F → Type 0
  Identified hash s s' =
      (idx : ℕ) × (info : HeaderInfo) × (miner : String) × (get hash s.tree.index ≡ some idx)
      × (weight s.tree idx ≡ some info)
      × (has_no_miner info ≡ true)
      × (weight s'.tree idx ≡ some (update_header_miner miner info))
      × ((miner ≡ miner_unknown)
          ⊎ IsAnswer Steps (λ s. here) (λ u v w. Reach-join network IsBlock block_height)
              (ask_miner dfs network info) miner network.nodes)

  -- Where the tree does not have the hash, or its block has a miner, nothing is done.
  abbrev pub IsPassedOver : BlockHash → Server B D G F → Type 0
  IsPassedOver hash s =
      (idx : ℕ) (info : HeaderInfo)
      → get hash s.tree.index ≡ some idx
      → weight s.tree idx ≡ some info
      → has_no_miner info ≡ false

  module _ (asks : AskInSteps) where
    -- From a valid state, where other tasks take only their steps while nodes are asked, the search for the miner of a
    -- hash does not panic, is a sequence of steps, and leaves a valid state. If the tree has no such block, or one with
    -- a known miner, it changes nothing. Otherwise the block is in its place with a new miner, which is the answer of
    -- a node of the network or "Unknown".
    pub identify_miner_lem :
        (hash : BlockHash) (s : Server B D G F)
        → Good s
        → (s' : Server B D G F) × (identify_miner dfs network s hash ≡ some s')
          × Steps s s'
          × Good s'
          × ((IsPassedOver hash s × (s' ≡ s)) ⊎ Identified hash s s')
    unfolding identify_miner
    identify_miner_lem hash s good = elim (Option-cases (get hash s.tree.index)) [
      | inl absent ↦
          (s, rw (absent, identify_miner) refl, here, good, inl (λ idx info at. absurd (cc), refl))
      | inr (idx, found) ↦
          let (info, at, _) = good.well_formed.indexed.index_sound hash idx found in
          elim (Bool-cases (has_no_miner info)) [
            | inr known ↦ (
              s,
              rw (found, at, known, identify_miner) refl,
              here,
              good,
              inl (
                λ idx' info' found' at'.
                    let i : idx ≡ idx' = some_eq (sym found ∙ found') in
                    let e : info ≡ info' = some_eq (sym at ∙ rw (← i) at at') in rw (← e) known,
                refl,
              ),
            )
            | inl wanted ↦
                let asked = find_miner (ask_miner dfs network info) network.nodes miner_unknown s in
                let (r, by) =
                  find_miner_lem Steps (λ u. here)
                    (λ u v w. Reach-join network IsBlock block_height) (ask_miner dfs network info)
                    network.nodes miner_unknown s refl
                    (All-map _ _ network.nodes (λ node steps. steps info) asks) in
                let good1 =
                  IsGood-Reaches dfs network IsBlock block_height blocks s asked.1 good r in
                let kept = (Reach-IsValid network IsBlock block_height blocks s asked.1 good r).2 in
                let (info', at', (header, height)) = kept.0 idx info at in
                let (s', stored, r', has) = store_miner_runs idx info' asked.0 asked.1 good1 at' in
                let same : update_header_miner asked.0 info' ≡ update_header_miner asked.0 info =
                  same_with_miner info info' asked.0 (header, height) in
                let all = Reach-join network IsBlock block_height r r' in
                (
                  s',
                  rw (found, at, wanted, identify_miner) (rw same at stored),
                  all,
                  IsGood-Reaches dfs network IsBlock block_height blocks s s' good all,
                  inr (idx, info, asked.0, found, at, wanted, rw same at has, by),
                )
          ]
    ]
