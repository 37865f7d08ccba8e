-- ===== src/Cache/Updates.antt =====
-- `update_cache` of src/cache.rs: what an update changes, and that miners are not lost.
use Prim.Native.String.{String}
use text.Mathlib.Text.{◌==◌ as str_eq}
use text.Mathlib.TextEquality.{eq_iff}
use reorg_playground.Prelude.{
  ℕ, ◌≡◌, refl, ap, ◌∙◌, ◌⊎◌, inl, inr, Bool, true, false, ◌==◌, ltb, Option, none, some, List, [],
  ◌∷◌, ◌++◌, length, find_by, Map, get, modify, Bool-cases, not_both,
}
use reorg_playground.External.Bitcoin.{Bitcoin}
use reorg_playground.External.Petgraph.{DiGraph}
use reorg_playground.State.{Cache}
use reorg_playground.Types.{HeaderInfo, HeaderInfoJson, TreeInfo, Fork}
use reorg_playground.Types.Tips.{NodeDataJson}
use reorg_playground.Types.Metrics.{Float, StaleRateRange, NetworkMetricsJson}
use reorg_playground.Metrics.{calculate_network_metrics}
use reorg_playground.Metrics.Paths.{HeightsRise}
use reorg_playground.Metrics.Network.{calculate_network_metrics_lem}
use reorg_playground.Cache.{
  CacheUpdate, header_miner, header_tree, node_tips, node_reachability, node_version, update_miner,
  update_first, insert_header, collect_headers, replay_miners, push_recent, apply_update,
  update_locked, store_metrics, update_cache,
}

-- The updates that may change the metrics: those of the tree and of what the nodes report
abbrev pub refreshes : CacheUpdate → Bool
refreshes (header_miner _) = false
refreshes (header_tree _ _) = true
refreshes (node_tips _ _) = true
refreshes (node_reachability _ _) = true
refreshes (node_version _ _) = false

module _ {F G : Type 0} ⦃bitcoin : Bitcoin⦄ ⦃petgraph : DiGraph HeaderInfo G⦄
    ⦃float : Float F⦄ where
  -- The metrics after the second lock
  abbrev pub IsRefreshed :
      (Map (Cache F) → Map (Cache F))
      → Map (Cache F)
      → TreeInfo G
      → List StaleRateRange
      → ℕ
      → Map NodeDataJson
      → Option (Map (Cache F) × ℕ)
      → Type 0
  IsRefreshed others updated tree ranges network_id node_data result =
      (metrics : NetworkMetricsJson F) × (calculate_network_metrics tree node_data ranges
        ≡ some metrics)
      × (caches' : Map (Cache F)) × (result ≡ some (caches', network_id))
      × ((id : ℕ) → (network_id == id) ≡ false → get id caches' ≡ get id (others updated))
      × ((between : Cache F)
          → get network_id (others updated) ≡ some between
          → get network_id caches' ≡ some (record between { metrics = metrics }))

  -- A successful update that no other task interrupts, by its locks
  pub update_cache_parts :
      (now : ℕ) (caches : Map (Cache F)) (tree : TreeInfo G) (ranges : List StaleRateRange)
      (network_id : ℕ) (update : CacheUpdate) (old : Cache F)
      → HeightsRise tree
      → get network_id caches ≡ some old
      → (updated : Map (Cache F)) × (refresh : Option (Map NodeDataJson)) × (update_locked now
            caches network_id update
          ≡ some (updated, refresh))
        × ((update_cache now (λ c. c) caches tree ranges network_id update
              ≡ some (updated, network_id))
            ⊎ ((metrics : NetworkMetricsJson F) × (update_cache now
                    (λ c. c)
                    caches
                    tree
                    ranges
                    network_id
                    update
                  ≡ some (store_metrics network_id metrics updated, network_id))))
  unfolding update_cache update_locked
  update_cache_parts now caches tree ranges network_id update old rise cached =
      let cache = (apply_update now update old).0 in
      let updated = modify network_id (λ _. cache) caches in
      elim (Bool-cases (apply_update now update old).1) [
        | inr quiet ↦ (
          updated,
          none,
          rw (cached, quiet, update_locked) refl,
          inl (rw (cached, quiet, update_cache) refl),
        )
        | inl loud ↦
            let (metrics, calculated, _, _) =
              calculate_network_metrics_lem {F = F} tree cache.node_data ranges rise in
            (
              updated,
              some cache.node_data,
              rw (cached, loud, update_locked) refl,
              inr (metrics, rw (cached, loud, calculated, update_cache) refl),
            )
      ]

-- The list has a header with the hash; `find_header` gives the first one.
abbrev pub find_header : String → List HeaderInfoJson → Option HeaderInfoJson
find_header hash headers = find_by (λ h. str_eq h.hash hash) headers

abbrev Has : String → List HeaderInfoJson → Type 0
Has hash headers = (h : HeaderInfoJson) × (find_header hash headers ≡ some h)

Has-update_first :
    (hash k miner : String) (hs : List HeaderInfoJson)
    → Has hash hs
    → Has hash (update_first k miner hs)
unfolding update_first update_miner
Has-update_first hash k miner [] has = has
Has-update_first hash k miner (x ∷ xs) (h, at) = elim (Bool-cases (str_eq x.hash k)) [
  | inl here ↦ rw here (elim (Bool-cases (str_eq x.hash hash)) [
    | inl found ↦ (update_miner miner x, rw found refl)
    | inr other ↦ (h, rw other (rw other at at))
  ])
  | inr there ↦ rw there (elim (Bool-cases (str_eq x.hash hash)) [
    | inl found ↦ (x, rw found refl)
    | inr other ↦
        let (h', at') = Has-update_first hash k miner xs (h, rw other at at) in (h', rw other at')
  ])
]

update_first-miner :
    (hash miner : String) (hs : List HeaderInfoJson)
    → Has hash hs
    → (h : HeaderInfoJson) × (find_header hash (update_first hash miner hs) ≡ some h)
      × (h.miner ≡ miner)
unfolding update_first update_miner
update_first-miner hash miner [] (h, at) = absurd (cc)
update_first-miner hash miner (x ∷ xs) (h, at) = elim (Bool-cases (str_eq x.hash hash)) [
  | inl here ↦ (update_miner miner x, rw (here, here) refl, refl)
  | inr there ↦
      let (h', at', same) = update_first-miner hash miner xs (h, rw there at at) in
      (h', rw (there, there) at', same)
]

replay_miners-last :
    (hash miner : String) (recent : List (String × String)) (hs : List HeaderInfoJson)
    → Has hash hs
    → (h : HeaderInfoJson) × (find_header hash (replay_miners (recent ++ (hash, miner) ∷ []) hs)
        ≡ some h)
      × (h.miner ≡ miner)
unfolding replay_miners
replay_miners-last hash miner [] hs has = update_first-miner hash miner hs has
replay_miners-last hash miner ((k, m) ∷ recent) hs has =
    replay_miners-last hash miner recent (update_first k m hs) (Has-update_first hash k m hs has)

Has-insert_header :
    (hash : String) (h : HeaderInfoJson) (hs : List HeaderInfoJson)
    → Has hash hs ⊎ (str_eq h.hash hash ≡ true)
    → Has hash (insert_header h hs)
unfolding insert_header
Has-insert_header hash h [] (inl (x, at)) = absurd (cc)
Has-insert_header hash h [] (inr same) = (h, rw same refl)
Has-insert_header hash h (x ∷ xs) has = elim (Bool-cases (str_eq x.hash h.hash)) [
  | inl here ↦ rw here (elim (Bool-cases (str_eq h.hash hash)) [
    | inl same ↦ (h, rw same refl)
    | inr other ↦
        let e : x.hash ≡ h.hash = (eq_iff x.hash h.hash).0 here in
        let other' : str_eq x.hash hash ≡ false = ap (λ k. str_eq k hash) e ∙ other in
        elim has [
          | inl (y, at) ↦ (y, rw other (rw other' at at))
          | inr same ↦ absurd (not_both same other)
        ]
  ])
  | inr there ↦ rw there (elim (Bool-cases (str_eq x.hash hash)) [
    | inl found ↦ (x, rw found refl)
    | inr other ↦
        let (y, at) =
          Has-insert_header hash h xs
            (elim has [ inl (y, at) ↦ inl (y, rw other at at) | inr same ↦ inr same ]) in
        (y, rw other at)
  ])
]

Has-collect_headers :
    (hash : String) (collected hs : List HeaderInfoJson)
    → Has hash collected ⊎ Has hash hs
    → Has hash (collect_headers collected hs)
unfolding collect_headers
Has-collect_headers hash collected [] (inl has) = has
Has-collect_headers hash collected [] (inr (x, at)) = absurd (cc)
Has-collect_headers hash collected (h ∷ hs) (inl has) =
    Has-collect_headers hash (insert_header h collected) hs
      (inl (Has-insert_header hash h collected (inl has)))
Has-collect_headers hash collected (h ∷ hs) (inr (x, at)) = elim (Bool-cases (str_eq h.hash hash)) [
  | inl same ↦
      Has-collect_headers hash (insert_header h collected) hs
        (inl (Has-insert_header hash h collected (inr same)))
  | inr other ↦ Has-collect_headers hash (insert_header h collected) hs (inr (x, rw other at at))
]

push_recent-last :
    (entry : String × String) (recent : List (String × String))
    → (before : List (String × String)) × (push_recent entry recent ≡ before ++ entry ∷ [])
unfolding push_recent
push_recent-last entry [] = ([], refl)
push_recent-last entry (x ∷ xs) = elim (Bool-cases (ltb 5 (length (x ∷ xs ++ entry ∷ [])))) [
  | inl over ↦ (xs, rw over refl)
  | inr room ↦ (x ∷ xs, rw room refl)
]

module _ {F : Type 0} ⦃bitcoin : Bitcoin⦄ where
  -- A miner that was found is not lost to a serialization of the tree that lags behind: after the update of
  -- the miner and then one of the tree, whose headers have the block, the cache shows that miner for it.
  pub apply_update-keeps_miner :
      (now later : ℕ) (header_info : HeaderInfo) (header_infos_json : List HeaderInfoJson)
      (forks : List Fork) (cache : Cache F) (json : HeaderInfoJson)
      → let hash = bitcoin.to_string (bitcoin.block_hash header_info.header) in
        find_header hash header_infos_json ≡ some json
        → let identified = (apply_update now (header_miner header_info) cache).0 in
          let shown = (apply_update later (header_tree header_infos_json forks) identified).0 in
          (h : HeaderInfoJson) × (find_header hash shown.header_infos_json ≡ some h)
          × (h.miner ≡ header_info.miner)
  unfolding apply_update
  apply_update-keeps_miner now later header_info hs forks cache json has =
      let hash = bitcoin.to_string (bitcoin.block_hash header_info.header) in
      let (before, e) = push_recent-last (hash, header_info.miner) cache.recent_miners in
      rw e (
        replay_miners-last hash header_info.miner before (collect_headers [] hs)
          (Has-collect_headers hash [] hs (inr (json, has))))
