-- ===== src/Cache/Nodes.antt =====
-- Which nodes the cache of a network shows (src/cache.rs): an update changes their data, not which they are.
use reorg_playground.Prelude.{
  ℕ, Option, ◌≡◌, refl, sym, ap, ◌∙◌, inl, inr, Bool-cases, ◌==◌, ==_iff, some, some_pair, Map, get,
  modify, get-modify_self, get-modify_other,
}
use reorg_playground.External.Bitcoin.{Bitcoin}
use reorg_playground.State.{Cache}
use reorg_playground.Types.Tips.{NodeDataJson}
use reorg_playground.Types.Metrics.{NetworkMetricsJson}
use reorg_playground.Cache.{
  CacheUpdate, header_miner, header_tree, node_tips, node_reachability, node_version, apply_update,
  update_locked, store_metrics, is_node_reachable,
}

-- The cache shows the node.
abbrev pub IsShown : {F : Type 0} → Cache F → ℕ → Type 0
IsShown cache id = (data_of : NodeDataJson) × (get id cache.node_data ≡ some data_of)

has-modify :
    {V : Type 0} (k j : ℕ) (f : V → V) (m : Map V)
    → (v : V) × (get j m ≡ some v)
    → (v : V) × (get j (modify k f m) ≡ some v)
has-modify k j f m (v, at) = elim (Bool-cases (k == j)) [
  | inl same ↦
      let e : k ≡ j = (==_iff k j).0 same in
      (
        f v,
        ap (λ i. get i (modify k f m)) (sym e) ∙ get-modify_self k f m v (ap (λ i. get i m) e ∙ at),
      )
  | inr other ↦ (v, get-modify_other k j f m other ∙ at)
]

module _ {F : Type 0} ⦃bitcoin : Bitcoin⦄ where
  apply_update-IsShown :
      (now : ℕ) (update : CacheUpdate) (cache : Cache F) (id : ℕ)
      → IsShown cache id
      → IsShown (apply_update now update cache).0 id
  unfolding apply_update
  apply_update-IsShown now (header_miner h) cache id shown = shown
  apply_update-IsShown now (header_tree hs forks) cache id shown = shown
  apply_update-IsShown now (node_tips k tips) cache id shown = has-modify k id _ _ shown
  apply_update-IsShown now (node_reachability k r) cache id shown = has-modify k id _ _ shown
  apply_update-IsShown now (node_version k v) cache id shown = has-modify k id _ _ shown

module _ {F : Type 0} ⦃bitcoin : Bitcoin⦄ where
  pub update_locked-IsShown :
      (now : ℕ) (caches caches' : Map (Cache F)) (network_id : ℕ) (update : CacheUpdate)
      (old : Cache F) (refresh : Option (Map NodeDataJson))
      → get network_id caches ≡ some old
      → update_locked now caches network_id update ≡ some (caches', refresh)
      → (new : Cache F) × (get network_id caches' ≡ some new)
        × ((id : ℕ) → IsShown old id → IsShown new id)
  unfolding update_locked
  update_locked-IsShown now caches caches' network_id update old refresh cached e =
      let cache = (apply_update now update old).0 in
      let same = (some_pair (rw (cached, update_locked) at e)).0 in
      (
        cache,
        rw same at (get-modify_self network_id (λ _. cache) caches old cached),
        λ id. apply_update-IsShown now update old id,
      )

  pub store_metrics-IsShown :
      (caches : Map (Cache F)) (network_id : ℕ) (metrics : NetworkMetricsJson F) (old : Cache F)
      → get network_id caches ≡ some old
      → (new : Cache F) × (get network_id (store_metrics network_id metrics caches) ≡ some new)
        × ((id : ℕ) → IsShown old id → IsShown new id)
  store_metrics-IsShown caches network_id metrics old cached = (
    record old { metrics = metrics },
    get-modify_self network_id (λ c. record c { metrics = metrics }) caches old cached,
    λ id shown. shown,
  )

pub is_node_reachable_lem :
    {F : Type 0} (caches : Map (Cache F)) (network_id node_id : ℕ) (cache : Cache F)
    (data_of : NodeDataJson)
    → get network_id caches ≡ some cache
    → get node_id cache.node_data ≡ some data_of
    → is_node_reachable caches network_id node_id ≡ some data_of.reachable
unfolding is_node_reachable
is_node_reachable_lem caches network_id node_id cache data_of cached shown =
    rw (cached, shown, is_node_reachable) refl
