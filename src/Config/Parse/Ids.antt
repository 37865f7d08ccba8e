-- ===== src/Config/Parse/Ids.antt =====
-- What `parse_config` of src/config.rs ensures of the networks and nodes that it accepts.
use Prim.Native.String.{String}
use reorg_playground.Prelude.{
  ℕ, ◌≡◌, refl, sym, ap, ◌∙◌, inl, inr, Bool, true, false, ◌==◌, Option, none, some, ◌↔◌, subst,
  List, [], ◌∷◌, map, arith, All, All-map, any_by, count, count-any_by, is_empty, Bool-cases,
  Option-cases, Result, ok, bind-ok, ok_eq,
}
use reorg_playground.External.Network.{BitcoinNetwork}
use reorg_playground.Node.{Node, NodeInfo, info_of}
use reorg_playground.State.{Network, as_bitcoin_network}
use reorg_playground.Types.Metrics.{StaleRateRange}
use reorg_playground.Config.{
  p2p_address_of, with_default, backend_to_string, ConfigError, TomlNode, TomlNetwork, TomlConfig,
  Config, Environment, node_of, parse_toml_node, BackendNode, backend_info, node_info_of,
  new_backend_node, parse_rpc_auth, Backend, bitcoin_core, btcd, esplora, electrum,
  backend_from_str,
}
use reorg_playground.Config.Parse.{
  build_network_access_info, parse_nodes, parse_networks, parse_config, parse_toml_network,
  normalize_stale_rate_ranges,
}

abbrev pub IsDistinct : List ℕ → Type 0
IsDistinct [] = Unit
IsDistinct (x ∷ xs) = (count x xs ≡ 0) × IsDistinct xs

module _ {W : Type 0} where
  abbrev pub node_ids : List (Node W) → List ℕ
  node_ids nodes = map (λ node. (info_of node).id) nodes

  -- The nodes have what the file says of them, one by one.
  abbrev pub AreNodesOf : TomlNetwork → List TomlNode → List (Node W) → Type 0
  AreNodesOf network [] [] = Unit
  AreNodesOf network [] (_ ∷ _) = ⊥
  AreNodesOf network (_ ∷ _) [] = ⊥
  AreNodesOf network (t ∷ ts) (node ∷ nodes) =
      ((info_of node).id ≡ t.id)
      × ((info_of node).name ≡ t.name)
      × ((info_of node).description ≡ t.description)
      × ((info_of node).network_type ≡ as_bitcoin_network network.network_type)
      × ((info_of node).signet_challenge ≡ network.signet_challenge)
      × ((info_of node).signet_nbits ≡ network.signet_nbits)
      × ((info_of node).supports_mining ≡ with_default t.supports_mining true)
      × ((t.p2p_port ≡ none) ↔ ((info_of node).p2p_address ≡ none))
      × ((kind : Backend) × (backend_from_str t.client_implementation ≡ ok kind)
          × ((info_of node).implementation ≡ backend_to_string kind))
      × AreNodesOf network ts nodes

  -- The network has what the file says of it, with its nodes and ranges; no two of its nodes have the same id.
  pub record IsConfigured (t : TomlNetwork) (n : Network W) : Type 0 where
    pub id_eq : n.id ≡ t.id
    pub description_eq : n.description ≡ t.description
    pub name_eq : n.name ≡ t.name
    pub query_interval_eq : n.query_interval ≡ t.query_interval
    pub first_tracked_height_eq : n.first_tracked_height ≡ t.first_tracked_height
    pub visible_heights_eq : n.visible_heights_from_tip ≡ t.visible_heights_from_tip
    pub extra_hotspot_heights_eq : n.extra_hotspot_heights ≡ t.extra_hotspot_heights
    pub network_type_eq : n.network_type ≡ t.network_type
    pub view_only_mode_eq : n.view_only_mode ≡ t.view_only_mode
    pub mempool_url_eq : n.mempool_url ≡ t.mempool_url
    pub access_info_eq : n.access_info ≡ build_network_access_info t
    pub nodes_of : AreNodesOf t t.nodes n.nodes
    pub distinct_nodes : IsDistinct (node_ids n.nodes)
    pub ranges_of :
        normalize_stale_rate_ranges t.stale_rate_windows t.stale_rate_include_all_time
        ≡ ok n.stale_rate_ranges

  -- The networks are those of the file, one by one.
  abbrev pub AreConfigured : List TomlNetwork → List (Network W) → Type 0
  AreConfigured [] [] = Unit
  AreConfigured [] (_ ∷ _) = ⊥
  AreConfigured (_ ∷ _) [] = ⊥
  AreConfigured (t ∷ ts) (n ∷ ns) = IsConfigured t n × AreConfigured ts ns

unseen_before :
    (x : ℕ) (seen ids : List ℕ)
    → All (λ i. count i (x ∷ seen) ≡ 0) ids
    → All (λ i. count i seen ≡ 0) ids
unseen_before x seen ids = All-map _ _ ids (λ i h. ground arith)

unseen_after : (x : ℕ) (seen ids : List ℕ) → All (λ i. count i (x ∷ seen) ≡ 0) ids → count x ids ≡ 0
unseen_after x seen [] h = refl
unseen_after x seen (i ∷ ids) h =
    let (first, rest) = h in ground (arith, unseen_after x seen ids rest)

-- A backend's node keeps the info that it is created with.
new_backend_node-info :
    (file_exists : String → Bool) (t : TomlNode) (info : NodeInfo) (kind : Backend)
    (b : BackendNode)
    → new_backend_node file_exists t info kind ≡ ok b
    → backend_info b ≡ info
unfolding new_backend_node backend_info
new_backend_node-info file_exists t info bitcoin_core b e =
    let (auth, _, made) = bind-ok (parse_rpc_auth file_exists t) _ b e in
    ap backend_info (sym (ok_eq made))
new_backend_node-info file_exists t info btcd b e = elim (Option-cases t.rpc_user) [
  | inl nobody ↦ absurd (cc (rw (nobody, new_backend_node) at e))
  | inr (user, named) ↦ elim (Option-cases t.rpc_password) [
    | inl open_door ↦ absurd (cc (rw (named, open_door, new_backend_node) at e))
    | inr (password, kept) ↦ ap backend_info (sym (ok_eq (rw (named, kept, new_backend_node) at e)))
  ]
]
new_backend_node-info file_exists t info esplora b e = ap backend_info (sym (ok_eq e))
new_backend_node-info file_exists t info electrum b e = ap backend_info (sym (ok_eq e))

parse_toml_node-info :
    (file_exists : String → Bool) (t : TomlNode) (n : BitcoinNetwork) (c s : Option String)
    (b : BackendNode)
    → parse_toml_node file_exists t n c s ≡ ok b
    → (kind : Backend) × (backend_from_str t.client_implementation ≡ ok kind)
      × (backend_info b ≡ node_info_of t n c s kind)
unfolding parse_toml_node
parse_toml_node-info file_exists t n c s b e =
    let (kind, read, made) = bind-ok (backend_from_str t.client_implementation) _ b e in
    (kind, read, new_backend_node-info file_exists t (node_info_of t n c s kind) kind b made)

some_iff :
    (p : Option ℕ) (f : ℕ → String)
    → (p ≡ none) ↔ (elim p [ none ↦ none | some port ↦ some (f port) ] ≡ none)
some_iff none f = (λ _. refl, λ _. refl)
some_iff (some port) f = (λ e. absurd (cc), λ e. absurd (cc))

node_info_of-p2p :
    (t : TomlNode) (n : BitcoinNetwork) (c s : Option String) (kind : Backend)
    → (t.p2p_port ≡ none) ↔ ((node_info_of t n c s kind).p2p_address ≡ none)
unfolding node_info_of p2p_address_of
node_info_of-p2p t n c s kind = some_iff t.p2p_port _

module _ {W : Type 0} ⦃env : Environment W⦄ where
  node-AreNodesOf :
      (network : TomlNetwork) (t : TomlNode) (b : BackendNode) (kind : Backend)
      → backend_info b
        ≡ node_info_of t
            (as_bitcoin_network network.network_type)
            network.signet_challenge
            network.signet_nbits
            kind
      → backend_from_str t.client_implementation ≡ ok kind
      → (ts : List TomlNode) (nodes : List (Node W)) → AreNodesOf network ts nodes
      → AreNodesOf network (t ∷ ts) (node_of b ∷ nodes)
  unfolding node_of node_info_of
  node-AreNodesOf network t b kind made read ts nodes rest =
      let n = as_bitcoin_network network.network_type in
      let closed = node_info_of-p2p t n network.signet_challenge network.signet_nbits kind in
      (
        ap (λ i. i.id) made,
        ap (λ i. i.name) made,
        ap (λ i. i.description) made,
        ap (λ i. i.network_type) made,
        ap (λ i. i.signet_challenge) made,
        ap (λ i. i.signet_nbits) made,
        ap (λ i. i.supports_mining) made,
        subst (λ i. (t.p2p_port ≡ none) ↔ (i.p2p_address ≡ none)) (sym made) closed,
        (kind, read, ap (λ i. i.implementation) made),
        rest,
      )

  parse_nodes_lem :
      (network : TomlNetwork) (seen : List ℕ) (ts : List TomlNode) (nodes : List (Node W))
      → parse_nodes network seen ts ≡ ok nodes
      → AreNodesOf network ts nodes
        × All (λ id. count id seen ≡ 0) (node_ids nodes)
        × IsDistinct (node_ids nodes)
  unfolding parse_nodes node_of
  parse_nodes_lem network seen [] nodes e =
      let none_yet : [] ≡ nodes = ok_eq e in rw (← none_yet) (tt, tt, tt)
  parse_nodes_lem network seen (t ∷ ts) nodes e =
      let (b, parsed, rest) =
        bind-ok
          (parse_toml_node env.file_exists t (as_bitcoin_network network.network_type)
            network.signet_challenge network.signet_nbits)
          _ nodes e in
      elim (Bool-cases (any_by (λ id. id == (backend_info b).id) seen)) [
        | inl double ↦ absurd (cc (rw double at rest))
        | inr fresh ↦
            let (nodes', others, all) =
              bind-ok (parse_nodes network ((backend_info b).id ∷ seen) ts)
                (λ nodes. ok (node_of b ∷ nodes)) nodes (rw fresh at rest) in
            let same : node_of b ∷ nodes' ≡ nodes = ok_eq all in
            let (nodes_of, unseen_rest, distinct) =
              parse_nodes_lem network ((backend_info b).id ∷ seen) ts nodes' others in
            let (kind, read, made) = parse_toml_node-info _ t _ _ _ b parsed in
            rw (← same) (
              node-AreNodesOf network t b kind made read ts nodes' nodes_of,
              (
                count-any_by (backend_info b).id seen fresh,
                unseen_before (backend_info b).id seen (node_ids nodes') unseen_rest,
              ),
              (unseen_after (backend_info b).id seen (node_ids nodes') unseen_rest, distinct),
            )
      ]

  abbrev network_of : TomlNetwork → List (Node W) → List StaleRateRange → Network W
  network_of t nodes ranges = record {
    id = t.id;
    description = t.description;
    name = t.name;
    query_interval = t.query_interval;
    first_tracked_height = t.first_tracked_height;
    visible_heights_from_tip = t.visible_heights_from_tip;
    extra_hotspot_heights = t.extra_hotspot_heights;
    network_type = t.network_type;
    view_only_mode = t.view_only_mode;
    mempool_url = t.mempool_url;
    access_info = build_network_access_info t;
    stale_rate_ranges = ranges;
    nodes = nodes;
  }

  network-IsConfigured :
      (t : TomlNetwork) (nodes : List (Node W)) (network : Network W) (ranges : List StaleRateRange)
      → AreNodesOf t t.nodes nodes
      → IsDistinct (node_ids nodes)
      → normalize_stale_rate_ranges t.stale_rate_windows t.stale_rate_include_all_time ≡ ok ranges
      → network_of t nodes ranges ≡ network
      → IsConfigured t network
  network-IsConfigured t nodes network ranges nodes_of distinct normalized built =
      rw (← built) (record {
        id_eq = refl;
        description_eq = refl;
        name_eq = refl;
        query_interval_eq = refl;
        first_tracked_height_eq = refl;
        visible_heights_eq = refl;
        extra_hotspot_heights_eq = refl;
        network_type_eq = refl;
        view_only_mode_eq = refl;
        mempool_url_eq = refl;
        access_info_eq = refl;
        nodes_of = nodes_of;
        distinct_nodes = distinct;
        ranges_of = normalized;
      })

  parse_networks_lem :
      (seen : List ℕ) (ts : List TomlNetwork) (networks : List (Network W))
      → parse_networks seen ts ≡ ok networks
      → AreConfigured ts networks
        × All (λ id. count id seen ≡ 0) (map (λ n. n.id) networks)
        × IsDistinct (map (λ n. n.id) networks)
  unfolding parse_networks parse_toml_network
  parse_networks_lem seen [] networks e =
      let none_yet : [] ≡ networks = ok_eq e in rw (← none_yet) (tt, tt, tt)
  parse_networks_lem seen (t ∷ ts) networks e =
      let (nodes, parsed, rest) = bind-ok (parse_nodes t [] t.nodes) _ networks e in
      let (nodes_of, _, distinct_nodes) = parse_nodes_lem t [] t.nodes nodes parsed in
      let (network, made, rest') = bind-ok (parse_toml_network t nodes) _ networks rest in
      let (ranges, normalized, built) =
        bind-ok (normalize_stale_rate_ranges t.stale_rate_windows t.stale_rate_include_all_time) _
          network made in
      let configured =
        network-IsConfigured t nodes network ranges nodes_of distinct_nodes normalized
          (ok_eq built) in
      elim (Bool-cases (any_by (λ id. id == network.id) seen)) [
        | inl double ↦ absurd (cc (rw double at rest'))
        | inr fresh ↦
            let (networks', others, all) =
              bind-ok (parse_networks (network.id ∷ seen) ts) (λ ns. ok (network ∷ ns)) networks
                (rw fresh at rest') in
            let same : network ∷ networks' ≡ networks = ok_eq all in
            let (others_configured, unseen_rest, distinct) =
              parse_networks_lem (network.id ∷ seen) ts networks' others in
            rw (← same) (
              (configured, others_configured),
              (count-any_by network.id seen fresh, unseen_before network.id seen _ unseen_rest),
              (unseen_after network.id seen _ unseen_rest, distinct),
            )
      ]

  -- A configuration that is accepted has a network, and the address, the path of the database and the base URL that are
  -- written in the file. Its networks are those of the file, in their order, each with all of its settings, with the
  -- ranges that `normalize_stale_rate_ranges` makes of its windows, the access info that `build_network_access_info`
  -- makes of it, and the nodes that are written there, in their order: each with its id, name and description, the
  -- network's type and signet settings, whether it supports mining (by default it does), the name of the backend that
  -- its client implementation is read as, and a peer-to-peer address exactly when a port for it is given. No two
  -- networks, and no two nodes of a network, have the same id.
  pub parse_config_lem :
      {A : Type 0} (parse_address : String → Result ConfigError A) (toml : TomlConfig)
      (config : Config W A)
      → parse_config parse_address toml ≡ ok config
      → (is_empty config.networks ≡ false)
        × AreConfigured toml.networks config.networks
        × IsDistinct (map (λ n. n.id) config.networks)
        × (parse_address toml.address ≡ ok config.address)
        × (config.database_path ≡ toml.database_path)
        × (config.rss_base_url ≡ with_default toml.rss_base_url "")
  unfolding parse_config
  parse_config_lem parse_address toml config e =
      let (networks, parsed, rest) = bind-ok (parse_networks [] toml.networks) _ config e in
      elim (Bool-cases (is_empty networks)) [
        | inl nothing ↦ absurd (cc (rw nothing at rest))
        | inr something ↦
            let (address, read, built) =
              bind-ok (parse_address toml.address) _ config (rw something at rest) in
            let networks_eq : networks ≡ config.networks = ap (λ c. c.networks) (ok_eq built) in
            let address_eq : address ≡ config.address = ap (λ c. c.address) (ok_eq built) in
            let (configured, _, distinct) = parse_networks_lem [] toml.networks networks parsed in
            (
              rw networks_eq at something,
              rw networks_eq at configured,
              rw networks_eq at distinct,
              read ∙ ap ok address_eq,
              ap (λ c. c.database_path) (sym (ok_eq built)),
              ap (λ c. c.rss_base_url) (sym (ok_eq built)),
            )
      ]
