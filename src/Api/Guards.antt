-- ===== src/Api/Guards.antt =====
-- The guards that the control handlers of src/api.rs share, and what is expected of a guarded call.
use text.Mathlib.TextEquality.{eq_iff}
use reorg_playground.Prelude.{
  ℕ, ◌≡◌, refl, ◌↔◌, ◌⊎◌, inl, inr, Bool, true, false, Option, none, some, arith, Option-cases,
  Bool-cases, Result, ok, err, sym, ◌∙◌, some_eq, not_both,
}
use reorg_playground.External.Http.{StatusCode}
use reorg_playground.External.Network.{BitcoinNetwork}
use reorg_playground.Node.{Node, info_of, supports_controls, supports_mining, is_regtest_or_signet}
use reorg_playground.Node.Errors.{
  FetchError, not_supported, data_error, tokio_join, bitcoin_core_rpc, bitcoin_core_rest, command,
  btcd_rpc, esplora_rest, min_req, electrum_client,
}
use reorg_playground.State.{Network, AppState}
use reorg_playground.Api.{get_network, get_node, on_error}

-- The status for an error of a call: what the backend cannot do and what it finds wrong with the request
-- is the client's error, all else the server's.
abbrev pub status_of_error : FetchError → StatusCode
status_of_error (not_supported node operation) = StatusCode.bad_request
status_of_error (data_error message) = StatusCode.bad_request
status_of_error _ = StatusCode.internal_server_error

abbrev pub status_of : {A : Type 0} → Result FetchError A → StatusCode
status_of (ok _) = StatusCode.ok
status_of (err e) = status_of_error e

abbrev pub is_ok : {A : Type 0} → Result FetchError A → Bool
is_ok (ok _) = true
is_ok (err _) = false

-- What an answer is for an allowed request, `x` standing for what the request is about: the nodes are left
-- as the call leaves them, and the response and the status tell how the call went. Without an allowed
-- request the nodes are not touched, and the response says that it failed.
abbrev pub IsGuardedCall :
    {W R A X : Type 0}
    → (R → Bool)
    → (StatusCode × R) × W
    → W
    → (X → Type 0)
    → (X → Result FetchError A × W)
    → Type 0
IsGuardedCall {X = X} success answer w Allowed call =
    ((x : X) × Allowed x
      × (answer.1 ≡ (call x).1)
      × (success answer.0.1 ≡ is_ok (call x).0)
      × (answer.0.0 ≡ status_of (call x).0))
    ⊎ ((answer.1 ≡ w) × (success answer.0.1 ≡ false) × ((x : X) → ¬ Allowed x))

pub on_error_lem :
    {A : Type 0} (P : A → StatusCode → Type 0) (a b c : A)
    → P a StatusCode.bad_request
    → P b StatusCode.bad_request
    → P c StatusCode.internal_server_error
    → (e : FetchError) → P (on_error a b c e) (status_of_error e)
unfolding on_error
on_error_lem P a b c pa pb pc e = elim e as (λ k. P (on_error a b c k) (status_of_error k)) [
  | tokio_join _ ↦ pc
  | bitcoin_core_rpc _ ↦ pc
  | bitcoin_core_rest _ ↦ pc
  | command _ ↦ pc
  | btcd_rpc _ ↦ pc
  | esplora_rest _ ↦ pc
  | min_req _ ↦ pc
  | data_error _ ↦ pb
  | electrum_client _ ↦ pc
  | not_supported _ _ ↦ pa
]

module _ {W F : Type 0} where
  -- The request names a node of a network that may be controlled.
  pub record Addresses (state : AppState W F) (network_id node_id : ℕ) (node : Node W)
      : Type 0 where
    pub network : Network W
    pub network_eq : get_network state network_id ≡ some network
    pub may_control : network.view_only_mode ≡ false
    pub node_eq : get_node network node_id ≡ some node

  -- The four ways in which the guards of a control handler can go.
  pub data Target (state : AppState W F) (network_id node_id : ℕ) : Type 0 where
    no_network :
        get_network state network_id ≡ none
        → ((node : Node W) → ¬ Addresses state network_id node_id node)
        → Target state network_id node_id
    view_only :
        (network : Network W)
        → get_network state network_id ≡ some network
        → network.view_only_mode ≡ true
        → ((node : Node W) → ¬ Addresses state network_id node_id node)
        → Target state network_id node_id
    no_node :
        (network : Network W)
        → get_network state network_id ≡ some network
        → network.view_only_mode ≡ false
        → get_node network node_id ≡ none
        → ((node : Node W) → ¬ Addresses state network_id node_id node)
        → Target state network_id node_id
    target :
        (network : Network W) (node : Node W)
        → get_network state network_id ≡ some network
        → network.view_only_mode ≡ false
        → get_node network node_id ≡ some node
        → ((other : Node W) → Addresses state network_id node_id other → other ≡ node)
        → Target state network_id node_id

  pub Target-cases :
      (state : AppState W F) (network_id node_id : ℕ) → Target state network_id node_id
  Target-cases state network_id node_id = elim (Option-cases (get_network state network_id)) [
    | inl missing ↦ no_network missing (λ node to. let e = to.network_eq in absurd (cc))
    | inr (network, found) ↦ elim (Bool-cases network.view_only_mode) [
      | inl closed ↦
          view_only network found closed
            (λ node to. not_both closed (rw (same to network found) at to.may_control))
      | inr may ↦ elim (Option-cases (get_node network node_id)) [
        | inl nobody ↦
            no_node network found may nobody
              (λ node to. no_some (sym nobody ∙ rw (same to network found) at to.node_eq))
        | inr (node, named) ↦
            target network node found may named
              (λ other to. some_eq (sym (rw (same to network found) at to.node_eq) ∙ named))
      ]
    ]
  ]
    where
      no_some : {node : Node W} → ◌≡◌ {A = Option (Node W)} none (some node) → ⊥
      no_some e = cc

      same :
          {node : Node W} (to : Addresses state network_id node_id node) (network : Network W)
          → get_network state network_id ≡ some network
          → to.network ≡ network
      same to network found = some_eq (sym to.network_eq ∙ found)

is_regtest_or_signet_iff :
    (n : BitcoinNetwork)
    → (is_regtest_or_signet n ≡ true) ↔ ((n ≡ BitcoinNetwork.signet) ⊎ (n ≡ BitcoinNetwork.regtest))
unfolding is_regtest_or_signet
is_regtest_or_signet_iff BitcoinNetwork.bitcoin =
    (λ h. absurd (cc), λ h. elim h [ inl e ↦ absurd (cc) | inr e ↦ absurd (cc) ])
is_regtest_or_signet_iff BitcoinNetwork.testnet =
    (λ h. absurd (cc), λ h. elim h [ inl e ↦ absurd (cc) | inr e ↦ absurd (cc) ])
is_regtest_or_signet_iff BitcoinNetwork.signet = (λ h. inl refl, λ h. refl)
is_regtest_or_signet_iff BitcoinNetwork.regtest = (λ h. inr refl, λ h. refl)

module _ {W : Type 0} where
  -- The node is Bitcoin Core on a network for tests.
  abbrev pub IsControllable : Node W → Type 0
  IsControllable node =
      ((info_of node).implementation ≡ "Bitcoin Core")
      × (((info_of node).network_type ≡ BitcoinNetwork.signet)
          ⊎ ((info_of node).network_type ≡ BitcoinNetwork.regtest))

  abbrev pub IsMiner : Node W → Type 0
  IsMiner node = IsControllable node × ((info_of node).supports_mining ≡ true)

  pub supports_controls_iff :
      (node : Node W) → (supports_controls node false ≡ true) ↔ IsControllable node
  unfolding supports_controls
  supports_controls_iff node =
      let named = eq_iff (info_of node).implementation "Bitcoin Core" in
      let tested = is_regtest_or_signet_iff (info_of node).network_type in
      (
        λ h. (named.0 (ground arith), tested.0 (ground arith)),
        λ (e, t). let a = named.1 e in let b = tested.1 t in ground arith,
      )

  pub supports_mining_iff : (node : Node W) → (supports_mining node false ≡ true) ↔ IsMiner node
  unfolding supports_mining
  supports_mining_iff node =
      let controls = supports_controls_iff node in
      (
        λ h. (controls.0 (ground arith), ground arith),
        λ (c, m). let a = controls.1 c in ground arith,
      )
