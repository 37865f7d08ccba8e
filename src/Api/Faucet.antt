-- ===== src/Api/Faucet.antt =====
-- Statements on the handler `faucet` of src/api.rs.
use Prim.Native.String.{String}
use reorg_playground.Prelude.{
  ℕ, ◌<◌, ◌≡◌, refl, ◌⊎◌, inl, inr, true, false, ltb, ltb→lt, lt→ltb, some, Option-cases,
  Bool-cases, Result, ok, err, trim, not_both, some_eq, sym, ◌∙◌,
}
use reorg_playground.External.Network.{Payments}
use reorg_playground.Node.{Node, FaucetSendResult, supports_controls, supports_mining}
use reorg_playground.Node.Errors.{
  FetchError, not_supported, data_error, tokio_join, bitcoin_core_rpc, bitcoin_core_rest, command,
  btcd_rpc, esplora_rest, min_req, electrum_client,
}
use reorg_playground.State.{Network, AppState, is_regtest, NetworkType}
use reorg_playground.Api.{get_network, get_node}
use reorg_playground.Api.Guards.{
  status_of, status_of_error, is_ok, IsGuardedCall, Addresses, no_network, view_only, no_node,
  target, Target-cases, IsMiner, supports_controls_iff, supports_mining_iff,
}
use reorg_playground.Api.Payout.{FaucetRequest, faucet_answer, faucet_amount, faucet}

faucet_answer_lem :
    (r : Result FetchError FaucetSendResult)
    → ((faucet_answer r).1.success ≡ is_ok r) × ((faucet_answer r).0 ≡ status_of r)
unfolding faucet_answer
faucet_answer_lem (ok _) = (refl, refl)
faucet_answer_lem (err e) =
    elim e
      as (λ e.
        ((faucet_answer (err e)).1.success ≡ false)
        × ((faucet_answer (err e)).0 ≡ status_of_error e)) [
          | tokio_join _ ↦ (refl, refl)
          | bitcoin_core_rpc _ ↦ (refl, refl)
          | bitcoin_core_rest _ ↦ (refl, refl)
          | command _ ↦ (refl, refl)
          | btcd_rpc _ ↦ (refl, refl)
          | esplora_rest _ ↦ (refl, refl)
          | min_req _ ↦ (refl, refl)
          | data_error _ ↦ (refl, refl)
          | electrum_client _ ↦ (refl, refl)
          | not_supported _ _ ↦ (refl, refl)
        ]

is_regtest_iff : (n : NetworkType) → is_regtest n ≡ true → n ≡ NetworkType.regtest
unfolding is_regtest
is_regtest_iff NetworkType.mainnet h = cc
is_regtest_iff NetworkType.testnet h = cc
is_regtest_iff NetworkType.signet h = cc
is_regtest_iff NetworkType.regtest h = refl

is_regtest_of : (n : NetworkType) → n ≡ NetworkType.regtest → is_regtest n ≡ true
unfolding is_regtest
is_regtest_of NetworkType.mainnet h = absurd (cc)
is_regtest_of NetworkType.testnet h = absurd (cc)
is_regtest_of NetworkType.signet h = absurd (cc)
is_regtest_of NetworkType.regtest h = refl

module _ ⦃payments : Payments⦄ where
  faucet_amount_of :
      (s : String) (n : ℕ)
      → payments.amount_from_str_in (trim s) ≡ some n
      → 0 < n
      → faucet_amount s ≡ some n
  unfolding faucet_amount
  faucet_amount_of s n e pos = let above = lt→ltb 0 n pos in rw (e, above, faucet_amount) refl

  faucet_amount-some :
      (s : String) (n : ℕ)
      → faucet_amount s ≡ some n
      → (payments.amount_from_str_in (trim s) ≡ some n) × (0 < n)
  unfolding faucet_amount
  faucet_amount-some s n e = elim (Option-cases (payments.amount_from_str_in (trim s))) [
    | inl unread ↦ absurd (cc (rw (unread, faucet_amount) at e))
    | inr (m, read) ↦ elim (Bool-cases (ltb 0 m)) [
      | inr nothing ↦ absurd (cc (rw (read, nothing, faucet_amount) at e))
      | inl above ↦
          let same : m ≡ n = some_eq (rw (read, above, faucet_amount) at e) in
          (rw (← same) read, rw (← same) (ltb→lt 0 m above))
    ]
  ]

module _ {W F : Type 0} ⦃payments : Payments⦄ where
  -- What a faucet request must be: it names a miner of a regtest network that is not view-only, and has an
  -- address of regtest and an amount above 0.
  pub record MayPay (state : AppState W F) (network_id : ℕ) (body : FaucetRequest)
      (x : Node W × String × ℕ) : Type 0 where
    pub to : Addresses state network_id body.node_id x.0
    pub on_regtest : to.network.network_type ≡ NetworkType.regtest
    pub is_miner : IsMiner x.0
    pub address_eq : payments.regtest_address body.address ≡ some x.1
    pub amount_eq : payments.amount_from_str_in (trim body.amount_btc) ≡ some x.2
    pub positive : 0 < x.2

  -- `faucet` sends exactly for a request that may be paid: it names a miner of a regtest network that is not
  -- view-only, and has an address of regtest and an amount above 0.
  pub faucet_lem :
      (state : AppState W F) (network_id : ℕ) (body : FaucetRequest) (w : W)
      → IsGuardedCall
          (λ response. response.success)
          (faucet state network_id body w)
          w
          (MayPay state network_id body)
          (λ (node, address, amount). node.send_faucet_transaction address amount w)
  unfolding faucet
  faucet_lem state network_id body w = elim (Target-cases state network_id body.node_id) [
    | no_network missing denied ↦
        rw (missing, faucet) (inr (refl, refl, λ x may. denied x.0 may.to))
    | view_only network found closed denied ↦
        rw (found, closed, faucet) (inr (refl, refl, λ x may. denied x.0 may.to))
    | no_node network found may nobody denied ↦
        elim (Bool-cases (is_regtest network.network_type)) [
          | inr elsewhere ↦
              rw (found, may, elsewhere, faucet) (inr (refl, refl, λ x may. denied x.0 may.to))
          | inl regtest ↦
              rw (found, may, regtest, nobody, faucet)
                (inr (refl, refl, λ x may. denied x.0 may.to))
        ]
    | target network node found may named only ↦
        elim (Bool-cases (is_regtest network.network_type)) [
          | inr elsewhere ↦
              rw (found, may, elsewhere, faucet)
                (inr (
                  refl,
                  refl,
                  λ x pay.
                      not_both
                        (is_regtest_of network.network_type
                          (rw (some_eq (sym pay.to.network_eq ∙ found)) at pay.on_regtest))
                        elsewhere,
                ))
          | inl regtest ↦
              to_node network node found may named only regtest
                (Bool-cases (supports_controls node false))
                (Bool-cases (supports_mining node false))
        ]
  ]
    where
      -- The request names the node of a regtest network.
      to_node :
          (network : Network W) (node : Node W)
          → get_network state network_id ≡ some network
          → network.view_only_mode ≡ false
          → get_node network body.node_id ≡ some node
          → ((other : Node W) → Addresses state network_id body.node_id other → other ≡ node)
          → is_regtest network.network_type ≡ true
          → (supports_controls node false ≡ true) ⊎ (supports_controls node false ≡ false)
          → (supports_mining node false ≡ true) ⊎ (supports_mining node false ≡ false)
          → IsGuardedCall
              (λ response. response.success)
              (faucet state network_id body w)
              w
              (MayPay state network_id body)
              (λ (node, address, amount). node.send_faucet_transaction address amount w)
      to_node network node found may named only regtest (inr idle) mining =
          rw (found, may, regtest, named, may, idle, faucet)
            (inr (
              refl,
              refl,
              λ x pay.
                  not_both ((supports_controls_iff node).1 (rw (only x.0 pay.to) at pay.is_miner.0))
                    idle,
            ))
      to_node network node found may named only regtest (inl able) (inr idle) =
          rw (found, may, regtest, named, may, able, idle, faucet)
            (inr (
              refl,
              refl,
              λ x pay.
                  not_both ((supports_mining_iff node).1 (rw (only x.0 pay.to) at pay.is_miner))
                    idle,
            ))
      to_node network node found may named only regtest (inl able) (inl miner) =
          elim (Option-cases (payments.regtest_address body.address)) [
            | inl unread ↦
                rw (found, may, regtest, named, may, able, miner, unread, faucet)
                  (inr (refl, refl, λ x pay. let e = pay.address_eq in cc))
            | inr (address, read) ↦ elim (Option-cases (faucet_amount body.amount_btc)) [
              | inl unread ↦
                  rw (found, may, regtest, named, may, able, miner, read, unread, faucet)
                    (inr (
                      refl,
                      refl,
                      λ x pay.
                          let e = faucet_amount_of body.amount_btc x.2 pay.amount_eq pay.positive in
                          cc,
                    ))
              | inr (amount, above) ↦
                  let (told, status) =
                    faucet_answer_lem (node.send_faucet_transaction address amount w).0 in
                  let (amount_eq, positive) = faucet_amount-some body.amount_btc amount above in
                  let pay : MayPay state network_id body (node, address, amount) = record {
                    to = record {
                      network = network;
                      network_eq = found;
                      may_control = may;
                      node_eq = named;
                    };
                    on_regtest = is_regtest_iff network.network_type regtest;
                    is_miner = (supports_mining_iff node).0 miner;
                    address_eq = read;
                    amount_eq = amount_eq;
                    positive = positive;
                  } in
                  rw (found, may, regtest, named, may, able, miner, read, above, faucet)
                    (inl ((node, address, amount), pay, refl, told, status))
            ]
          ]
