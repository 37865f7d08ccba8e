-- ===== src/Api/Controls.antt =====
-- The control handlers in src/api.rs: which requests reach a node, and what is answered.
use reorg_playground.Prelude.{
  ℕ, ◌≡◌, refl, inl, inr, false, some, List, [], ◌∷◌, Option-cases, Bool-cases, if◌then◌else◌,
  Result, ok, err, not_both,
}
use reorg_playground.External.Bitcoin.{Bitcoin}
use reorg_playground.External.Http.{StatusCode}
use reorg_playground.Node.{supports_controls, supports_mining, MineBlocksOptions}
use reorg_playground.Node.Errors.{FetchError}
use reorg_playground.State.{AppState}
use reorg_playground.Api.{
  unwrap_or, MineBlockRequest, MineBlockResponse, mine_answer, mine_block, RewindChainRequest,
  rewind_answer, rewind_chain, ReconsiderBlockRequest, reconsider_answer, reconsider_block,
  SetNetworkActiveRequest, set_active_answer, set_network_active,
}
use reorg_playground.Api.Guards.{
  status_of, is_ok, IsGuardedCall, on_error_lem, Addresses, no_network, view_only, no_node, target,
  Target-cases, IsControllable, IsMiner, supports_controls_iff, supports_mining_iff,
}
use reorg_playground.Api.{RewindChainResponse, SetNetworkActiveResponse}

abbrev pub mine_options : MineBlockRequest → MineBlocksOptions
mine_options body = record { exclude_mempool_txs = unwrap_or body.exclude_mempool_txs false }

mine_answer_lem :
    (r : Result FetchError (List ℕ))
    → ((mine_answer r).1.success ≡ is_ok r) × ((mine_answer r).0 ≡ status_of r)
unfolding mine_answer
mine_answer_lem (ok _) = (refl, refl)
mine_answer_lem (err e) =
    on_error_lem {A = StatusCode × MineBlockResponse} (λ a s. (a.1.success ≡ false) × (a.0 ≡ s)) _ _
      _ (refl, refl) (refl, refl) (refl, refl) e

module _ {W F : Type 0} where
  -- `mine_block` mines exactly for a request that names a miner: a node of a network that is not view-only,
  -- with Bitcoin Core on signet or regtest and mining configured.
  pub mine_block_lem :
      (state : AppState W F) (network_id : ℕ) (body : MineBlockRequest) (w : W)
      → IsGuardedCall
          (λ response. response.success)
          (mine_block state network_id body w)
          w
          (λ node. Addresses state network_id body.node_id node × IsMiner node)
          (λ node. node.mine_new_blocks_with_options (unwrap_or body.count 1) (mine_options body) w)
  unfolding mine_block
  mine_block_lem state network_id body w = elim (Target-cases state network_id body.node_id) [
    | no_network missing denied ↦
        rw (missing, mine_block) (inr (refl, refl, λ node (to, _). denied node to))
    | view_only network found closed denied ↦
        rw (found, closed, mine_block) (inr (refl, refl, λ node (to, _). denied node to))
    | no_node network found may nobody denied ↦
        rw (found, may, nobody, mine_block) (inr (refl, refl, λ node (to, _). denied node to))
    | target network node found may named only ↦ elim (Bool-cases (supports_mining node false)) [
      | inr idle ↦
          rw (found, may, named, may, idle, mine_block)
            (inr (
              refl,
              refl,
              λ other (to, miner).
                  not_both ((supports_mining_iff node).1 (rw (only other to) at miner)) idle,
            ))
      | inl miner ↦
          let (told, status) =
            mine_answer_lem
              (node.mine_new_blocks_with_options (unwrap_or body.count 1) (mine_options body)
                w).0 in
          let to : Addresses state network_id body.node_id node = record {
            network = network;
            network_eq = found;
            may_control = may;
            node_eq = named;
          } in
          rw (found, may, named, may, miner, mine_block)
            (inl (node, (to, (supports_mining_iff node).0 miner), refl, told, status))
    ]
  ]

module _ ⦃bitcoin : Bitcoin⦄ where
  rewind_answer_lem :
      (r : Result FetchError ℕ)
      → ((rewind_answer r).1.success ≡ is_ok r) × ((rewind_answer r).0 ≡ status_of r)
  unfolding rewind_answer
  rewind_answer_lem (ok _) = (refl, refl)
  rewind_answer_lem (err e) =
      on_error_lem {A = StatusCode × RewindChainResponse} (λ a s. (a.1.success ≡ false) × (a.0 ≡ s))
        _ _ _ (refl, refl) (refl, refl) (refl, refl) e

module _ {W F : Type 0} ⦃bitcoin : Bitcoin⦄ where
  -- `rewind_chain` rewinds exactly for a request that names a controllable node of a network that is not
  -- view-only.
  pub rewind_chain_lem :
      (state : AppState W F) (network_id : ℕ) (body : RewindChainRequest) (w : W)
      → IsGuardedCall
          (λ response. response.success)
          (rewind_chain state network_id body w)
          w
          (λ node. Addresses state network_id body.node_id node × IsControllable node)
          (λ node. node.rewind_chain body.depth w)
  unfolding rewind_chain
  rewind_chain_lem state network_id body w = elim (Target-cases state network_id body.node_id) [
    | no_network missing denied ↦
        rw (missing, rewind_chain) (inr (refl, refl, λ node (to, _). denied node to))
    | view_only network found closed denied ↦
        rw (found, closed, rewind_chain) (inr (refl, refl, λ node (to, _). denied node to))
    | no_node network found may nobody denied ↦
        rw (found, may, nobody, rewind_chain) (inr (refl, refl, λ node (to, _). denied node to))
    | target network node found may named only ↦ elim (Bool-cases (supports_controls node false)) [
      | inr idle ↦
          rw (found, may, named, may, idle, rewind_chain)
            (inr (
              refl,
              refl,
              λ other (to, able).
                  not_both ((supports_controls_iff node).1 (rw (only other to) at able)) idle,
            ))
      | inl able ↦
          let (told, status) = rewind_answer_lem (node.rewind_chain body.depth w).0 in
          let to : Addresses state network_id body.node_id node = record {
            network = network;
            network_eq = found;
            may_control = may;
            node_eq = named;
          } in
          rw (found, may, named, may, able, rewind_chain)
            (inl (node, (to, (supports_controls_iff node).0 able), refl, told, status))
    ]
  ]

reconsider_answer_lem :
    (r : Result FetchError Unit)
    → ((reconsider_answer r).1.success ≡ is_ok r) × ((reconsider_answer r).0 ≡ status_of r)
unfolding reconsider_answer
reconsider_answer_lem (ok _) = (refl, refl)
reconsider_answer_lem (err e) =
    on_error_lem {A = StatusCode × MineBlockResponse} (λ a s. (a.1.success ≡ false) × (a.0 ≡ s)) _ _
      _ (refl, refl) (refl, refl) (refl, refl) e

module _ {W F : Type 0} ⦃bitcoin : Bitcoin⦄ where
  -- `reconsider_block` calls the node exactly for a request that names a controllable node of a network that is
  -- not view-only, and a block hash that can be read.
  pub reconsider_block_lem :
      (state : AppState W F) (network_id : ℕ) (body : ReconsiderBlockRequest) (w : W)
      → IsGuardedCall
          (λ response. response.success)
          (reconsider_block state network_id body w)
          w
          (λ (node, block_hash).
            Addresses state network_id body.node_id node
            × IsControllable node
            × (bitcoin.from_str body.block_hash ≡ some block_hash))
          (λ (node, block_hash). node.reconsider_block block_hash w)
  unfolding reconsider_block
  reconsider_block_lem state network_id body w = elim (Target-cases state network_id body.node_id) [
    | no_network missing denied ↦
        rw (missing, reconsider_block) (inr (refl, refl, λ x allowed. denied x.0 allowed.0))
    | view_only network found closed denied ↦
        rw (found, closed, reconsider_block) (inr (refl, refl, λ x allowed. denied x.0 allowed.0))
    | no_node network found may nobody denied ↦
        rw (found, may, nobody, reconsider_block)
          (inr (refl, refl, λ x allowed. denied x.0 allowed.0))
    | target network node found may named only ↦ elim (Bool-cases (supports_controls node false)) [
      | inr idle ↦
          rw (found, may, named, may, idle, reconsider_block)
            (inr (
              refl,
              refl,
              λ x allowed.
                  not_both ((supports_controls_iff node).1 (rw (only x.0 allowed.0) at allowed.1))
                    idle,
            ))
      | inl able ↦ elim (Option-cases (bitcoin.from_str body.block_hash)) [
        | inl unread ↦
            rw (found, may, named, may, able, unread, reconsider_block)
              (inr (refl, refl, λ x allowed. cc))
        | inr (block_hash, read) ↦
            let (told, status) = reconsider_answer_lem (node.reconsider_block block_hash w).0 in
            let to : Addresses state network_id body.node_id node = record {
              network = network;
              network_eq = found;
              may_control = may;
              node_eq = named;
            } in
            rw (found, may, named, may, able, read, reconsider_block)
              (inl (
                (node, block_hash),
                (to, (supports_controls_iff node).0 able, refl),
                refl,
                told,
                status,
              ))
      ]
    ]
  ]

set_active_answer_lem :
    (r : Result FetchError Unit)
    → ((set_active_answer r).1.success ≡ is_ok r) × ((set_active_answer r).0 ≡ status_of r)
unfolding set_active_answer
set_active_answer_lem (ok _) = (refl, refl)
set_active_answer_lem (err e) =
    on_error_lem {A = StatusCode × SetNetworkActiveResponse}
      (λ a s. (a.1.success ≡ false) × (a.0 ≡ s)) _ _ _ (refl, refl) (refl, refl) (refl, refl) e

module _ {W F : Type 0} where
  -- `set_network_active` calls the node exactly for a request that names a node of a network that is not
  -- view-only, and sends the network's id into the channel of peer changes just where it succeeds.
  pub set_network_active_lem :
      (state : AppState W F) (network_id : ℕ) (body : SetNetworkActiveRequest) (w : W)
      → let answer = set_network_active state network_id body w in
        IsGuardedCall
          (λ response. response.success)
          (answer.0, answer.1)
          w
          (λ node. Addresses state network_id body.node_id node)
          (λ node. node.set_p2p_network_active body.active w)
        × (answer.2 ≡ (if answer.0.1.success then network_id ∷ [] else []))
  unfolding set_network_active set_active_answer
  set_network_active_lem state network_id body w =
      elim (Target-cases state network_id body.node_id) [
        | no_network missing denied ↦
            rw (missing, set_network_active) (inr (refl, refl, denied), refl)
        | view_only network found closed denied ↦
            rw (found, closed, set_network_active) (inr (refl, refl, denied), refl)
        | no_node network found may nobody denied ↦
            rw (found, may, nobody, set_network_active) (inr (refl, refl, denied), refl)
        | target network node found may named only ↦
            let (told, status) =
              set_active_answer_lem (node.set_p2p_network_active body.active w).0 in
            let to : Addresses state network_id body.node_id node = record {
              network = network;
              network_eq = found;
              may_control = may;
              node_eq = named;
            } in
            rw (found, may, named, set_network_active)
              (
                inl (node, to, refl, told, status),
                sent network_id (node.set_p2p_network_active body.active w).0,
              )
      ]
    where
      sent :
          (network_id : ℕ) (r : Result FetchError Unit)
          → elim r as (λ _. List ℕ) [ ok _ ↦ network_id ∷ [] | err _ ↦ [] ]
            ≡ (if (set_active_answer r).1.success then network_id ∷ [] else [])
      sent network_id (ok _) = refl
      sent network_id (err e) =
          let failed : (set_active_answer (err e)).1.success ≡ false =
            (set_active_answer_lem (err e)).0 in
          rw failed refl
