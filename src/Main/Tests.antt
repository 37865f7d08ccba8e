-- ===== src/Main/Tests.antt =====
-- Tests of src/main.rs: a network of one node that knows a chain of blocks, the first of them at height 100, and
-- a tree that lacks one of them.
use reorg_playground.Prelude.{
  ℕ, ◌+◌, ◌-◌, ◌≤◌, ◌<◌, ◌≡◌, refl, sym, ap, ◌∙◌, ◌⊎◌, inl, inr, leb, ltb, leb→le, ltb→lt, true,
  false, Bool-cases, none, some, List, [], ◌∷◌, arith, All, ok, err, ok_eq, if◌then◌else◌,
}
use reorg_playground.External.Bitcoin.{Header}
use reorg_playground.External.ListGraph.{ListGraph, list_graph}
use reorg_playground.External.SampleHashes.{sample_hashes}
use reorg_playground.External.RowList.{row_list, unary_encoding}
use reorg_playground.External.Sqlite.{Row}
use reorg_playground.External.Network.{BitcoinNetwork}
use reorg_playground.Node.{Node, HeaderLocator, Action, default_node}
use reorg_playground.Node.Errors.{data_error}
use reorg_playground.State.{Network, NetworkType, Cache}
use reorg_playground.Types.{HeaderInfo}
use reorg_playground.Types.Blocks.{AreBlocks}
use reorg_playground.Types.Metrics.{Float, metrics_unavailable, no_reachable_active_tip}
use reorg_playground.Types.Tips.{ChainTip, NodeDataJson, active}
use reorg_playground.HeaderTree.Samples.{b100, b101, b102, gap_tree, gap_tree-IsWellFormed}
use reorg_playground.Metrics.Paths.{HeightsRise}
use reorg_playground.Fetch.{Fetched}
use reorg_playground.Fetch.Repair.Sound.{IsHonest}
use reorg_playground.Db.{row_of}
use reorg_playground.Main.Shared.{Server}
use reorg_playground.Main.{poll_node}
use reorg_playground.Main.Steps.{Reach, here, next, send_step, IsValid, KeepsBlocks}
use reorg_playground.Main.Invariant.{IsDurable, Reach-IsValid}
use reorg_playground.Main.Poll.{IsFaithful, AreTipsOf, Followed, poll_node_lem}
use reorg_playground.Main.Miners.{identify_miner, ask_miner}
use reorg_playground.Main.Miners.Identify.{IsPassedOver, Identified, identify_miner_lem}

instance abbrev fractions : Float (ℕ × ℕ)
fractions = record { zero_rate = (0, 0); rate_of = λ a b. (a, b) }

-- The block with the hash `n`
abbrev chain_header : ℕ → Header
chain_header n = record {
  version = 1;
  prev_blockhash = n - 1;
  merkle_root = 0;
  time = 99 + n;
  bits = 1;
  nonce = n;
}

abbrev IsBlock : Header → Type 0
IsBlock h = (0 < h.nonce) × (h ≡ chain_header h.nonce)

abbrev block_height : Header → ℕ
block_height h = h.time

chain-AreBlocks : AreBlocks IsBlock block_height
chain-AreBlocks = record {
  distinct = λ a b is_a is_b same. is_a.1 ∙ ap chain_header same ∙ sym is_b.1;
  rises = λ a b is_a is_b up.
      let prev : a.prev_blockhash ≡ a.nonce - 1 = ap (λ (h : Header). h.prev_blockhash) is_a.1 in
      let time_a : a.time ≡ 99 + a.nonce = ap (λ (h : Header). h.time) is_a.1 in
      let time_b : b.time ≡ 99 + b.nonce = ap (λ (h : Header). h.time) is_b.1 in
      let positive = is_a.0 in let link : a.prev_blockhash ≡ b.nonce = up in omega arith;
}

abbrev State : Type 0
State = Server ℕ (List Row) (ListGraph HeaderInfo) (ℕ × ℕ)

abbrev answer_header : HeaderLocator → Action State Header
answer_header (HeaderLocator.height h) w =
    (if leb 100 h then ok (chain_header (h - 99)) else err (data_error ""), w)
answer_header (HeaderLocator.hash k) w =
    (if ltb 0 k then ok (chain_header k) else err (data_error ""), w)

abbrev chain_node : Node State
chain_node = default_node (record {
  info = record {
    id = 7;
    name = "node";
    description = "";
    implementation = "Bitcoin Core";
    network_type = BitcoinNetwork.regtest;
    supports_mining = false;
    signet_challenge = none;
    signet_nbits = none;
    p2p_address = none;
  };
  endpoint = "";
  version = λ w. (ok "30", w);
  block_header = answer_header;
  tips = λ w. (ok (record { height = 102; hash = "xxx"; branchlen = 0; status = active } ∷ []), w);
  get_miner_pool = λ h i n w. (ok (some "pool"), w);
})

abbrev one_node : Network State
one_node = record {
  id = 1;
  description = "";
  name = "regtest";
  query_interval = 1;
  first_tracked_height = 100;
  visible_heights_from_tip = 10;
  extra_hotspot_heights = 0;
  network_type = NetworkType.regtest;
  view_only_mode = false;
  mempool_url = none;
  access_info = none;
  stale_rate_ranges = [];
  nodes = chain_node ∷ [];
}

abbrev shown_node : NodeDataJson
shown_node = record {
  id = 7;
  name = "node";
  description = "";
  implementation = "Bitcoin Core";
  supports_controls = true;
  supports_mining = false;
  supports_stale_tips = false;
  tips = [];
  last_changed_timestamp = 0;
  version = "unknown";
  reachable = true;
}

abbrev first_cache : Cache (ℕ × ℕ)
first_cache = record {
  header_infos_json = [];
  node_data = (7, shown_node) ∷ [];
  forks = [];
  metrics = metrics_unavailable [] no_reachable_active_tip;
  recent_miners = [];
}

abbrev start : State
start = record {
  backends = 0;
  db = row_of 1 b100 ∷ [];
  tree = gap_tree;
  caches = (1, first_cache) ∷ [];
  sent_changes = [];
  miner_queue = [];
  now = 5;
}

start-IsValid : IsValid one_node IsBlock block_height start
unfolding default_node
start-IsValid = record {
  well_formed = gap_tree-IsWellFormed;
  sound = (((omega arith, refl), refl), (((omega arith, refl), refl), tt));
  cached = (first_cache, refl, ((shown_node, refl), tt));
  stored = ((λ own. (b100.header, refl, (omega arith, refl), refl, λ high. (0, refl))), tt);
}

abbrev queued : State
queued = record start { miner_queue = 1 ∷ [] }

Reach-IsValid_example :
    IsValid one_node IsBlock block_height queued
    × HeightsRise queued.tree
    × KeepsBlocks one_node IsBlock block_height start.tree queued.tree
    × IsDurable one_node IsBlock block_height chain-AreBlocks queued
Reach-IsValid_example =
    Reach-IsValid one_node IsBlock block_height chain-AreBlocks start queued start-IsValid
      (next here (send_step (1 ∷ []) refl))

abbrev fetch_chain :
    Node State → List ChainTip → ℕ → State → Fetched State (List HeaderInfo × List ℕ)
fetch_chain node tips first s =
    (ok (b101 ∷ b102 ∷ [], 2 ∷ 3 ∷ []), s, (b101 ∷ []) ∷ (b102 ∷ []) ∷ [])

abbrev no_search : ListGraph HeaderInfo → ℕ → List ℕ
no_search g root = root ∷ []

answer-IsHonest : IsHonest IsBlock block_height (Reach one_node IsBlock block_height) answer_header
answer-IsHonest = record {
  after = λ locator w. unmoved locator w;
  by_height = λ h w header e. elim (Bool-cases (leb 100 h)) [
    | inl above ↦ at_height h header (leb→le 100 h above) (ok_eq (rw above at e))
    | inr below ↦ absurd (cc (rw below at e))
  ];
  by_hash = λ k w header e. elim (Bool-cases (ltb 0 k)) [
    | inl positive ↦ under_hash k header (ltb→lt 0 k positive) (ok_eq (rw positive at e))
    | inr zero_hash ↦ absurd (cc (rw zero_hash at e))
  ];
}
  where
    unmoved :
        (locator : HeaderLocator) (w : State)
        → Reach one_node IsBlock block_height w (answer_header locator w).1
    unmoved (HeaderLocator.height h) w = here
    unmoved (HeaderLocator.hash k) w = here

    at_height :
        (h : ℕ) (header : Header)
        → 100 ≤ h
        → chain_header (h - 99) ≡ header
        → IsBlock header × (h ≡ block_height header)
    at_height h header above e = rw (← e) ((omega arith, refl), omega arith)

    under_hash :
        (k : ℕ) (header : Header)
        → 0 < k
        → chain_header k ≡ header
        → IsBlock header × (header.nonce ≡ k)
    under_hash k header positive e = rw (← e) ((positive, refl), refl)

chain_node-IsFaithful :
    IsFaithful no_search one_node IsBlock block_height chain-AreBlocks fetch_chain chain_node
unfolding default_node
chain_node-IsFaithful = record {
  member = inl refl;
  tips_steps = λ s. here;
  honest = answer-IsHonest;
  fetch_steps = λ tips s. here;
  fetch_sound =
      λ tips s. ((((omega arith, refl), refl), tt), ((((omega arith, refl), refl), tt), tt));
}

poll_node_lem_example :
    (last_tips' : List ChainTip) × (s' : State) × (poll_node no_search one_node fetch_chain
        chain_node [] start
      ≡ some (last_tips', s'))
    × Reach one_node IsBlock block_height start s'
    × IsValid one_node IsBlock block_height s'
    × ((last_tips' ≡ [])
        ⊎ (AreTipsOf no_search one_node IsBlock block_height chain-AreBlocks fetch_chain chain_node
              start last_tips'
            × Followed no_search one_node IsBlock block_height chain-AreBlocks fetch_chain
                chain_node last_tips' start s'))
poll_node_lem_example =
    poll_node_lem no_search one_node IsBlock block_height chain-AreBlocks fetch_chain chain_node
      chain_node-IsFaithful [] start start-IsValid

asks-in-steps :
    All
      (λ node.
        (info : HeaderInfo) (s : State)
        → Reach one_node IsBlock block_height s (ask_miner no_search one_node info node s).1)
      one_node.nodes
unfolding ask_miner default_node
asks-in-steps = (λ info s. here, tt)

identify_miner_lem_example :
    (s' : State) × (identify_miner no_search one_node start 1 ≡ some s')
    × Reach one_node IsBlock block_height start s'
    × IsValid one_node IsBlock block_height s'
    × ((IsPassedOver no_search one_node IsBlock block_height chain-AreBlocks 1 start × (s' ≡ start))
        ⊎ Identified no_search one_node IsBlock block_height chain-AreBlocks 1 start s')
identify_miner_lem_example =
    identify_miner_lem no_search one_node IsBlock block_height chain-AreBlocks asks-in-steps 1 start
      start-IsValid
