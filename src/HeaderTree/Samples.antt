-- ===== src/HeaderTree/Samples.antt =====
-- Trees for the tests: a chain of three blocks with a fork, as src/headertree.rs builds it.
use reorg_playground.Prelude.{
  ℕ, zero, suc, ◌≡◌, refl, some, [], ◌∷◌, true, arith, some_pair, sym, subst, ◌∙◌,
}
use reorg_playground.External.ListGraph.{ListGraph, list_graph}
use reorg_playground.External.SampleHashes.{sample_hashes}
use reorg_playground.Types.{HeaderInfo, TreeInfo}
use reorg_playground.HeaderTree.{
  insert_headers, add_headers, add_header, link_headers, link_header, link_parent, link_children,
  link_all, children_from,
}
use reorg_playground.Metrics.{height_of}
use reorg_playground.Metrics.Paths.{HeightsRise}
use reorg_playground.HeaderTree.Insert.{IsWellFormed, insert_headers-IsWellFormed}

abbrev pub block : ℕ → ℕ → ℕ → HeaderInfo
block height prev nonce = record {
  height = height;
  header = record {
    version = 1;
    prev_blockhash = prev;
    merkle_root = 0;
    time = height;
    bits = 1;
    nonce = nonce;
  };
  miner = "";
}

abbrev pub b100 : HeaderInfo
b100 = block 100 0 1

abbrev pub b101 : HeaderInfo
b101 = block 101 1 2

abbrev pub b102 : HeaderInfo
b102 = block 102 2 3

-- a second block at height 101
abbrev pub fork101 : HeaderInfo
fork101 = block 101 1 4

abbrev pub empty_tree : TreeInfo (ListGraph HeaderInfo)
empty_tree = record { graph = []; index = [] }

-- The tree without block 101: block 102 is an unexpected root.
abbrev pub gap_tree : TreeInfo (ListGraph HeaderInfo)
gap_tree = record { graph = (b100, []) ∷ (b102, []) ∷ []; index = (1, 0) ∷ (3, 1) ∷ [] }

abbrev pub full_tree : TreeInfo (ListGraph HeaderInfo)
full_tree = record {
  graph = (b100, []) ∷ (b102, 2 ∷ []) ∷ (b101, 0 ∷ []) ∷ (fork101, 0 ∷ []) ∷ [];
  index = (1, 0) ∷ (3, 1) ∷ (2, 2) ∷ (4, 3) ∷ [];
}

pub insert_gap : insert_headers empty_tree (b100 ∷ b102 ∷ []) ≡ some (gap_tree, true)
unfolding insert_headers add_headers add_header children_from link_headers link_header link_parent
    link_children link_all
insert_gap = refl

pub insert_rest : insert_headers gap_tree (b101 ∷ fork101 ∷ []) ≡ some (full_tree, true)
unfolding insert_headers add_headers add_header children_from link_headers link_header link_parent
    link_children link_all
insert_rest = refl

pub empty_tree-IsWellFormed : IsWellFormed empty_tree
empty_tree-IsWellFormed = record {
  indexed = record { nodes_indexed = λ i h e. cc; index_sound = λ k i e. cc };
  edges_link = λ p c e. absurd (omega arith);
  links_edge = λ p c (h, at, to). absurd (cc);
  simple = λ p c. omega arith;
}

pub gap_tree-IsWellFormed : IsWellFormed gap_tree
gap_tree-IsWellFormed =
    let (t', changed, e, wf) =
      insert_headers-IsWellFormed empty_tree (b100 ∷ b102 ∷ []) empty_tree-IsWellFormed
        (omega arith) in
    subst IsWellFormed (some_pair (sym e ∙ insert_gap)).0 wf

pub full_tree-IsWellFormed : IsWellFormed full_tree
full_tree-IsWellFormed =
    let (t', changed, e, wf) =
      insert_headers-IsWellFormed gap_tree (b101 ∷ fork101 ∷ []) gap_tree-IsWellFormed
        (omega arith) in
    subst IsWellFormed (some_pair (sym e ∙ insert_rest)).0 wf

pub full_tree-HeightsRise : HeightsRise full_tree
unfolding height_of
full_tree-HeightsRise p zero e = absurd (omega arith)
full_tree-HeightsRise p (suc zero) e = ground arith
full_tree-HeightsRise p (suc (suc zero)) e = ground arith
full_tree-HeightsRise p (suc (suc (suc zero))) e = ground arith
full_tree-HeightsRise p (suc (suc (suc (suc c)))) e = absurd (omega arith)
