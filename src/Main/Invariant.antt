-- ===== src/Main/Invariant.antt =====
-- What the steps of src/main.rs keep, in whatever order the tasks take them.
use reorg_playground.Prelude.{
  ok, ok_eq, All-both, subst, ℕ, ◌≡◌, refl, sym, ap, ◌∙◌, inl, inr, some, some_pair, Bool, List,
  ◌++◌, get, arith, All, All-append, All-map, All-get_elem?, All-elems, Any_elim,
}
use reorg_playground.External.Bitcoin.{Header, Bitcoin}
use reorg_playground.External.Petgraph.{DiGraph}
use reorg_playground.External.Sqlite.{Row, Sqlite, Encoding}
use reorg_playground.Node.{info_of}
use reorg_playground.State.{Network}
use reorg_playground.Types.{HeaderInfo, TreeInfo}
use reorg_playground.Types.Blocks.{AreBlocks, IsSound}
use reorg_playground.Types.Metrics.{Float}
use reorg_playground.HeaderTree.{insert_headers}
use reorg_playground.HeaderTree.Insert.{NoCollision, SamePrev, insert_headers-IsWellFormed}
use reorg_playground.HeaderTree.Growth.{IsListed}
use reorg_playground.HeaderTree.Result.{insert_headers_keeps}
use reorg_playground.HeaderTree.Weights.{with_miner-IsWellFormed, weight-with_miner, All-set_elem}
use reorg_playground.Metrics.{height_of}
use reorg_playground.Metrics.Paths.{HeightsRise}
use reorg_playground.Cache.Nodes.{update_locked-IsShown, store_metrics-IsShown}
use reorg_playground.Db.{DbError, row_of, load_header_infos}
use reorg_playground.Db.Rows.{write_to_db-All, update_miner-All, load_header_infos-All}
use reorg_playground.Main.Shared.{Server}
use reorg_playground.Main.Steps.{
  Step, insert_step, write_step, cache_step, metrics_step, notify_step, miner_step,
  write_miner_step, send_step, receive_step, outside_step, Reach, here, next, IsValid, IsStored,
  KeepsBlocks, KeepsBlocks-refl, KeepsBlocks-trans,
}

module _ {B D G F : Type 0} ⦃bitcoin : Bitcoin⦄ ⦃petgraph : DiGraph HeaderInfo G⦄ ⦃float : Float F⦄
    ⦃encoding : Encoding DbError⦄ ⦃sqlite : Sqlite DbError D⦄ (network : Network (Server B D G F))
    (IsBlock : Header → Type 0) (block_height : Header → ℕ) where
  open petgraph use {raw_nodes, incoming, set_weight}

  module _ (blocks : AreBlocks IsBlock block_height) where
    abbrev Good : Server B D G F → Type 0
    Good s = IsValid network IsBlock block_height s

    abbrev Keeps : TreeInfo G → TreeInfo G → Type 0
    Keeps t t' = KeepsBlocks network IsBlock block_height t t'

    abbrev IsRow : TreeInfo G → Row → Type 0
    IsRow t row = IsStored network IsBlock block_height t row

    sound-SamePrev :
        (a b : HeaderInfo)
        → IsSound IsBlock block_height a
        → IsSound IsBlock block_height b
        → SamePrev a b
    sound-SamePrev a b (is_a, _) (is_b, _) same =
        ap (λ (h : Header). h.prev_blockhash) (blocks.distinct a.header b.header is_a is_b same)

    pub sound-NoCollision :
        (nodes hs : List HeaderInfo)
        → All (IsSound IsBlock block_height) nodes
        → All (IsSound IsBlock block_height) hs
        → NoCollision nodes hs
    sound-NoCollision nodes hs at_nodes at_hs =
        All-map _ _ (nodes ++ hs)
          (λ n is_n. All-map _ _ hs (λ h is_h. sound-SamePrev n h is_n is_h) at_hs)
          (All-append _ nodes hs at_nodes at_hs)

    -- The heights of blocks rise along the edges.
    pub IsValid-HeightsRise : (s : Server B D G F) → Good s → HeightsRise s.tree
    unfolding height_of
    IsValid-HeightsRise s valid p c edge =
        let (h, at, to) = valid.well_formed.edges_link p c edge in
        let (m, at_p, same) = valid.well_formed.indexed.index_sound h.header.prev_blockhash p to in
        let (is_h, height_h) = All-get_elem? _ (raw_nodes s.tree.graph) c valid.sound at in
        let (is_m, height_m) = All-get_elem? _ (raw_nodes s.tree.graph) p valid.sound at_p in
        let up = blocks.rises h.header m.header is_h is_m (sym same) in
        rw (at, at_p, height_of) (omega arith)

    -- What is stored is stored while the tree keeps its blocks.
    IsStored-KeepsBlocks :
        (t t' : TreeInfo G) (rows : List Row)
        → Keeps t t'
        → All (IsRow t) rows
        → All (IsRow t') rows
    IsStored-KeepsBlocks t t' rows (_, index) all =
        All-map _ _ rows
          (λ row holds own.
            let (header, decoded, block, height, listed) = holds own in
            (
              header,
              decoded,
              block,
              height,
              λ high. let (i, at) = listed high in (i, index _ i at),
            ))
          all

    row_of-IsStored :
        (t : TreeInfo G) (h : HeaderInfo)
        → IsSound IsBlock block_height h
        → IsListed t.index h
        → IsRow t (row_of network.id h)
    row_of-IsStored t h (block, height) listed own =
        (h.header, encoding.decode-serialize_hex h.header, block, height, λ _. listed)

    -- What changes neither the tree nor the caches keeps a state valid.
    IsValid-elsewhere :
        (s : Server B D G F)
        → Good s
        → (s' : Server B D G F) → s'.tree ≡ s.tree
        → s'.caches ≡ s.caches
        → All (IsRow s.tree) (sqlite.rows s'.db)
        → Good s' × Keeps s.tree s'.tree
    IsValid-elsewhere s valid s' tree caches stored = (
      record {
        well_formed = rw tree valid.well_formed;
        sound = rw tree valid.sound;
        cached = rw caches valid.cached;
        stored = rw tree stored;
      },
      rw tree (KeepsBlocks-refl network IsBlock block_height s.tree),
    )

    insert_step-IsValid :
        (s : Server B D G F) (headers : List HeaderInfo) (tree : TreeInfo G) (tree_changed : Bool)
        → Good s
        → All (IsSound IsBlock block_height) headers
        → insert_headers s.tree headers ≡ some (tree, tree_changed)
        → Good (record s { tree = tree }) × Keeps s.tree tree
    insert_step-IsValid s headers tree tree_changed valid at e =
        let (t, changed, inserted, wf) =
          insert_headers-IsWellFormed s.tree headers valid.well_formed
            (sound-NoCollision (raw_nodes s.tree.graph) headers valid.sound at) in
        let same : t ≡ tree = (some_pair (sym inserted ∙ e)).0 in
        let (kept, from, index, _) =
          insert_headers_keeps s.tree tree tree_changed headers valid.well_formed.indexed e in
        let keeps : Keeps s.tree tree = (λ i n at_i. (n, kept i n at_i, (refl, refl)), index) in
        (
          record {
            well_formed = rw same at wf;
            sound = All-elems (IsSound IsBlock block_height) (raw_nodes tree.graph) (λ i n at_i.
                elim (from i n at_i) [
                  | inl old ↦ All-get_elem? _ (raw_nodes s.tree.graph) i valid.sound old
                  | inr new ↦
                      Any_elim (IsSound IsBlock block_height) (λ h. n ≡ h) headers
                        (λ h sound_h same_h. rw same_h sound_h) at new
                ]);
            cached = valid.cached;
            stored = IsStored-KeepsBlocks s.tree tree (sqlite.rows s.db) keeps valid.stored;
          },
          keeps,
        )

    -- A step keeps the state valid, and the blocks in their places.
    Step-IsValid :
        (s s' : Server B D G F)
        → Good s
        → Step network IsBlock block_height s s'
        → Good s' × Keeps s.tree s'.tree
    Step-IsValid s s' valid (insert_step headers tree changed at e to) =
        rw to (insert_step-IsValid s headers tree changed valid at e)
    Step-IsValid s s' valid (write_step headers at listed to) = rw to (
        IsValid-elsewhere s valid _ refl refl (
          write_to_db-All (IsRow s.tree) headers s.db network.id
            (All-both _ _ _ headers (row_of-IsStored s.tree) at listed) valid.stored))
    Step-IsValid s s' valid (cache_step update caches node_data e to) =
        let (old, cached, shown) = valid.cached in
        let (new, cached', keeps) =
          update_locked-IsShown s.now s.caches caches network.id update old node_data cached e in
        rw to (
          record {
            well_formed = valid.well_formed;
            sound = valid.sound;
            cached =
                (new, cached', All-map _ _ network.nodes (λ node. keeps (info_of node).id) shown);
            stored = valid.stored;
          },
          KeepsBlocks-refl network IsBlock block_height s.tree,
        )
    Step-IsValid s s' valid (metrics_step metrics to) =
        let (old, cached, shown) = valid.cached in
        let (new, cached', keeps) = store_metrics-IsShown s.caches network.id metrics old cached in
        rw to (
          record {
            well_formed = valid.well_formed;
            sound = valid.sound;
            cached =
                (new, cached', All-map _ _ network.nodes (λ node. keeps (info_of node).id) shown);
            stored = valid.stored;
          },
          KeepsBlocks-refl network IsBlock block_height s.tree,
        )
    Step-IsValid s s' valid (notify_step changed to) =
        rw to (IsValid-elsewhere s valid _ refl refl valid.stored)
    Step-IsValid s s' valid (miner_step idx info miner at to) = rw to (
      record {
        well_formed = with_miner-IsWellFormed s.tree idx info miner at valid.well_formed;
        sound =
            rw (petgraph.raw_nodes-set_weight s.tree.graph idx (record info { miner = miner })) (
              All-set_elem _ (raw_nodes s.tree.graph) idx (record info { miner = miner })
                (All-get_elem? _ (raw_nodes s.tree.graph) idx valid.sound at) valid.sound);
        cached = valid.cached;
        stored = valid.stored;
      },
      (weight-with_miner s.tree idx info miner at, λ k i at_k. at_k),
    )
    Step-IsValid s s' valid (write_miner_step hash miner to) = rw to (
        IsValid-elsewhere s valid _ refl refl
          (update_miner-All (IsRow s.tree) s.db hash miner (λ row holds. holds) valid.stored))
    Step-IsValid s s' valid (send_step hashes to) =
        rw to (IsValid-elsewhere s valid _ refl refl valid.stored)
    Step-IsValid s s' valid (receive_step n to) =
        rw to (IsValid-elsewhere s valid _ refl refl valid.stored)
    Step-IsValid s s' valid (outside_step backends now to) =
        rw to (IsValid-elsewhere s valid _ refl refl valid.stored)

    -- The headers that a restart loads are blocks at their heights that the tree has.
    abbrev pub IsDurable : Server B D G F → Type 0
    IsDurable s =
        (loaded : List HeaderInfo)
        → load_header_infos s.db network.id network.first_tracked_height ≡ ok loaded
        → All (λ h. IsSound IsBlock block_height h × IsListed s.tree.index h) loaded

    IsValid-IsDurable : (s : Server B D G F) → Good s → IsDurable s
    IsValid-IsDurable s valid loaded e =
        load_header_infos-All (IsRow s.tree) s.db network.id network.first_tracked_height _ loaded
          (λ row header holds own high decoded.
            let (header', decoded', block, height, listed) = holds own in
            let same : header' ≡ header = ok_eq (sym decoded' ∙ decoded) in
            subst
              (λ h.
                (IsBlock h × (row.height ≡ block_height h))
                × ((i : ℕ) × (get (bitcoin.block_hash h) s.tree.index ≡ some i)))
              same ((block, height), listed high))
          valid.stored e

    -- In whatever order the tasks of a network take their steps, of a valid state they make a valid one: the tree is
    -- well formed with each block at its height, heights rise along its edges, and the cache shows each node of the
    -- network. No block that the tree has is lost, moved or found under another number. What a restart loads from the
    -- database, however many writes failed, are blocks of the tree at their heights.
    pub Reach-IsValid :
        (s s' : Server B D G F)
        → Good s
        → Reach network IsBlock block_height s s'
        → Good s' × HeightsRise s'.tree × Keeps s.tree s'.tree × IsDurable s'
    Reach-IsValid s s' valid here = (
      valid,
      IsValid-HeightsRise s valid,
      KeepsBlocks-refl network IsBlock block_height s.tree,
      IsValid-IsDurable s valid,
    )
    Reach-IsValid s s' valid (next {t} r step) =
        let (valid_t, _, kept, _) = Reach-IsValid s t valid r in
        let (valid', kept') = Step-IsValid t s' valid_t step in
        (
          valid',
          IsValid-HeightsRise s' valid',
          KeepsBlocks-trans network IsBlock block_height s.tree t.tree s'.tree kept kept',
          IsValid-IsDurable s' valid',
        )
